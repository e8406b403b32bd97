-- ===== src/Service/Contacts/CounterBlock.antt =====
-- Blocking somebody who has blocked you (src/service/ContactService.cpp,
-- src/storage/PgContactRepository.cpp: `block` deletes the other side's row whatever it says), and
-- taking a contact back.
use picasso_backend.Base.{◌≡◌, true, false, [], ◌∷◌, ◌++◌, none, some, nat_beq, arith}
use picasso_backend.Domain.Ids.{SteamId, Time}
use picasso_backend.Domain.Contact.{imposter}
use picasso_backend.Domain.Events.{contact_changed}
use picasso_backend.Storage.ContactRepository as Repository
use picasso_backend.Storage.ContactRepository.{level_of, can_communicate}
use picasso_backend.Storage.LevelViews.{
  level_of-block, level_of-unblock, unblock_done, remove_done, level_of-remove,
}
use picasso_backend.Service.World.{World, publish}
use picasso_backend.Service.Contacts.Invariant.{
  Social, run, step, set_level_call, remove_call, set_level-Social,
}
use picasso_backend.Service.Contacts.Communication.{can_communicate_lem, apart}
use picasso_backend.Service.Contacts.{set_level, drop_level, remove_or_unblock}

set_level-block :
    (me other : SteamId) (now : Time) (w : World)
    → nat_beq me other ≡ false
    → (set_level me other imposter now w).0.db ≡ Repository.block me other now w.db
unfolding set_level publish
set_level-block me other now w d = ground arith

unblocking :
    (me other : SteamId) (w : World)
    → Social w
    → level_of me other w.db ≡ some imposter
    → (remove_or_unblock me other w).db ≡ (Repository.unblock me other w.db).1
unfolding remove_or_unblock drop_level publish
unblocking me other w s h = ground (arith, unblock_done me other w.db s.keyed_contacts)

-- On consistent tables, a user who has been blocked gets rid of that block by blocking and then
-- unblocking the other one: afterwards neither has a row about the other.
pub counter_block_erases :
    (me other : SteamId) (now : Time) (w : World)
    → Social w
    → level_of other me w.db ≡ some imposter
    → let w' = run (set_level_call me other imposter now ∷ remove_call me other ∷ []) w in
      (level_of other me w'.db ≡ none) × (level_of me other w'.db ≡ none)
unfolding run step
counter_block_erases me other now w s h =
    let w₁ : World = (set_level me other imposter now w).0 in
    let s₁ : Social w₁ = set_level-Social me other now w s imposter in
    let d = apart other me w.db imposter s h in
    let blocked = set_level-block me other now w (ground (arith, d)) in
    let ours : level_of me other w₁.db ≡ some imposter =
      rw blocked (ground (arith, d, level_of-block me other me other now w.db s.keyed_contacts)) in
    let theirs : level_of other me w₁.db ≡ none =
      rw blocked (ground (arith, d, level_of-block other me me other now w.db s.keyed_contacts)) in
    rw (unblocking me other w₁ s₁ ours) (
      ground (
        arith,
        d,
        ours,
        theirs,
        level_of-unblock me other me other now w₁.db s₁.keyed_contacts,
        level_of-unblock other me me other now w₁.db s₁.keyed_contacts,
      ))

-- On consistent tables, removing somebody with whom one can communicate takes both rows away and
-- tells both of them.
pub remove_disconnects :
    (me other : SteamId) (w : World)
    → Social w
    → can_communicate me other w.db ≡ true
    → let w' = remove_or_unblock me other w in
      (level_of me other w'.db ≡ none)
      × (level_of other me w'.db ≡ none)
      × (w'.published
          ≡ (w.published ++ contact_changed me other none ∷ [])
            ++ contact_changed other me none ∷ [])
unfolding remove_or_unblock drop_level publish
remove_disconnects me other w s h = ground (
  arith,
  can_communicate_lem me other w.db s,
  remove_done me other w.db s.keyed_contacts,
  level_of-remove me other me other 0 w.db s.keyed_contacts,
  level_of-remove other me me other 0 w.db s.keyed_contacts,
)
