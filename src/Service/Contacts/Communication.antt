-- ===== src/Service/Contacts/Communication.antt =====
-- Who may talk to whom after each call of the contact service (src/service/ContactService.cpp,
-- src/domain/ports/ContactRepository.hpp).
use picasso_backend.Base.{
  ◌≡◌, ◌≢◌, refl, sym, true, false, Bool, ◌&&◌, [], ◌∷◌, ◌++◌, Option, none, some, some_and,
  nat_beq, pair_eq, nat_eq, arith, inl, inr, Bool-cases, Option-cases, subst, nat_beq_iff,
}
use picasso_backend.Base.Table.{find_by, count-two_keys, count-absent}
use picasso_backend.Domain.Ids.{SteamId, Time}
use picasso_backend.Domain.Contact.{ContactLevel, imposter, allows_communication}
use picasso_backend.Domain.Events.{contact_changed}
use picasso_backend.Storage.Rows.{Database, contact_key}
use picasso_backend.Storage.ContactQueries.{select_can_communicate, select_contact_level}
use picasso_backend.Storage.ContactRepository as Repository
use picasso_backend.Storage.ContactRepository.{
  level_of, request_state, can_communicate, RequestState,
}
use picasso_backend.Storage.SocialGraph.{IsSocial}
use picasso_backend.Storage.SocialGraph.Blocking.{block-IsSocial}
use picasso_backend.Storage.SocialGraph.Connecting.{accept-IsSocial}
use picasso_backend.Storage.LevelViews.{level_of-block, level_of-accept, level_of-ensure_user}
use picasso_backend.Storage.RequestViews.{
  request_state-block, request_state-ensure_user, pending_at, accept-pending,
}
use picasso_backend.Service.World.{World, publish}
use picasso_backend.Service.Contacts.Invariant.{Social}
use picasso_backend.Service.Contacts.{
  pending, publish_pair, admit, over_limit, request, accept, set_level,
}

abbrev connected : Option ContactLevel → Bool
connected = some_and allows_communication

can_communicate_self :
    (a : SteamId) (db : Database)
    → level_of a a db ≡ none
    → can_communicate a a db ≡ (connected (level_of a a db) && connected (level_of a a db))
unfolding can_communicate select_can_communicate level_of select_contact_level
can_communicate_self a db h = elim (Option-cases (find_by contact_key (a, a) db.contacts)) [
  | inl absent ↦ ground (
    arith,
    absent,
    count-absent contact_key (a, a) (a, a) (λ r. allows_communication r.level) db.contacts absent
        absent,
  )
  | inr (r, found) ↦ ground (arith, found)
]

can_communicate_apart :
    (a b : SteamId) (db : Database)
    → nat_beq a b ≡ false
    → IsSocial db
    → can_communicate a b db ≡ (connected (level_of a b db) && connected (level_of b a db))
unfolding can_communicate select_can_communicate level_of select_contact_level
can_communicate_apart a b db differ s =
    let two =
      count-two_keys contact_key (a, b) (b, a) (λ r. allows_communication r.level) db.contacts
        (ground (arith, differ)) s.keyed_contacts in
    ground (arith, two)

-- On consistent tables two users may communicate exactly if both have a row about the other and
-- both rows are ally or friend.
pub can_communicate_lem :
    (a b : SteamId) (db : Database)
    → IsSocial db
    → can_communicate a b db ≡ (connected (level_of a b db) && connected (level_of b a db))
can_communicate_lem a b db s = elim (Bool-cases (nat_beq a b)) [
  | inl same ↦
      subst
        (λ x. can_communicate a x db ≡ (connected (level_of a x db) && connected (level_of x a db)))
        ((nat_beq_iff a b).0 same) (can_communicate_self a db (s.no_self a))
  | inr differ ↦ can_communicate_apart a b db differ s
]

module _ (from to : SteamId) (now : Time) (db : Database) (s : IsSocial db) where
  accept-connected :
      (Repository.accept from to now db).0 ≡ true
      → (connected (level_of from to (Repository.accept from to now db).1) ≡ true)
        × (connected (level_of to from (Repository.accept from to now db).1) ≡ true)
  accept-connected h = ground (
    arith,
    s.consistent from to,
    s.consistent to from,
    accept-pending from to now db s.keyed_requests,
    level_of-accept from to from to now db,
    level_of-accept to from from to now db,
  )

  pub accept-can_communicate :
      (Repository.accept from to now db).0 ≡ true
      → (can_communicate from to (Repository.accept from to now db).1 ≡ true)
        × (can_communicate to from (Repository.accept from to now db).1 ≡ true)
  accept-can_communicate h = ground (
    arith,
    accept-connected h,
    can_communicate_lem from to (Repository.accept from to now db).1
        (accept-IsSocial from to now db s),
    can_communicate_lem to from (Repository.accept from to now db).1
        (accept-IsSocial from to now db s),
  )

-- On consistent tables, when the recipient accepts and the answer is true, there was a request that
-- is neither declined nor expired, both may communicate afterwards, and each is sent the level of
-- the own row about the other.
pub accept-connects :
    (me from : SteamId) (now : Time) (w : World)
    → Social w
    → (accept me from now w).1 ≡ true
    → let w' = (accept me from now w).0 in
      (some_and (pending_at now) (request_state from me w.db) ≡ true)
      × (can_communicate me from w'.db ≡ true)
      × (can_communicate from me w'.db ≡ true)
      × (w'.published
          ≡ (w.published ++ contact_changed me from (level_of me from w'.db) ∷ [])
            ++ contact_changed from me (level_of from me w'.db) ∷ [])
unfolding accept publish_pair publish
accept-connects me from now w s h = ground (
  arith,
  accept-pending from me now w.db s.keyed_requests,
  accept-can_communicate from me now w.db s,
)

-- On consistent tables, blocking somebody else leaves the own row as a block, no row of the other
-- side and no request between the two, so neither can communicate with the other, and it tells
-- both of them.
pub set_level-blocks :
    (me other : SteamId) (now : Time) (w : World)
    → Social w
    → me ≢ other
    → let w' = (set_level me other imposter now w).0 in
      (level_of me other w'.db ≡ some imposter)
      × (level_of other me w'.db ≡ none)
      × (can_communicate me other w'.db ≡ false)
      × (can_communicate other me w'.db ≡ false)
      × (request_state me other w'.db ≡ none)
      × (request_state other me w'.db ≡ none)
      × (w'.published
          ≡ (w.published ++ contact_changed me other (some imposter) ∷ [])
            ++ contact_changed other me none ∷ [])
unfolding set_level publish
set_level-blocks me other now w s d = ground (
  arith,
  level_of-block me other me other now w.db s.keyed_contacts,
  level_of-block other me me other now w.db s.keyed_contacts,
  request_state-block me other me other now w.db s.keyed_requests,
  request_state-block other me me other now w.db s.keyed_requests,
  can_communicate_lem me other (Repository.block me other now w.db)
      (block-IsSocial me other now w.db s d),
  can_communicate_lem other me (Repository.block me other now w.db)
      (block-IsSocial me other now w.db s d),
)

-- A row is about somebody else.
pub apart :
    (a b : SteamId) (db : Database) (l : ContactLevel)
    → IsSocial db
    → level_of a b db ≡ some l
    → nat_beq a b ≡ false
apart a b db l s h = elim (Bool-cases (nat_beq a b)) [
  | inl same ↦
      cc (subst (λ x. level_of a x db ≡ some l) (sym ((nat_beq_iff a b).0 same)) h, s.no_self a)
  | inr differ ↦ differ
]

-- With the recipient's block in place a request only makes sure that the recipient has a user row.
request_blocked :
    (me target : SteamId) (now now_counted : Time) (w : World)
    → Social w
    → level_of target me w.db ≡ some imposter
    → over_limit me now now_counted w ≡ false
    → request me target now now_counted w
      ≡ (record w { db = Repository.ensure_user target w.db }, pending)
unfolding request admit
request_blocked me target now now_counted w s blocked limit = ground (
  arith,
  blocked,
  limit,
  s.consistent target me,
  apart target me w.db imposter s blocked,
  can_communicate_lem me target w.db s,
  level_of-ensure_user target me target me now w.db,
)

-- On consistent tables and within the limits, a request to somebody who has blocked the sender is
-- answered `pending`, but it stores no request, publishes nothing and changes no level.
pub blocked_request_silent :
    (me target : SteamId) (now now_counted : Time) (w : World)
    → Social w
    → level_of target me w.db ≡ some imposter
    → over_limit me now now_counted w ≡ false
    → let r = request me target now now_counted w in
      (r.1 ≡ pending)
      × (r.0.published ≡ w.published)
      × ((a b : SteamId) → request_state a b r.0.db ≡ request_state a b w.db)
      × ((a b : SteamId) → level_of a b r.0.db ≡ level_of a b w.db)
blocked_request_silent me target now now_counted w s blocked limit =
    rw (request_blocked me target now now_counted w s blocked limit) (
      refl,
      refl,
      λ a b. request_state-ensure_user a b target me now w.db,
      λ a b. level_of-ensure_user a b target me now w.db,
    )
