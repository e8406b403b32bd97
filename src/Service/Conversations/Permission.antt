-- ===== src/Service/Conversations/Permission.antt =====
-- Who may start a conversation with whom (src/service/ConversationService.cpp).
use picasso_backend.Base.{
  ◌≡◌, ◌≢◌, ◌∙◌, refl, sym, true, false, not, Bytes, List, arith, none, some, nat_beq, ◌&&◌,
  if◌then◌else◌, [],
}
use picasso_backend.Domain.Ids.{SteamId, ConversationId, Time}
use picasso_backend.Storage.ContactRepository.{can_communicate}
use picasso_backend.Storage.ConversationRepository as Repository
use picasso_backend.Service.World.{World}
use picasso_backend.Base.Table.{exists}
use picasso_backend.Service.Conversations.Invitees.{
  names, names-unique_invitees, all_allowed-names, all_allowed-refused,
}
use picasso_backend.Service.Conversations.{
  CreateOutcome, created, invited, unchanged, all_allowed, unique_invitees, create_dm, refused,
  create_palette, write_palette, invite,
}

-- Every check but the last passed.
created_allowed :
    (me : SteamId) (name : Bytes) (invitees : List SteamId) (now now_read : Time) (w : World)
    → (create_palette me name invitees now now_read w).1.outcome ≡ created
    → all_allowed me (unique_invitees me [] invitees) w.db ≡ true
unfolding create_palette write_palette
created_allowed me name invitees now now_read w h = ground (arith, h)

not_allowed_refused :
    (me : SteamId) (name : Bytes) (invitees : List SteamId) (now now_read : Time) (w : World)
    → (create_palette me name invitees now now_read w).1.outcome ≡ CreateOutcome.not_allowed
    → all_allowed me (unique_invitees me [] invitees) w.db ≡ false
unfolding create_palette write_palette
not_allowed_refused me name invitees now now_read w h = ground (arith, h)

uncreated_unchanged :
    (me : SteamId) (name : Bytes) (invitees : List SteamId) (now now_read : Time) (w : World)
    → (create_palette me name invitees now now_read w).1.outcome ≢ created
    → (create_palette me name invitees now now_read w).0 ≡ w
unfolding create_palette write_palette
uncreated_unchanged me name invitees now now_read w h = ground (arith, h)

-- A palette is created only if the creator may communicate with everybody who is named as an
-- invitee, the creator apart, and it is refused as not allowed only if with one of these the creator
-- may not. Unless it is created nothing is written or published, whatever the reason.
pub create_palette_atomic :
    (me : SteamId) (name : Bytes) (invitees : List SteamId) (now now_read : Time) (w : World)
    → let (w', r) = create_palette me name invitees now now_read w in
      (r.outcome ≡ created
        → (i : SteamId) → names i invitees ≡ true
        → nat_beq i me ≡ false
        → can_communicate me i w.db ≡ true)
      × (r.outcome ≡ CreateOutcome.not_allowed
          → (i : SteamId) × (names i invitees ≡ true)
            × (nat_beq i me ≡ false)
            × (can_communicate me i w.db ≡ false))
      × (r.outcome ≢ created → w' ≡ w)
unfolding exists
create_palette_atomic me name invitees now now_read w = (
  λ h i there apart.
      all_allowed-names me i (unique_invitees me [] invitees) w.db
        (created_allowed me name invitees now now_read w h)
        (rw (names-unique_invitees me i [] invitees, there, apart) refl),
  λ h.
      let (i, there, alien) =
        all_allowed-refused me (unique_invitees me [] invitees) w.db
          (not_allowed_refused me name invitees now now_read w h) in
      let named : (names i invitees && not (nat_beq i me)) ≡ true =
        sym (names-unique_invitees me i [] invitees) ∙ there in
      (i, ground (arith, named), ground (arith, named), alien),
  uncreated_unchanged me name invitees now now_read w,
)

-- Without the permission to communicate, or with oneself, no dm is made or found and nothing
-- changes.
pub create_dm-refused :
    (me peer : SteamId) (now now_read : Time) (w : World)
    → (not (nat_beq me peer) && can_communicate me peer w.db) ≡ false
    → create_dm me peer now now_read w ≡ (
      w,
      some (refused (if nat_beq me peer then CreateOutcome.self else CreateOutcome.not_allowed)),
    )
unfolding create_dm
create_dm-refused me peer now now_read w h = ground (arith, h)

-- An invite by somebody who is no member of the palette, to oneself, or to somebody with whom one
-- cannot communicate changes nothing and shows nothing of the palette.
pub invite-refused :
    (me : SteamId) (palette : ConversationId) (invitee : SteamId)
    (now_read now now_reread now_told : Time) (w : World)
    → (Repository.is_member palette me w.db
        && not (nat_beq me invitee)
        && can_communicate me invitee w.db)
      ≡ false
    → let (w', r) = invite me palette invitee now_read now now_reread now_told w in
      (w' ≡ w) × (r.outcome ≢ invited) × (r.outcome ≢ unchanged) × (r.conversation ≡ none)
unfolding invite
invite-refused me palette invitee now_read now now_reread now_told w h = ground (arith, h)
