-- ===== src/Storage/Invites.antt =====
-- Palette invites (src/storage/PgConversationRepository.cpp).
use picasso_backend.Base.{
  ◌+◌, ◌<◌, ◌≡◌, refl, ◌∙◌, Bool, true, false, ◌&&◌, List, Option, none, some, nat_eq, pair_eq,
  ◌==◌, ==_refl, arith, some_and,
}
use picasso_backend.Base.Int.{sub_ℕ}
use picasso_backend.Base.Table.{
  exists, IsKeyed, find_by-delete_where, find_by-update_where, exists-find_by, exists-key,
  insert_or_ignore, find_by-insert_or_ignore,
}
use picasso_backend.Domain.Ids.{SteamId, ConversationId, Time}
use picasso_backend.Domain.Contact.{younger, palette_invite_ttl_ms, decline_cooldown_ms}
use picasso_backend.Storage.Rows.{Database, InviteRow, MemberRow, invite_key, member_key}
use picasso_backend.Storage.ConversationQueries as Queries
use picasso_backend.Storage.ConversationQueries.{is_open, select_invite_state}
use picasso_backend.Storage.ConversationRepository.{
  InviteOutcome, cooldown_active, is_member, invite, held, held_back, accept_invite, decline_invite,
}

-- The invite is there, neither declined nor expired.
abbrev pub open_at : Time → InviteRow → Bool
open_at now = is_open (sub_ℕ now palette_invite_ttl_ms)

abbrev decline_of : Option InviteRow → Option Time
decline_of none = none
decline_of (some r) = r.declined_at

held_declined :
    (now later : Time) (o : Option InviteRow)
    → decline_of o ≡ some now
    → later < now + decline_cooldown_ms
    → held later o ≡ some cooldown_active
unfolding held held_back younger
held_declined now later none h until = cc
held_declined now later (some r) h until = ground arith

invite-held :
    (id : ConversationId) (inviter invitee : SteamId) (now : Time) (outcome : InviteOutcome)
    (db : Database)
    → is_member id invitee db ≡ false
    → held now (select_invite_state id invitee db) ≡ some outcome
    → invite id inviter invitee now db ≡ (db, outcome)
unfolding invite
invite-held id inviter invitee now outcome db other h = rw (other, h, invite) refl

member_there :
    (id : ConversationId) (user : SteamId) (now : Time) (rows : List MemberRow)
    → exists
        (λ r. r.palette_id == id && r.user_id == user)
        (insert_or_ignore member_key
          (record { palette_id = id; user_id = user; joined_at = now })
          rows)
      ≡ true
member_there id user now rows =
    let row : MemberRow = record { palette_id = id; user_id = user; joined_at = now } in
    exists-key member_key (id, user) (insert_or_ignore member_key row rows)
    ∙ ground (
      arith,
      find_by-insert_or_ignore member_key (id, user) row rows,
      ==_refl {A = ConversationId × SteamId} (id, user),
    )

module _ (id : ConversationId) (invitee : SteamId) (now : Time) (db : Database)
    (keyed : IsKeyed invite_key db.palette_invites) where
  there_open :
      exists (λ r. invite_key r == (id, invitee) && open_at now r) db.palette_invites
      ≡ some_and (open_at now) (select_invite_state id invitee db)
  unfolding select_invite_state
  there_open = exists-find_by invite_key (id, invitee) (open_at now) db.palette_invites keyed

  accept_done :
      (accept_invite id invitee now db).0
      ≡ some_and (open_at now) (select_invite_state id invitee db)
  unfolding accept_invite Queries.delete_pending_invite
  accept_done = ground (arith, there_open)

  member-accept :
      (accept_invite id invitee now db).0 ≡ true
      → is_member id invitee (accept_invite id invitee now db).1 ≡ true
  unfolding accept_invite Queries.delete_pending_invite is_member Queries.is_member
      Queries.insert_member_row
  member-accept h = ground (arith, h, member_there id invitee now db.members)

  invite-accept :
      (accept_invite id invitee now db).0 ≡ true
      → select_invite_state id invitee (accept_invite id invitee now db).1 ≡ none
  unfolding accept_invite Queries.delete_pending_invite select_invite_state
      Queries.insert_member_row
  invite-accept h = ground (
    arith,
    h,
    there_open,
    find_by-delete_where invite_key (id, invitee) (λ k. k == (id, invitee)) (open_at now)
        db.palette_invites keyed,
    ==_refl {A = ConversationId × SteamId} (id, invitee),
  )

  -- An invite is accepted exactly if there is one that is neither declined nor expired. Then the
  -- invitee is a member and the invite is gone, and otherwise nothing changes.
  accept_invite_lem :
      let (accepted, db') = accept_invite id invitee now db in
      (accepted ≡ some_and (open_at now) (select_invite_state id invitee db))
      × (accepted ≡ true
          → (is_member id invitee db' ≡ true) × (select_invite_state id invitee db' ≡ none))
      × (accepted ≡ false → db' ≡ db)
  unfolding accept_invite
  accept_invite_lem =
      (accept_done, (λ h. (member-accept h, invite-accept h)), (λ h. ground (arith, h)))

  invite_state-decline :
      some_and (open_at now) (select_invite_state id invitee db) ≡ true
      → decline_of (select_invite_state id invitee (decline_invite id invitee now db).1) ≡ some now
  unfolding decline_invite Queries.mark_invite_declined select_invite_state
  invite_state-decline h = ground (
    arith,
    h,
    find_by-update_where invite_key (id, invitee) (λ k. k == (id, invitee)) (open_at now)
        db.palette_invites (λ r. record r { declined_at = some now }) (λ r. refl),
    ==_refl {A = ConversationId × SteamId} (id, invitee),
  )

  -- For the length of the cooldown after an invitee has declined, an invite of anybody to the same
  -- palette is answered with the cooldown and changes nothing, unless the invitee is a member.
  pub declined_invite_held :
      (inviter : SteamId) (later : Time)
      → some_and (open_at now) (select_invite_state id invitee db) ≡ true
      → let db' = (decline_invite id invitee now db).1 in
        is_member id invitee db' ≡ false
        → later < now + decline_cooldown_ms
        → invite id inviter invitee later db' ≡ (db', cooldown_active)
  declined_invite_held inviter later h other until =
      let db' = (decline_invite id invitee now db).1 in
      invite-held id inviter invitee later cooldown_active db' other (
        held_declined now later (select_invite_state id invitee db') (invite_state-decline h) until)
