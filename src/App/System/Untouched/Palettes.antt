-- ===== src/App/System/Untouched/Palettes.antt =====
-- Palettes and invites change neither the contacts nor the messages
-- (src/service/ConversationService.cpp).
use picasso_backend.Base.{
  ◌≡◌, refl, Bool, true, false, not, ◌||◌, List, [], ◌∷◌, Option, none, some, Bytes, if_both, inl,
  inr, Bool-cases, Option-cases, nat_beq, is_empty, ltb, length,
}
use picasso_backend.Base.Int.{sub_ℕ}
use picasso_backend.Base.{pair_eq}
use picasso_backend.Domain.Ids.{SteamId, ConversationId, Time}
use picasso_backend.Domain.Contact.{
  PaletteInvite, max_palette_name_bytes, max_invitees_per_create, palette_invite_ttl_ms,
}
use picasso_backend.Domain.Conversation.{Conversation}
use picasso_backend.Domain.Events.{conversation_added, palette_invite_changed}
use picasso_backend.Storage.Rows.{Database}
use picasso_backend.Storage.ContactRepository.{can_communicate}
use picasso_backend.Storage.ConversationQueries as Queries
use picasso_backend.Storage.ConversationRepository as Repository
use picasso_backend.Storage.ConversationRepository.{DmResult}
use picasso_backend.Service.World.{World, publish}
use picasso_backend.Service.Conversations as Conversations
use picasso_backend.App.System.Keeping.{IsFrame}

module _ (P : Database → Type 0) (frame : IsFrame P) where
  -- What changes none of these tables.
  unchanged :
      (a b : Database)
      → P a
      → a.contacts ≡ b.contacts
      → a.contact_requests ≡ b.contact_requests
      → a.message_data ≡ b.message_data
      → a.next_message_id ≡ b.next_message_id
      → P b
  unchanged a b h p q r s = frame a b p q r s h

  announce_invite-keeps :
      (outcome : Repository.InviteOutcome) (to : SteamId) (i : PaletteInvite) (w : World)
      → P w.db
      → P (Conversations.announce_invite outcome to i w).db
  unfolding Conversations.announce_invite publish
  announce_invite-keeps Repository.created to i w h = h
  announce_invite-keeps _ to i w h = h

  invite-keeps :
      (id : ConversationId) (inviter invitee : SteamId) (now : Time) (db : Database)
      → P db
      → P (Repository.invite id inviter invitee now db).0
  unfolding Repository.invite Repository.store_invite Queries.upsert_invite
  invite-keeps id inviter invitee now db h =
      elim (Bool-cases (Repository.is_member id invitee db)) [
        | inl joined ↦ rw joined h
        | inr outside ↦
            elim (Option-cases (Repository.held now (Queries.select_invite_state id invitee db))) [
              | inl free ↦ rw (outside, free) (unchanged db _ h refl refl refl refl)
              | inr (outcome, held) ↦ rw (outside, held) h
            ]
      ]

  invite_each-keeps :
      (id : ConversationId) (name : Bytes) (me : SteamId) (now : Time) (invitees : List SteamId)
      (w : World)
      → P w.db
      → P (Conversations.invite_each id name me now invitees w).db
  unfolding Conversations.invite_each
  invite_each-keeps id name me now [] w h = h
  invite_each-keeps id name me now (i ∷ is) w h =
      let (db', outcome) = Repository.invite id me i now w.db in
      invite_each-keeps id name me now is
        (Conversations.announce_invite outcome i (Conversations.invite_of id name me now)
          (record w { db = db' }))
        (announce_invite-keeps outcome i (Conversations.invite_of id name me now)
          (record w { db = db' }) (invite-keeps id me i now w.db h))

  announce_palette-keeps :
      (me : SteamId) (c : Option Conversation) (w : World)
      → P w.db
      → P (Conversations.announce_palette me c w).db
  unfolding Conversations.announce_palette publish
  announce_palette-keeps me none w h = h
  announce_palette-keeps me (some c) w h = h

  write_palette-keeps :
      (me : SteamId) (name : Bytes) (invitees : List SteamId) (now now_read : Time) (w : World)
      → P w.db
      → P (Conversations.write_palette me name invitees now now_read w).0.db
  unfolding Conversations.write_palette Repository.create_palette Queries.insert_conversation_row
      Queries.insert_palette_row Queries.insert_member_row
  write_palette-keeps me name invitees now now_read w h = announce_palette-keeps me _ _ (
      invite_each-keeps _ name me now invitees
        (record w { db = (Repository.create_palette name me now w.db).1 })
        (unchanged w.db _ h refl refl refl refl))

  pub create_palette_keeps :
      (me : SteamId) (name : Bytes) (invitees : List SteamId) (now now_read : Time) (w : World)
      → P w.db
      → P (Conversations.create_palette me name invitees now now_read w).0.db
  unfolding Conversations.create_palette
  create_palette_keeps me name invitees now now_read w h =
      let clean_name = Conversations.trimmed name in
      let unique = Conversations.unique_invitees me [] invitees in
      let written = write_palette-keeps me clean_name unique now now_read w h in
      elim (Bool-cases (is_empty clean_name || ltb max_palette_name_bytes (length clean_name))) [
        | inl wrong ↦ rw wrong h
        | inr named ↦ elim (Bool-cases (ltb max_invitees_per_create (length unique))) [
          | inl many ↦ rw (named, many) h
          | inr few ↦ elim (Bool-cases (not (Conversations.all_allowed me unique w.db))) [
            | inl refused ↦ rw (named, few, refused) h
            | inr allowed ↦ rw (named, few, allowed) written
          ]
        ]
      ]

  finish_invite-keeps :
      (me invitee : SteamId) (now : Time) (outcome : Repository.InviteOutcome)
      (c : Option Conversation) (w : World)
      → P w.db
      → P (Conversations.finish_invite me invitee now outcome c w).0.db
  unfolding Conversations.finish_invite
  finish_invite-keeps me invitee now outcome none w h = h
  finish_invite-keeps me invitee now outcome (some c) w h =
      announce_invite-keeps outcome invitee _ w h

  pub invite_keeps :
      (me : SteamId) (id : ConversationId) (invitee : SteamId)
      (now_read now now_reread now_told : Time) (w : World)
      → P w.db
      → P (Conversations.invite me id invitee now_read now now_reread now_told w).0.db
  unfolding Conversations.invite
  invite_keeps me id invitee now_read now now_reread now_told w h =
      let (db', outcome) = Repository.invite id me invitee now w.db in
      let stored =
        finish_invite-keeps me invitee now_told outcome (Repository.get id now_reread db')
          (record w { db = db' }) (invite-keeps id me invitee now w.db h) in
      elim (Bool-cases (
        not (Conversations.is_palette (Repository.get id now_read w.db))
        || not (Repository.is_member id me w.db))) [
          | inl outside ↦ rw outside h
          | inr member ↦ elim (Bool-cases (nat_beq me invitee)) [
            | inl same ↦ rw (member, same) h
            | inr apart ↦ elim (Bool-cases (not (can_communicate me invitee w.db))) [
              | inl refused ↦ rw (member, apart, refused) h
              | inr allowed ↦ rw (member, apart, allowed) stored
            ]
          ]
        ]

  announce_join-keeps :
      (me : SteamId) (members : List SteamId) (c : Conversation) (w : World)
      → P w.db
      → P (Conversations.announce_join me members c w).db
  unfolding Conversations.announce_join publish
  announce_join-keeps me [] c w h = h
  announce_join-keeps me (m ∷ ms) c w h =
      announce_join-keeps me ms c _ (if_both (λ (v : World). P v.db) (not (nat_beq m me)) h h)

  finish_accept-keeps :
      (me : SteamId) (id : ConversationId) (c : Option Conversation) (w : World)
      → P w.db
      → P (Conversations.finish_accept me id c w).0.db
  unfolding Conversations.finish_accept publish
  finish_accept-keeps me id none w h = h
  finish_accept-keeps me id (some c) w h =
      announce_join-keeps me c.members c
        (publish (conversation_added me c) (
          publish
            (palette_invite_changed me (Conversations.invite_of id (Repository.name_of c.name) 0 0)
              false)
            w))
        h

  accept_invite-keeps :
      (id : ConversationId) (invitee : SteamId) (now : Time) (db : Database)
      → P db
      → P (Repository.accept_invite id invitee now db).1
  unfolding Repository.accept_invite Queries.delete_pending_invite Queries.insert_member_row
  accept_invite-keeps id invitee now db h =
      let (deleted, db') =
        Queries.delete_pending_invite id invitee (sub_ℕ now palette_invite_ttl_ms) db in
      if_both (λ (r : Bool × Database). P r.1) deleted
        {x = (true, Queries.insert_member_row id invitee now db')} {y = (false, db)}
        (unchanged db _ h refl refl refl refl) h

  pub accept_invite_keeps :
      (me : SteamId) (id : ConversationId) (now now_read : Time) (w : World)
      → P w.db
      → P (Conversations.accept_invite me id now now_read w).0.db
  unfolding Conversations.accept_invite
  accept_invite_keeps me id now now_read w h =
      let (accepted, db') = Repository.accept_invite id me now w.db in
      let joined =
        finish_accept-keeps me id (Repository.get id now_read db') (record w { db = db' })
          (accept_invite-keeps id me now w.db h) in
      elim (Bool-cases (not (Repository.accept_invite id me now w.db).0)) [
        | inl gone ↦ rw gone h
        | inr there ↦ rw there joined
      ]

  decline_invite-keeps :
      (id : ConversationId) (invitee : SteamId) (now : Time) (db : Database)
      → P db
      → P (Repository.decline_invite id invitee now db).1
  unfolding Repository.decline_invite Queries.mark_invite_declined
  decline_invite-keeps id invitee now db h = unchanged db _ h refl refl refl refl

  pub decline_invite_keeps :
      (me : SteamId) (id : ConversationId) (now : Time) (w : World)
      → P w.db
      → P (Conversations.decline_invite me id now w).db
  unfolding Conversations.decline_invite publish
  decline_invite_keeps me id now w h =
      let (declined, db') = Repository.decline_invite id me now w.db in
      let told =
        publish (palette_invite_changed me (Conversations.invite_of id [] 0 0) false)
          (record w { db = db' }) in
      if_both (λ (v : World). P v.db) (not declined) {x = w} {y = told} h
        (decline_invite-keeps id me now w.db h)
