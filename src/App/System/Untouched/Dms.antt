-- ===== src/App/System/Untouched/Dms.antt =====
-- A dm changes neither the contacts nor the messages (src/service/ConversationService.cpp).
use picasso_backend.Base.{
  is_some, ◌≡◌, refl, Bool, true, false, not, Option, none, some, inl, inr, Bool-cases,
  Option-cases, min, max, nat_beq,
}
use picasso_backend.Base.Int.{ltb_ℤ}
use picasso_backend.Base.Table.{find_by}
use picasso_backend.Base.{pair_eq}
use picasso_backend.Domain.Ids.{SteamId, ConversationId, Time}
use picasso_backend.Domain.Conversation.{Conversation, dm}
use picasso_backend.Storage.Rows.{Database}
use picasso_backend.Storage.ContactRepository.{can_communicate}
use picasso_backend.Storage.ConversationQueries as Queries
use picasso_backend.Storage.ConversationRepository as Repository
use picasso_backend.Storage.ConversationRepository.{DmResult}
use picasso_backend.Service.World.{World, publish}
use picasso_backend.Service.Conversations as Conversations
use picasso_backend.App.System.Keeping.{IsFrame}

module _ (P : Database → Type 0) (frame : IsFrame P) where
  -- What changes none of these tables.
  unchanged :
      (a b : Database)
      → P a
      → a.contacts ≡ b.contacts
      → a.contact_requests ≡ b.contact_requests
      → a.message_data ≡ b.message_data
      → a.next_message_id ≡ b.next_message_id
      → P b
  unchanged a b h p q r s = frame a b p q r s h

  abbrev OfRow : Option Database → Type 0
  OfRow none = Unit
  OfRow (some db) = P db

  insert_chat_row-keeps :
      (id : ConversationId) (a b : SteamId) (db : Database)
      → P db
      → OfRow (Queries.insert_chat_row id a b db)
  unfolding Queries.insert_chat_row
  insert_chat_row-keeps id a b db h =
      elim (Bool-cases (not (ltb_ℤ (Queries.as_int64 a) (Queries.as_int64 b)))) [
        | inl refused ↦ rw (refused, OfRow) tt
        | inr ordered ↦ elim (Bool-cases (is_some (find_by Queries.chat_key (a, b) db.chat))) [
          | inl there ↦ rw (ordered, there, OfRow) tt
          | inr free ↦ rw (ordered, free, OfRow) (unchanged db _ h refl refl refl refl)
        ]
      ]

  insert_dm-keeps :
      (a b : SteamId) (now : Time) (db : Database) → P db → P (Repository.insert_dm a b now db).0
  unfolding Repository.insert_dm Queries.insert_conversation_row
  insert_dm-keeps a b now db h =
      let (id, db') = Queries.insert_conversation_row dm now db in
      elim (Option-cases (Queries.insert_chat_row id a b db')) [
        | inl refused ↦ rw (refused, Repository.insert_dm) (unchanged db _ h refl refl refl refl)
        | inr (db'', stored) ↦
            rw (stored, Repository.insert_dm)
              (rw stored at
                (insert_chat_row-keeps id a b db' (unchanged db db' h refl refl refl refl)))
      ]

  create_dm-keeps :
      (a b : SteamId) (now : Time) (db : Database) → P db → P (Repository.create_dm a b now db).0
  unfolding Repository.create_dm
  create_dm-keeps a b now db h = elim (Option-cases (Repository.insert_dm a b now db).1) [
    | inl refused ↦ rw (refused, Repository.create_dm) (insert_dm-keeps a b now db h)
    | inr (r, made) ↦ rw (made, Repository.create_dm) (insert_dm-keeps a b now db h)
  ]

  get_or_create_dm-keeps :
      (a b : SteamId) (now : Time) (db : Database)
      → P db
      → P (Repository.get_or_create_dm a b now db).0
  unfolding Repository.get_or_create_dm
  get_or_create_dm-keeps a b now db h =
      elim (Option-cases (Repository.find_dm (min a b) (max a b) db)) [
        | inl absent ↦
            rw (absent, Repository.get_or_create_dm) (create_dm-keeps (min a b) (max a b) now db h)
        | inr (id, found) ↦ rw (found, Repository.get_or_create_dm) h
      ]

  announce_dm-keeps :
      (created : Bool) (me peer : SteamId) (c : Option Conversation) (w : World)
      → P w.db
      → P (Conversations.announce_dm created me peer c w).db
  unfolding Conversations.announce_dm publish
  announce_dm-keeps true me peer (some c) w h = h
  announce_dm-keeps true me peer none w h = h
  announce_dm-keeps false me peer c w h = h

  finish_dm-keeps :
      (me peer : SteamId) (now_read : Time) (w : World) (r : Database × Option DmResult)
      → P r.0
      → P (Conversations.finish_dm me peer now_read w r).0.db
  unfolding Conversations.finish_dm
  finish_dm-keeps me peer now_read w (db, none) h = h
  finish_dm-keeps me peer now_read w (db, some r) h =
      announce_dm-keeps r.created me peer (Repository.get r.id now_read db) (record w { db = db }) h

  pub create_dm_keeps :
      (me peer : SteamId) (now now_read : Time) (w : World)
      → P w.db
      → P (Conversations.create_dm me peer now now_read w).0.db
  unfolding Conversations.create_dm
  create_dm_keeps me peer now now_read w h =
      let made =
        finish_dm-keeps me peer now_read w (Repository.get_or_create_dm me peer now w.db)
          (get_or_create_dm-keeps me peer now w.db h) in
      elim (Bool-cases (nat_beq me peer)) [
        | inl same ↦ rw same h
        | inr apart ↦ elim (Bool-cases (not (can_communicate me peer w.db))) [
          | inl refused ↦ rw (apart, refused) h
          | inr allowed ↦ rw (apart, allowed) made
        ]
      ]
