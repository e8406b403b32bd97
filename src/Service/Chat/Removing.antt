-- ===== src/Service/Chat/Removing.antt =====
-- The deletion of a message (src/service/ChatService.cpp, `remove`).
use picasso_backend.Base.{
  ℕ, suc, ◌<◌, ◌≡◌, refl, Bool, true, false, ◌&&◌, ◌||◌, List, [], ◌∷◌, ◌++◌, map, some, nat_beq,
  nat_eq, is_none, is_some, arith, if◌then◌else◌, Bool-cases, inl, inr,
}
use picasso_backend.Base.Table.{update-absent, select, delete, update, exists}
use picasso_backend.Base.Ordered.{IsAscending}
use picasso_backend.Domain.Ids.{SteamId, ConversationId, MessageId, Time}
use picasso_backend.Domain.Events.{message_removed}
use picasso_backend.Storage.Rows.{MessageRow}
use picasso_backend.Storage.ChatQueries.{
  of_sender, is_shown, mark_message_deleted, select_deleted_message_of_sender,
}
use picasso_backend.Storage.ChatRepository.{to_message, soft_delete}
use picasso_backend.Storage.MessageLog.{IsLog, shown, id_of}
use picasso_backend.Storage.ConversationQueries.{select_members}
use picasso_backend.Storage.ConversationRepository as Conversations
use picasso_backend.Service.World.{World, publish}
use picasso_backend.Service.Chat.{removed, remove_not_found, remove}

module _ (id : MessageId) (c : ConversationId) (me : SteamId) (now : Time) where
  marked : List MessageRow → List MessageRow
  unfolding update
  marked rows =
      update (λ r. of_sender id c me r && is_none r.deleted_at)
        (λ r. record r { deleted_at = some now; text_message = [] }) rows

  -- Rows after the message are not concerned.
  exists-later :
      (least : ℕ) (rows : List MessageRow)
      → id < least
      → IsAscending id_of least rows
      → exists (of_sender id c me) rows ≡ false
  unfolding exists
  exists-later least [] h a = refl
  exists-later least (r ∷ rs) h a =
      ground (arith, h, a.0, exists-later (suc r.id) rs (omega (arith, h, a.0)) a.1)

  marked-later :
      (least : ℕ) (rows : List MessageRow)
      → id < least
      → IsAscending id_of least rows
      → marked rows ≡ rows
  unfolding marked update
  marked-later least [] h a = refl
  marked-later least (r ∷ rs) h a =
      ground (arith, h, a.0, marked-later (suc r.id) rs (omega (arith, h, a.0)) a.1)

  module _ (d : ConversationId) (p : MessageId → Bool) where
    delete-later :
        (least : ℕ) (rows : List MessageRow)
        → id < least
        → IsAscending id_of least rows
        → delete (λ m. nat_beq m.id id) (map to_message (select (is_shown d p) rows))
          ≡ map to_message (select (is_shown d p) rows)
    unfolding select delete
    delete-later least [] h a = refl
    delete-later least (r ∷ rs) h a =
        ground (arith, h, a.0, delete-later (suc r.id) rs (omega (arith, h, a.0)) a.1)

    shown-marked :
        (least : ℕ) (rows : List MessageRow)
        → IsAscending id_of least rows
        → exists (of_sender id c me) rows ≡ true
        → map to_message (select (is_shown d p) (marked rows))
          ≡ delete (λ m. nat_beq m.id id) (map to_message (select (is_shown d p) rows))
    unfolding select delete exists marked update
    shown-marked least [] a h = cc
    shown-marked least (r ∷ rs) a h = elim (Bool-cases (nat_beq r.id id)) [
      | inl same ↦
          let after : id < suc r.id = ground (arith, same) in
          ground (
            arith,
            h,
            same,
            exists-later (suc r.id) rs after a.1,
            marked-later (suc r.id) rs after a.1,
            delete-later (suc r.id) rs after a.1,
          )
      | inr other ↦ ground (arith, h, other, shown-marked (suc r.id) rs a.1)
    ]

module _ (q : MessageRow → Bool) where
  exists-split :
      (rows : List MessageRow)
      → exists q rows ≡ (
          exists (λ r. q r && is_none r.deleted_at) rows
          || exists (λ r. q r && is_some r.deleted_at) rows)
  unfolding exists
  exists-split [] = refl
  exists-split (r ∷ rs) = ground (arith, exists-split rs)

module _ (me : SteamId) (c : ConversationId) (id : MessageId) (now : Time) (w : World) where
  abbrev mine : Bool
  mine = exists (of_sender id c me) w.db.message_data

  -- Whether the message is the user's and not deleted yet.
  abbrev open_message : Bool
  open_message = exists (λ r. of_sender id c me r && is_none r.deleted_at) w.db.message_data

  remove_rows :
      (remove me c id now w).0.db
      ≡ record w.db { message_data = marked id c me now w.db.message_data }
  unfolding remove soft_delete mark_message_deleted marked publish
  remove_rows = ground arith

  rows_unmarked : open_message ≡ false → marked id c me now w.db.message_data ≡ w.db.message_data
  unfolding marked
  rows_unmarked h =
      update-absent (λ r. of_sender id c me r && is_none r.deleted_at)
        (λ r. record r { deleted_at = some now; text_message = [] }) w.db.message_data h

  -- The answer and the events of a removal: `removed` exactly if the message is in the conversation
  -- and of the user, whether deleted before or now. One event tells the members, and only when it
  -- is deleted now.
  remove_answer :
      let r = remove me c id now w in
      (r.1 ≡ (if mine then removed else remove_not_found))
      × (r.0.published ≡ (
          if open_message
          then w.published ++ message_removed (Conversations.members c w.db) c id ∷ []
          else w.published))
  unfolding remove soft_delete mark_message_deleted select_deleted_message_of_sender publish marked
      Conversations.members select_members
  remove_answer = elim (Bool-cases open_message) [
    | inl open_now ↦ ground (arith, open_now, exists-split (of_sender id c me) w.db.message_data)
    | inr closed ↦
        ground
          (arith, closed, rows_unmarked closed, exists-split (of_sender id c me) w.db.message_data)
  ]

  -- On a message log, a removal takes the message from what any reader is shown, in every
  -- conversation and range, and nothing else. Where the message is not the user's, no message is
  -- changed.
  pub remove_lem :
      IsLog w.db
      → let w' = (remove me c id now w).0 in
        (mine ≡ true
          → (d : ConversationId) (p : MessageId → Bool)
          → shown d p w'.db ≡ delete (λ m. nat_beq m.id id) (shown d p w.db))
        × (mine ≡ false → w'.db.message_data ≡ w.db.message_data)
  remove_lem l = rw remove_rows (
    λ h d p. shown-marked id c me now d p 0 w.db.message_data l.in_order h,
    λ h. rows_unmarked (ground (arith, h, exists-split (of_sender id c me) w.db.message_data)),
  )
