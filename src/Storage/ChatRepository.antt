-- ===== src/Storage/ChatRepository.antt =====
-- The chat repository (src/storage/PgChatRepository.cpp).
use picasso_backend.Base.{
  ℕ, Bool, true, false, List, map, reverse, Option, none, some, Bytes, if◌then◌else◌,
}
use picasso_backend.Base.Int.{ℤ}
use picasso_backend.Domain.Ids.{SteamId, ConversationId, MessageId, Time}
use picasso_backend.Domain.Message.{Message}
use picasso_backend.Storage.Rows.{Database, MessageRow}
use picasso_backend.Storage.ChatQueries as Queries

abbrev pub to_message : MessageRow → Message
to_message row = record {
  id = row.id;
  conversation_id = row.conversation_id;
  sender_steam_id = row.sender_steam_id;
  client_message_id = row.client_message_id;
  text_message = row.text_message;
  created_at_epoch_ms = row.sent_at;
}

unfoldable pub ascending : List MessageRow → List Message
ascending rows = reverse (map to_message rows)

pub record AppendResult : Type 0 where
  pub message : Message
  pub duplicate : Bool

-- What the first attempt stored; no result is the exception.
unfoldable pub existing : Option MessageRow → Option AppendResult
existing none = none
existing (some row) = some (record { message = to_message row; duplicate = true })

unfoldable pub append :
    ConversationId → SteamId → Bytes → Bytes → Time → Database → Option AppendResult × Database
unfolding existing
append conversation_id sender client_message_id body now db =
    let (inserted, db') =
      Queries.insert_message conversation_id sender client_message_id body now db in
    elim inserted [
      | some row ↦ (some (record { message = to_message row; duplicate = false }), db')
      | none ↦ (
        existing (Queries.select_message_by_client_id conversation_id sender client_message_id db'),
        db',
      )
    ]

unfoldable pub newest : ConversationId → MessageId → ℕ → Database → List Message
unfolding ascending
newest conversation_id after count db =
    ascending (Queries.select_newest_messages conversation_id after count db)

unfoldable pub older_than : ConversationId → MessageId → ℕ → Database → List Message
unfolding ascending
older_than conversation_id before count db =
    ascending (Queries.select_older_messages conversation_id before count db)

pub data DeleteOutcome : Type 0 where
  deleted already_deleted not_found : DeleteOutcome

unfoldable pub soft_delete :
    ConversationId → MessageId → SteamId → Time → Database → DeleteOutcome × Database
soft_delete conversation_id message_id sender now db =
    let (deleted_now, db') =
      Queries.mark_message_deleted message_id conversation_id sender now db in
    if deleted_now
    then (deleted, db')
    else if Queries.select_deleted_message_of_sender message_id conversation_id sender db'
    then (already_deleted, db')
    else (not_found, db')

pub record DeletedMessage : Type 0 where
  pub conversation_id : ConversationId
  pub message_id : MessageId

unfoldable pub deleted_since : SteamId → ℤ → Database → List DeletedMessage
deleted_since member since db =
    map (λ r. record { conversation_id = r.conversation_id; message_id = r.id })
      (Queries.select_deleted_since since member db)
