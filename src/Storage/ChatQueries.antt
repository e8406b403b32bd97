-- ===== src/Storage/ChatQueries.antt =====
-- The queries on messages (src/storage/PicassoDatabaseClient.hpp). A column of an identity takes
-- its next value even where ON CONFLICT inserts nothing.
use picasso_backend.Base.{
  ℕ, ◌+◌, Bool, ◌&&◌, List, ◌++◌, [], ◌∷◌, Option, none, some, Bytes, ◌==◌, nat_eq, triple_eq,
  is_none, is_some, if◌then◌else◌, ltb, take, some_and,
}
use picasso_backend.Base.Int.{ℤ, pos, ltb_ℤ}
use picasso_backend.Base.Table.{select, update, exists, find_by, order_desc, order_asc}
use picasso_backend.Domain.Ids.{SteamId, ConversationId, MessageId, Time}
use picasso_backend.Storage.Rows.{Database, MessageRow}
use picasso_backend.Storage.ConversationQueries.{select_conversations_of}

-- UNIQUE (conversation_id, sender_steam_id, client_message_id)
abbrev pub message_key : MessageRow → ConversationId × SteamId × Bytes
message_key r = (r.conversation_id, r.sender_steam_id, r.client_message_id)

-- The row of an INSERT, with the next id.
abbrev pub message_row : ConversationId → SteamId → Bytes → Bytes → Time → Database → MessageRow
message_row conversation_id sender client_message_id text sent_at db = record {
  id = db.next_message_id;
  conversation_id = conversation_id;
  sender_steam_id = sender;
  client_message_id = client_message_id;
  text_message = text;
  sent_at = sent_at;
  deleted_at = none;
}

unfoldable pub insert_message :
    ConversationId → SteamId → Bytes → Bytes → Time → Database → Option MessageRow × Database
insert_message conversation_id sender client_message_id text sent_at db =
    let row = message_row conversation_id sender client_message_id text sent_at db in
    let db' = record db { next_message_id = db.next_message_id + 1 } in
    if exists (λ r. message_key r == (conversation_id, sender, client_message_id)) db.message_data
    then (none, db')
    else (some row, record db' { message_data = db.message_data ++ row ∷ [] })

unfoldable pub select_message_by_client_id :
    ConversationId → SteamId → Bytes → Database → Option MessageRow
select_message_by_client_id conversation_id sender client_message_id db =
    find_by message_key (conversation_id, sender, client_message_id) db.message_data

-- The messages of a conversation that are not deleted and whose ids pass the test.
abbrev pub is_shown : ConversationId → (MessageId → Bool) → MessageRow → Bool
is_shown conversation_id in_range r =
    r.conversation_id == conversation_id && in_range r.id && is_none r.deleted_at

unfoldable pub select_newest_messages : ConversationId → MessageId → ℕ → Database → List MessageRow
select_newest_messages conversation_id after_id limit_count db = take limit_count (
    order_desc (λ r. r.id)
      (select (is_shown conversation_id (λ id. ltb after_id id)) db.message_data))

unfoldable pub select_older_messages : ConversationId → MessageId → ℕ → Database → List MessageRow
select_older_messages conversation_id before_id limit_count db = take limit_count (
    order_desc (λ r. r.id)
      (select (is_shown conversation_id (λ id. ltb id before_id)) db.message_data))

abbrev pub of_sender : MessageId → ConversationId → SteamId → MessageRow → Bool
of_sender id conversation_id sender r =
    r.id == id && r.conversation_id == conversation_id && r.sender_steam_id == sender

unfoldable pub mark_message_deleted :
    MessageId → ConversationId → SteamId → Time → Database → Bool × Database
mark_message_deleted id conversation_id sender deleted_at db = (
  exists (λ r. of_sender id conversation_id sender r && is_none r.deleted_at) db.message_data,
  record db {
    message_data =
        update (λ r. of_sender id conversation_id sender r && is_none r.deleted_at)
          (λ r. record r { deleted_at = some deleted_at; text_message = [] }) db.message_data;
  },
)

unfoldable pub select_deleted_message_of_sender :
    MessageId → ConversationId → SteamId → Database → Bool
select_deleted_message_of_sender id conversation_id sender db =
    exists (λ r. of_sender id conversation_id sender r && is_some r.deleted_at) db.message_data

unfoldable pub select_deleted_since : ℤ → SteamId → Database → List MessageRow
select_deleted_since since member db =
    let conversations = select_conversations_of member db in
    order_asc (λ r. r.id)
      (select
        (λ r.
          some_and (λ d. ltb_ℤ since (pos d)) r.deleted_at
          && exists (λ c. c == r.conversation_id) conversations)
        db.message_data)
