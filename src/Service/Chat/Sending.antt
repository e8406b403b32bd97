-- ===== src/Service/Chat/Sending.antt =====
-- What becomes of a message that is sent, and sent again (src/service/ChatService.cpp).
use picasso_backend.Base.{
  ◌+◌, ◌≡◌, true, false, [], ◌∷◌, ◌++◌, Option, none, some, Bytes, arith, triple_eq,
}
use picasso_backend.Base.Table.{find_by, exists-key}
use picasso_backend.Domain.Ids.{SteamId, ConversationId, ConnectionId, Time}
use picasso_backend.Domain.Conversation.{Conversation}
use picasso_backend.Domain.Events.{chat_delivered}
use picasso_backend.Storage.Rows.{Database, MessageRow}
use picasso_backend.Storage.ChatQueries.{
  message_key, message_row, insert_message, select_message_by_client_id,
}
use picasso_backend.Storage.ChatRepository.{to_message, append, existing}
use picasso_backend.Service.World.{World, publish}
use picasso_backend.Service.Chat.{stored, duplicate, announce, store}

-- The row that an earlier attempt stored.
abbrev pub earlier : ConversationId → SteamId → Bytes → Database → Option MessageRow
earlier c sender key db = find_by message_key (c, sender, key) db.message_data

module _ (c : ConversationId) (sender : SteamId) (key text : Bytes) (now : Time)
    (db : Database) where
  pub append-fresh :
      earlier c sender key db ≡ none
      → append c sender key text now db ≡ (
        some (record {
          message = to_message (message_row c sender key text now db);
          duplicate = false;
        }),
        record db {
          next_message_id = db.next_message_id + 1;
          message_data = db.message_data ++ message_row c sender key text now db ∷ [];
        },
      )
  unfolding append insert_message
  append-fresh h = ground (arith, exists-key message_key (c, sender, key) db.message_data, h)

  pub append-repeated :
      (r : MessageRow)
      → earlier c sender key db ≡ some r
      → append c sender key text now db ≡ (
        some (record { message = to_message r; duplicate = true }),
        record db { next_message_id = db.next_message_id + 1 },
      )
  unfolding append insert_message select_message_by_client_id existing
  append-repeated r h = ground (arith, exists-key message_key (c, sender, key) db.message_data, h)

module _ (sender : SteamId) (key body : Bytes) (origin : ConnectionId) (now : Time)
    (c : Conversation) (w : World) where
  pub store-fresh :
      earlier c.id sender key w.db ≡ none
      → let m = to_message (message_row c.id sender key body now w.db) in
        store sender key body origin now c w ≡ (
          publish
              (chat_delivered c.members m (some origin))
              (record w { db = (append c.id sender key body now w.db).1 }),
          stored m,
        )
  unfolding store announce
  store-fresh h = ground (arith, append-fresh c.id sender key body now w.db h)

  pub store-repeated :
      (r : MessageRow)
      → earlier c.id sender key w.db ≡ some r
      → store sender key body origin now c w ≡ (
        record w { db = record w.db { next_message_id = w.db.next_message_id + 1 } },
        duplicate (to_message r),
      )
  unfolding store announce
  store-repeated r h = ground (arith, append-repeated c.id sender key body now w.db r h)
