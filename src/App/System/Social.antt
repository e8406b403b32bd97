-- ===== src/App/System/Social.antt =====
-- The chat service leaves the contacts alone (src/service/ChatService.cpp).
use picasso_backend.Base.{◌≡◌, refl, List, Option, none, some, Bytes, arith}
use picasso_backend.Domain.Ids.{SteamId, ConversationId, MessageId, ConnectionId, Time}
use picasso_backend.Domain.Conversation.{Conversation}
use picasso_backend.Storage.Rows.{Database}
use picasso_backend.Storage.ChatQueries as Queries
use picasso_backend.Storage.ChatRepository as Repository
use picasso_backend.Storage.ChatRepository.{AppendResult}
use picasso_backend.Storage.ConversationRepository as Conversations
use picasso_backend.Service.World.{World, publish}
use picasso_backend.Service.Chat as Chat
use picasso_backend.Service.Chat.{ChatState}
use picasso_backend.App.System.Keeping.{ChatKeeps}

-- The two tables of contacts are the same.
abbrev pub Same : Database → Database → Type 0
Same a b = (a.contacts ≡ b.contacts) × (a.contact_requests ≡ b.contact_requests)

append-Same :
    (id : ConversationId) (sender : SteamId) (key body : Bytes) (now : Time) (db : Database)
    → Same db (Repository.append id sender key body now db).1
unfolding Repository.append Queries.insert_message
append-Same id sender key body now db = ground arith

announce-Same :
    (members : List SteamId) (origin : ConnectionId) (r : Option AppendResult) (w : World)
    → Same w.db (Chat.announce members origin r w).0.db
unfolding Chat.announce publish
announce-Same members origin none w = (refl, refl)
announce-Same members origin (some r) w = ground arith

deliver-Same :
    (sender : SteamId) (key body : Bytes) (origin : ConnectionId) (now : Time)
    (o : Option Conversation) (w : World)
    → Same w.db (Chat.deliver sender key body origin now o w).0.db
unfolding Chat.deliver Chat.store
deliver-Same sender key body origin now none w = (refl, refl)
deliver-Same sender key body origin now (some c) w =
    let (r, db') = Repository.append c.id sender key body now w.db in
    ground (
      arith,
      append-Same c.id sender key body now w.db,
      announce-Same c.members origin r (record w { db = db' }),
    )

submit-Same :
    (sender : SteamId) (id : ConversationId) (key body : Bytes) (origin : ConnectionId)
    (now now_read : Time) (c : ChatState)
    → Same c.world.db (Chat.submit sender id key body origin now now_read c).0.world.db
unfolding Chat.submit
submit-Same sender id key body origin now now_read c = ground (
  arith,
  deliver-Same sender key body origin now (Conversations.get id now_read c.world.db) c.world,
)

remove-Same :
    (me : SteamId) (id : ConversationId) (message : MessageId) (now : Time) (w : World)
    → Same w.db (Chat.remove me id message now w).0.db
unfolding Chat.remove Repository.soft_delete Queries.mark_message_deleted publish
remove-Same me id message now w = ground arith

module _ (P : Database → Type 0) (frame : (a b : Database) → Same a b → P a → P b) where
  -- The chat service changes no contact.
  pub chat_keeps : ChatKeeps P
  chat_keeps = record {
    submit = λ sender id key body origin now now_read c.
        frame c.world.db _ (submit-Same sender id key body origin now now_read c);
    remove = λ me id message now w. frame w.db _ (remove-Same me id message now w);
  }
