-- ===== src/App/System/Keeping.antt =====
-- What it takes for a property of the database to outlive every call of the services
-- (src/service).
use picasso_backend.Base.{◌≡◌, List, Bytes}
use picasso_backend.Domain.Ids.{SteamId, ConversationId, MessageId, ConnectionId, Time}
use picasso_backend.Domain.Contact.{ContactLevel}
use picasso_backend.Storage.Rows.{Database}
use picasso_backend.Service.World.{World}
use picasso_backend.Service.Contacts as Contacts
use picasso_backend.Service.Conversations as Conversations
use picasso_backend.Service.Chat as Chat
use picasso_backend.Service.Chat.{ChatState}

-- The calls of the contact service keep the property.
pub record ContactsKeep (P : Database → Type 0) : Type 0 where
  pub request :
      (me target : SteamId) (now now_counted : Time) (w : World)
      → P w.db
      → P (Contacts.request me target now now_counted w).0.db
  pub accept :
      (me from : SteamId) (now : Time) (w : World) → P w.db → P (Contacts.accept me from now w).0.db
  pub decline :
      (me other : SteamId) (now : Time) (w : World)
      → P w.db
      → P (Contacts.decline_or_withdraw me other now w).db
  pub set_level :
      (me other : SteamId) (level : ContactLevel) (now : Time) (w : World)
      → P w.db
      → P (Contacts.set_level me other level now w).0.db
  pub remove :
      (me other : SteamId) (w : World) → P w.db → P (Contacts.remove_or_unblock me other w).db

-- So do those of the conversation service.
pub record ConversationsKeep (P : Database → Type 0) : Type 0 where
  pub create_dm :
      (me peer : SteamId) (now now_read : Time) (w : World)
      → P w.db
      → P (Conversations.create_dm me peer now now_read w).0.db
  pub create_palette :
      (me : SteamId) (name : Bytes) (invitees : List SteamId) (now now_read : Time) (w : World)
      → P w.db
      → P (Conversations.create_palette me name invitees now now_read w).0.db
  pub invite :
      (me : SteamId) (id : ConversationId) (invitee : SteamId)
      (now_read now now_reread now_told : Time) (w : World)
      → P w.db
      → P (Conversations.invite me id invitee now_read now now_reread now_told w).0.db
  pub accept_invite :
      (me : SteamId) (id : ConversationId) (now now_read : Time) (w : World)
      → P w.db
      → P (Conversations.accept_invite me id now now_read w).0.db
  pub decline_invite :
      (me : SteamId) (id : ConversationId) (now : Time) (w : World)
      → P w.db
      → P (Conversations.decline_invite me id now w).db

-- And those of the chat service.
pub record ChatKeeps (P : Database → Type 0) : Type 0 where
  pub submit :
      (sender : SteamId) (id : ConversationId) (key body : Bytes) (origin : ConnectionId)
      (now now_read : Time) (c : ChatState)
      → P c.world.db
      → P (Chat.submit sender id key body origin now now_read c).0.world.db
  pub remove :
      (me : SteamId) (id : ConversationId) (message : MessageId) (now : Time) (w : World)
      → P w.db
      → P (Chat.remove me id message now w).0.db

-- The property is one of the tables of contacts and of messages.
abbrev pub IsFrame : (Database → Type 0) → Type 0
IsFrame P =
    (a b : Database)
    → a.contacts ≡ b.contacts
    → a.contact_requests ≡ b.contact_requests
    → a.message_data ≡ b.message_data
    → a.next_message_id ≡ b.next_message_id
    → P a
    → P b
