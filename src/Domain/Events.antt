-- ===== src/Domain/Events.antt =====
-- What the services tell connected clients (src/domain/Events.hpp).
use picasso_backend.Base.{Option, List, Bool}
use picasso_backend.Domain.Ids.{SteamId, ConversationId, MessageId, ConnectionId, Time}
use picasso_backend.Domain.Contact.{ContactLevel, PaletteInvite}
use picasso_backend.Domain.Conversation.{Conversation}
use picasso_backend.Domain.Message.{Message}

-- The fields of each event in the order of its struct, the recipient first.
pub data Event : Type 0 where
  contact_requested : (to from : SteamId) (created_at_epoch_ms : Time) → Event
  contact_changed : (to other : SteamId) (level : Option ContactLevel) → Event
  palette_invite_changed : (to : SteamId) (invite : PaletteInvite) (pending : Bool) → Event
  conversation_added : (to : SteamId) (conversation : Conversation) → Event
  conversation_updated : (to : SteamId) (conversation : Conversation) → Event
  chat_delivered : (to : List SteamId) (message : Message) (except : Option ConnectionId) → Event
  message_removed :
      (to : List SteamId) (conversation_id : ConversationId) (message_id : MessageId) → Event
