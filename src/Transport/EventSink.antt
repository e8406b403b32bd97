-- ===== src/Transport/EventSink.antt =====
-- From the events of the services to frames for the hub (src/transport/ws/WsEventSink.cpp). The
-- exceptions that it swallows come from the object mapper and the allocator and do not occur.
pub mod Recipients
use picasso_backend.Base.{
  ℕ, Bool, true, List, [], ◌∷◌, ◌++◌, Option, none, some, Bytes, codes, if◌then◌else◌,
}
use picasso_backend.Base.Numerals.{to_string}
use picasso_backend.Domain.Ids.{SteamId, ConnectionId}
use picasso_backend.Domain.Contact as Contact
use picasso_backend.Domain.Contact.{ContactLevel}
use picasso_backend.Domain.Events.{
  Event, contact_requested, contact_changed, palette_invite_changed, conversation_added,
  conversation_updated, chat_delivered, message_removed,
}
use picasso_backend.Dto.Envelope.{EnvelopeDto}
use picasso_backend.Dto.Mappers.{wire, conversation_to_dto, message_to_dto}
use picasso_backend.Dto.MessageType as MessageType
use picasso_backend.Transport.EnvelopeCodec.{ObjectMapper, encode, envelope_of}
use picasso_backend.Transport.Hub.{Hub, Sent, send_to, send_to_all, send_to_all_except}

abbrev pub level_name : Option ContactLevel → Option Bytes
level_name none = none
level_name (some level) = some (Contact.to_wire_string level)

-- The envelope of an event.
unfoldable pub envelope_for : Event → EnvelopeDto
unfolding wire conversation_to_dto message_to_dto envelope_of
envelope_for (contact_requested to from created_at) =
    record (envelope_of MessageType.contact_request) {
      contact_request = some (record { steam_id = some (wire from); created_at = some created_at });
    }
envelope_for (contact_changed to other level) = record (envelope_of MessageType.contact_updated) {
  contact_updated = some (record { steam_id = some (wire other); level = level_name level });
}
envelope_for (palette_invite_changed to invite pending) =
    record (envelope_of MessageType.palette_invite) {
      palette_invite = some (record {
        conversation_id = some (to_string invite.conversation_id);
        name = some invite.name;
        inviter_steam_id = some (wire invite.inviter);
        created_at = some invite.created_at_epoch_ms;
        state = some (if pending then codes "pending" else codes "resolved");
      });
    }
envelope_for (conversation_added to conversation) =
    record (envelope_of MessageType.conversation_added) {
      conversation = some (conversation_to_dto conversation true);
    }
envelope_for (conversation_updated to conversation) =
    record (envelope_of MessageType.conversation_updated) {
      conversation = some (conversation_to_dto conversation true);
    }
envelope_for (chat_delivered to message except) =
    record (envelope_of MessageType.chat_message_out) {
      chat_message_out = some (record { message = some (message_to_dto message) });
    }
envelope_for (message_removed to conversation_id message_id) =
    record (envelope_of MessageType.message_deleted) {
      message_deleted = some (record {
        conversation_id = some (to_string conversation_id);
        message_id = some (to_string message_id);
      });
    }

module _ (mapper : ObjectMapper) (alive : ℕ → Bool) where
  -- The call of the transport: to one user, to all of them, or to all but one connection.
  unfoldable pub transmit : Event → Bytes → Hub → List Sent
  transmit (contact_requested to from created_at) frame hub = send_to alive to frame hub
  transmit (contact_changed to other level) frame hub = send_to alive to frame hub
  transmit (palette_invite_changed to invite pending) frame hub = send_to alive to frame hub
  transmit (conversation_added to conversation) frame hub = send_to alive to frame hub
  transmit (conversation_updated to conversation) frame hub = send_to alive to frame hub
  transmit (chat_delivered to message none) frame hub = send_to_all alive to frame hub
  transmit (chat_delivered to message (some except)) frame hub =
      send_to_all_except alive to frame except hub
  transmit (message_removed to conversation_id message_id) frame hub =
      send_to_all alive to frame hub

  unfoldable pub publish : Event → Hub → List Sent
  unfolding transmit envelope_for
  publish event hub = transmit event (encode mapper (envelope_for event)) hub

  -- Events in the order of their publication.
  unfoldable pub publish_each : List Event → Hub → List Sent
  unfolding publish
  publish_each [] hub = []
  publish_each (event ∷ events) hub = publish event hub ++ publish_each events hub
