-- ===== src/Dto/Mappers.antt =====
-- From the domain to the objects on the wire (src/dto/Mappers.hpp).
use picasso_backend.Base.{Bool, List, [], ◌∷◌, some, Bytes}
use picasso_backend.Base.Numerals.{to_string}
use picasso_backend.Domain.Ids.{SteamId}
use picasso_backend.Domain.Contact.{PaletteInvite, ContactRequest}
use picasso_backend.Domain.Conversation.{Conversation, to_wire_string}
use picasso_backend.Domain.Message.{Message}
use picasso_backend.Dto.Envelope.{ConversationDto, MessageDto, PaletteInviteDto, ContactRequestDto}

unfoldable pub wire : SteamId → Bytes
wire id = to_string id

unfoldable pub wire_each : List SteamId → List Bytes
unfolding wire
wire_each [] = []
wire_each (id ∷ ids) = wire id ∷ wire_each ids

unfoldable pub conversation_to_dto : Conversation → Bool → ConversationDto
unfolding wire_each
conversation_to_dto c writable = record {
  id = some (to_string c.id);
  kind = some (to_wire_string c.kind);
  name = c.name;
  members = wire_each c.members;
  invited = wire_each c.invited;
  writable = some writable;
  created_at = some c.created_at_epoch_ms;
}

unfoldable pub message_to_dto : Message → MessageDto
unfolding wire
message_to_dto m = record {
  id = some (to_string m.id);
  conversation_id = some (to_string m.conversation_id);
  sender_steam_id = some (wire m.sender_steam_id);
  client_message_id = some m.client_message_id;
  body = some m.text_message;
  created_at = some m.created_at_epoch_ms;
}

unfoldable pub invite_to_dto : PaletteInvite → PaletteInviteDto
unfolding wire
invite_to_dto i = record {
  conversation_id = some (to_string i.conversation_id);
  name = some i.name;
  inviter_steam_id = some (wire i.inviter);
  created_at = some i.created_at_epoch_ms;
}

unfoldable pub request_to_dto : ContactRequest → ContactRequestDto
unfolding wire
request_to_dto r = record {
  steam_id = some (wire r.other);
  created_at = some r.created_at_epoch_ms;
}
