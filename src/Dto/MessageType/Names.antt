-- ===== src/Dto/MessageType/Names.antt =====
-- Wire names and message types correspond (src/dto/MessageType.cpp).
use picasso_backend.Base.{◌≡◌, refl, bytes_beq}
use picasso_backend.Dto.MessageType.{
  MessageType, unknown, chat_message, chat_ack, chat_nack, chat_message_out, message_deleted,
  call_invite, incoming_call, call_accept, call_decline, peer_joined, call_leave, call_hangup,
  sdp_offer, sdp_answer, ice_candidate, contact_request, contact_updated, palette_invite,
  conversation_added, conversation_updated, find_type, parse_message_type, find_name,
  to_wire_string,
}

-- Every message type is read back from its wire name.
pub parse_message_type-to_wire_string :
    (type : MessageType) → parse_message_type (to_wire_string type) ≡ type
unfolding parse_message_type to_wire_string find_type find_name bytes_beq
parse_message_type-to_wire_string unknown = refl
parse_message_type-to_wire_string chat_message = refl
parse_message_type-to_wire_string chat_ack = refl
parse_message_type-to_wire_string chat_nack = refl
parse_message_type-to_wire_string chat_message_out = refl
parse_message_type-to_wire_string message_deleted = refl
parse_message_type-to_wire_string call_invite = refl
parse_message_type-to_wire_string incoming_call = refl
parse_message_type-to_wire_string call_accept = refl
parse_message_type-to_wire_string call_decline = refl
parse_message_type-to_wire_string peer_joined = refl
parse_message_type-to_wire_string call_leave = refl
parse_message_type-to_wire_string call_hangup = refl
parse_message_type-to_wire_string sdp_offer = refl
parse_message_type-to_wire_string sdp_answer = refl
parse_message_type-to_wire_string ice_candidate = refl
parse_message_type-to_wire_string contact_request = refl
parse_message_type-to_wire_string contact_updated = refl
parse_message_type-to_wire_string palette_invite = refl
parse_message_type-to_wire_string conversation_added = refl
parse_message_type-to_wire_string conversation_updated = refl
