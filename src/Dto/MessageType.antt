-- ===== src/Dto/MessageType.antt =====
-- The message types and their wire names (src/dto/MessageType.hpp, src/dto/MessageType.cpp).
pub mod Names
use picasso_backend.Base.{
  ℕ, Bool, true, false, not, ◌&&◌, List, [], ◌∷◌, Bytes, ◌==◌, nat_eq, bytes_eq, codes,
  if◌then◌else◌,
}

pub data MessageType : Type 0 where
  unknown : MessageType
  chat_message chat_ack chat_nack chat_message_out message_deleted call_invite incoming_call
        call_accept call_decline peer_joined call_leave call_hangup sdp_offer sdp_answer
        ice_candidate contact_request contact_updated palette_invite conversation_added
        conversation_updated :
      MessageType

-- The value of the enumerator.
abbrev pub value : MessageType → ℕ
value unknown = 0
value chat_message = 1
value chat_ack = 2
value chat_nack = 3
value chat_message_out = 4
value message_deleted = 5
value call_invite = 6
value incoming_call = 7
value call_accept = 8
value call_decline = 9
value peer_joined = 10
value call_leave = 11
value call_hangup = 12
value sdp_offer = 13
value sdp_answer = 14
value ice_candidate = 15
value contact_request = 16
value contact_updated = 17
value palette_invite = 18
value conversation_added = 19
value conversation_updated = 20

abbrev pub wire_names : List (MessageType × Bytes)
wire_names =
    (unknown, [])
    ∷ (MessageType.chat_message, codes "chat_message")
    ∷ (MessageType.chat_ack, codes "chat_ack")
    ∷ (MessageType.chat_nack, codes "chat_nack")
    ∷ (MessageType.chat_message_out, codes "chat_message_out")
    ∷ (MessageType.message_deleted, codes "message_deleted")
    ∷ (MessageType.call_invite, codes "call_invite")
    ∷ (MessageType.incoming_call, codes "incoming_call")
    ∷ (MessageType.call_accept, codes "call_accept")
    ∷ (MessageType.call_decline, codes "call_decline")
    ∷ (MessageType.peer_joined, codes "peer_joined")
    ∷ (MessageType.call_leave, codes "call_leave")
    ∷ (MessageType.call_hangup, codes "call_hangup")
    ∷ (MessageType.sdp_offer, codes "sdp_offer")
    ∷ (MessageType.sdp_answer, codes "sdp_answer")
    ∷ (MessageType.ice_candidate, codes "ice_candidate")
    ∷ (MessageType.contact_request, codes "contact_request")
    ∷ (MessageType.contact_updated, codes "contact_updated")
    ∷ (MessageType.palette_invite, codes "palette_invite")
    ∷ (MessageType.conversation_added, codes "conversation_added")
    ∷ (MessageType.conversation_updated, codes "conversation_updated")
    ∷ []

unfoldable pub find_type : Bytes → List (MessageType × Bytes) → MessageType
find_type wire [] = unknown
find_type wire ((type, name) ∷ rest) =
    if not (value type == value unknown) && wire == name then type else find_type wire rest

unfoldable pub parse_message_type : Bytes → MessageType
unfolding find_type
parse_message_type wire = find_type wire wire_names

unfoldable pub find_name : MessageType → List (MessageType × Bytes) → Bytes
find_name type [] = []
find_name type ((candidate, name) ∷ rest) =
    if value candidate == value type then name else find_name type rest

unfoldable pub to_wire_string : MessageType → Bytes
unfolding find_name
to_wire_string type = find_name type wire_names
