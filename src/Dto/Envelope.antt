-- ===== src/Dto/Envelope.antt =====
-- The frames of the web socket as objects (src/dto/Envelope.hpp). A field of oat++ may be null, so
-- each is an `Option`.
use picasso_backend.Base.{Bool, List, Option, none, Bytes}
use picasso_backend.Domain.Ids.{Time}

pub record ChatMessageInDto : Type 0 where
  pub conversation_id : Option Bytes
  pub client_message_id : Option Bytes
  pub body : Option Bytes

pub record MessageDto : Type 0 where
  pub id : Option Bytes
  pub conversation_id : Option Bytes
  pub sender_steam_id : Option Bytes
  pub client_message_id : Option Bytes
  pub body : Option Bytes
  pub created_at : Option Time

pub record ChatMessageOutDto : Type 0 where
  pub message : Option MessageDto

pub record ChatAckDto : Type 0 where
  pub conversation_id : Option Bytes
  pub client_message_id : Option Bytes
  pub message : Option MessageDto
  pub duplicate : Option Bool

pub record ChatNackDto : Type 0 where
  pub conversation_id : Option Bytes
  pub client_message_id : Option Bytes
  pub code : Option Bytes

pub record MessageDeletedDto : Type 0 where
  pub conversation_id : Option Bytes
  pub message_id : Option Bytes

pub record CallInviteDto : Type 0 where
  pub conversation_id : Option Bytes

pub record CallSignalDto : Type 0 where
  pub conversation_id : Option Bytes
  pub steam_id : Option Bytes

pub record SdpDto : Type 0 where
  pub conversation_id : Option Bytes
  pub to_steam_id : Option Bytes
  pub from_steam_id : Option Bytes
  pub sdp : Option Bytes

pub record IceCandidateDto : Type 0 where
  pub conversation_id : Option Bytes
  pub to_steam_id : Option Bytes
  pub from_steam_id : Option Bytes
  pub candidate : Option Bytes

pub record CallHangupDto : Type 0 where
  pub conversation_id : Option Bytes
  pub to_steam_id : Option Bytes
  pub from_steam_id : Option Bytes

pub record ConversationDto : Type 0 where
  pub id : Option Bytes
  pub kind : Option Bytes
  pub name : Option Bytes
  pub members : List Bytes
  pub invited : List Bytes
  pub writable : Option Bool
  pub created_at : Option Time

pub record ContactRequestDto : Type 0 where
  pub steam_id : Option Bytes
  pub created_at : Option Time

pub record PaletteInviteDto : Type 0 where
  pub conversation_id : Option Bytes
  pub name : Option Bytes
  pub inviter_steam_id : Option Bytes
  pub created_at : Option Time

pub record ContactUpdatedDto : Type 0 where
  pub steam_id : Option Bytes
  pub level : Option Bytes

pub record PaletteInviteEventDto : Type 0 where
  pub conversation_id : Option Bytes
  pub name : Option Bytes
  pub inviter_steam_id : Option Bytes
  pub created_at : Option Time
  pub state : Option Bytes

pub record EnvelopeDto : Type 0 where
  pub type : Option Bytes
  pub chat_message : Option ChatMessageInDto
  pub chat_message_out : Option ChatMessageOutDto
  pub chat_ack : Option ChatAckDto
  pub chat_nack : Option ChatNackDto
  pub message_deleted : Option MessageDeletedDto
  pub call_invite : Option CallInviteDto
  pub call_signal : Option CallSignalDto
  pub sdp : Option SdpDto
  pub ice_candidate : Option IceCandidateDto
  pub call_hangup : Option CallHangupDto
  pub contact_request : Option ContactRequestDto
  pub contact_updated : Option ContactUpdatedDto
  pub palette_invite : Option PaletteInviteEventDto
  pub conversation : Option ConversationDto

-- `EnvelopeDto::createShared()`
abbrev pub create_shared : EnvelopeDto
create_shared = record {
  type = none;
  chat_message = none;
  chat_message_out = none;
  chat_ack = none;
  chat_nack = none;
  message_deleted = none;
  call_invite = none;
  call_signal = none;
  sdp = none;
  ice_candidate = none;
  call_hangup = none;
  contact_request = none;
  contact_updated = none;
  palette_invite = none;
  conversation = none;
}
