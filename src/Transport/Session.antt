-- ===== src/Transport/Session.antt =====
-- One connected client (src/transport/ws/WsSession.cpp). `stoull` and `stoll` throw where they give
-- none. The clock readings of the chat service are arguments; what it publishes is in its state.
pub mod Dispatch
pub mod Writer
pub mod Drain
pub mod Sender
pub mod Relays
pub mod Assembly
use picasso_backend.Base.{
  ℕ, ◌-◌, ◌^◌, ◌*◌, Bool, true, false, List, [], ◌∷◌, ◌++◌, Option, none, some, Bytes, codes,
  is_empty, if◌then◌else◌,
}
use picasso_backend.Base.Int.{ℤ, pos, negsuc}
use picasso_backend.Base.Numerals.{stoull, stoll, to_string}
use picasso_backend.Domain.Ids.{SteamId, ConversationId, ConnectionId, Time}
use picasso_backend.Dto.Envelope.{
  EnvelopeDto, ChatMessageInDto, SdpDto, IceCandidateDto, CallHangupDto,
}
use picasso_backend.Dto.Mappers.{message_to_dto}
use picasso_backend.Dto.MessageType.{MessageType, parse_message_type}
use picasso_backend.Service.Chat as Chat
use picasso_backend.Service.Chat.{ChatState, SubmitResult, RejectCode}
use picasso_backend.Service.CallSignal.{relay_to_peer}
use picasso_backend.Transport.EnvelopeCodec.{ObjectMapper, encode, decode, envelope_of}
use picasso_backend.Transport.FrameQueue.{FrameQueue, create, push, push_pong, close}
use picasso_backend.Transport.Hub.{Hub, Sent, send_to}

unfoldable pub parse_steam_id : Option Bytes → Option SteamId
parse_steam_id none = none
parse_steam_id (some text) = stoull text

-- The bit pattern of a 64-bit number. That of a negative one is above the id of every row.
abbrev pub bits : ℤ → ℕ
bits (pos n) = n
bits (negsuc n) = 2 ^ 64 - 1 - n

abbrev pub bits_of : Option ℤ → Option ConversationId
bits_of none = none
bits_of (some n) = some (bits n)

unfoldable pub parse_conversation_id : Option Bytes → Option ConversationId
parse_conversation_id none = none
parse_conversation_id (some text) = bits_of (stoll text)

-- Without the thread and the socket of the writer. `inbound` is the frame read so far.
pub record WsSession : Type 0 where
  pub steam_id : SteamId
  pub connection_id : ConnectionId
  pub queue : FrameQueue
  pub inbound : Bytes

abbrev pub max_queued_frames : ℕ
max_queued_frames = 512

abbrev pub max_queued_bytes : ℕ
max_queued_bytes = 4 * 1024 * 1024

unfoldable pub create_session : SteamId → ConnectionId → WsSession
unfolding create
create_session steam_id connection_id = record {
  steam_id = steam_id;
  connection_id = connection_id;
  queue = create max_queued_frames max_queued_bytes;
  inbound = [];
}

-- The writer is joined after the queue has been closed.
unfoldable pub shutdown : WsSession → WsSession
unfolding close
shutdown s = record s { queue = close s.queue }

unfoldable pub send : Bytes → WsSession → WsSession
unfolding push
send frame s = record s { queue = (push frame s.queue).0 }

abbrev pub text_of : Option Bytes → Bytes
text_of none = []
text_of (some text) = text

unfoldable pub on_ping : Option Bytes → WsSession → WsSession
unfolding push_pong
on_ping message s = record s { queue = (push_pong (text_of message) s.queue).0 }

unfoldable pub on_close : WsSession → WsSession
unfolding close
on_close s = record s { queue = close s.queue }

unfoldable pub reject_name : RejectCode → Bytes
reject_name Chat.invalid = codes "invalid"
reject_name Chat.too_long = codes "too_long"
reject_name Chat.not_member = codes "not_member"
reject_name Chat.not_allowed = codes "not_allowed"
reject_name Chat.rate_limited = codes "rate_limited"
reject_name Chat.internal = codes "internal"

unfoldable pub nack_envelope : Option Bytes → Option Bytes → Bytes → EnvelopeDto
nack_envelope conversation_id client_message_id code = record (envelope_of MessageType.chat_nack) {
  chat_nack = some (record {
    conversation_id = conversation_id;
    client_message_id = client_message_id;
    code = some code;
  });
}

-- The acknowledgement, or the refusal with its code.
unfoldable pub answer : ChatMessageInDto → SubmitResult → EnvelopeDto
unfolding nack_envelope reject_name
answer chat (Chat.rejected code) =
    nack_envelope chat.conversation_id chat.client_message_id (reject_name code)
answer chat (Chat.stored message) = record (envelope_of MessageType.chat_ack) {
  chat_ack = some (record {
    conversation_id = chat.conversation_id;
    client_message_id = chat.client_message_id;
    message = some (message_to_dto message);
    duplicate = some false;
  });
}
answer chat (Chat.duplicate message) = record (envelope_of MessageType.chat_ack) {
  chat_ack = some (record {
    conversation_id = chat.conversation_id;
    client_message_id = chat.client_message_id;
    message = some (message_to_dto message);
    duplicate = some true;
  });
}
