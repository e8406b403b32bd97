-- ===== src/Tests/Serving.antt =====
-- Frames of clients on small inputs (src/transport/ws/WsSession.cpp,
-- src/transport/ws/WsEventSink.cpp).
use picasso_backend.Base.{
  if◌then◌else◌, ℕ, ◌≡◌, refl, arith, Bool, true, false, [], ◌∷◌, Option, none, some, Bytes, codes,
  nat_beq,
}
use picasso_backend.Base.Numerals.{to_string, print, stoull, stoll, skip_spaces}
use picasso_backend.Base.Table.{delete}
use picasso_backend.Dto.Envelope.{EnvelopeDto, ChatMessageInDto, SdpDto, create_shared}
use picasso_backend.Dto.Mappers.{wire}
use picasso_backend.Dto.MessageType.{find_type, parse_message_type, find_name, to_wire_string}
use picasso_backend.Domain.Events.{chat_delivered}
use picasso_backend.Service.CallSignal.{relay_to_peer}
use picasso_backend.Transport.EnvelopeCodec.{ObjectMapper, decode, encode, envelope_of}
use picasso_backend.Transport.EventSink.{publish}
use picasso_backend.Transport.EventSink.Recipients.{publish-recipients}
use picasso_backend.Transport.FrameQueue as FrameQueue
use picasso_backend.Transport.FrameQueue.{FrameQueue, Entry}
use picasso_backend.Transport.Hub.{Hub, Connection, find, resolve, send_to, send_each, send_to_all}
use picasso_backend.Transport.Session.{
  WsSession, create_session, parse_steam_id, parse_conversation_id, send, answer, nack_envelope,
}
use picasso_backend.Transport.Session.Dispatch.{relay_sdp, dispatch_type, dispatch, read_message}
use picasso_backend.Transport.Session.Assembly.{read_all, read_message-assembles}
use picasso_backend.Transport.Session.Sender.{dispatch-forge}
use picasso_backend.Transport.Session.Relays.{dispatch-relays}
use picasso_backend.Transport.Session.Relays as Relays
use picasso_backend.Transport.Session.Writer.{Write, writer_loop, send_one_frame_text, send_pong}
use picasso_backend.Transport.Session.Drain.{writer_loop-drains}
use picasso_backend.Transport.Serving.Delivery.{IsChatFrame, serve_frame-delivers}
use picasso_backend.Tests.Chat as Chat

program : Unit {0}
unfolding Chat.program to_string print stoull stoll skip_spaces wire find_type parse_message_type
    find_name to_wire_string relay_to_peer decode encode envelope_of delete find resolve send_to_all
    send_to send_each FrameQueue.create FrameQueue.enqueue FrameQueue.push FrameQueue.pop
    FrameQueue.pop_front create_session parse_steam_id parse_conversation_id relay_sdp dispatch_type
    dispatch read_message send answer nack_envelope writer_loop
program = tt

abbrev hello_chat : ChatMessageInDto
hello_chat = record {
  conversation_id = some (codes "1");
  client_message_id = some Chat.key;
  body = some Chat.hello;
}

abbrev chat_envelope : EnvelopeDto
chat_envelope = record create_shared {
  type = some (codes "chat_message");
  chat_message = some hello_chat;
}

abbrev offered : Option Bytes → SdpDto
offered from = record {
  conversation_id = some (codes "3");
  to_steam_id = some (codes "8");
  from_steam_id = from;
  sdp = some [];
}

abbrev offer : Option Bytes → EnvelopeDto
offer from = record create_shared { type = some (codes "sdp_offer"); sdp = some (offered from) }

-- A mapper for four texts.
abbrev read_text : Bytes → Option EnvelopeDto
read_text [] = none
read_text (c ∷ cs) =
    if nat_beq c 1
    then some chat_envelope
    else if nat_beq c 2
    then some (offer none)
    else if nat_beq c 3
    then some (offer (some (codes "9")))
    else none

abbrev from_of : Option SdpDto → Option Bytes
from_of none = none
from_of (some d) = d.from_steam_id

abbrev pub mapper : ObjectMapper
mapper = record { read_from_string = read_text; write_to_string = λ e. from_of e.sdp }

abbrev pub all_alive : ℕ → Bool
all_alive a = true

abbrev phone : Connection
phone = record { address = 200; connection_id = 2 }

abbrev pub hub : Hub
hub = (8, phone ∷ []) ∷ []

abbrev pub session : WsSession
session = create_session 7 5

-- The offer reaches user 8 with the sender of the session.
offer_relayed :
    (dispatch mapper all_alive hub session (3 ∷ []) 100 100 Chat.starting).2
    ≡ record { to = phone; frame = codes "7" } ∷ []
unfolding program
offer_relayed = refl

dispatch-forge_example :
    dispatch mapper all_alive hub session (3 ∷ []) 100 100 Chat.starting
    ≡ dispatch mapper all_alive hub session (2 ∷ []) 100 100 Chat.starting
unfolding program
dispatch-forge_example =
    dispatch-forge mapper all_alive hub session (2 ∷ []) (3 ∷ []) (some (codes "9")) (offer none)
      100 100 Chat.starting refl refl

-- There is no conversation with this id.
dispatch-relays_example :
    dispatch mapper all_alive hub session (2 ∷ []) 100 100 Chat.starting
    ≡ (session, Chat.starting, record { to = phone; frame = codes "7" } ∷ [])
unfolding program
dispatch-relays_example =
    dispatch-relays mapper all_alive hub session (Relays.offer (offered none)) (2 ∷ [])
      (codes "sdp_offer") (offer none) 8 3 100 100 Chat.starting refl refl refl refl refl refl

read_message-assembles_example :
    read_all mapper all_alive hub
      ((1 ∷ [], 50, 50) ∷ (2 ∷ [], 60, 60) ∷ [])
      100
      100
      session
      Chat.starting
    ≡ dispatch mapper all_alive hub session (1 ∷ 2 ∷ []) 100 100 Chat.starting
unfolding program
read_message-assembles_example =
    (read_message-assembles mapper all_alive hub ((1 ∷ [], 50, 50) ∷ (2 ∷ [], 60, 60) ∷ []) 100 100
      session Chat.starting).0

is_hello : IsChatFrame mapper (1 ∷ []) hello_chat 1 Chat.key Chat.hello
unfolding program
is_hello = record {
  envelope = chat_envelope;
  type = codes "chat_message";
  decoded = refl;
  typed = refl;
  is_chat = refl;
  payload = refl;
  conversation = refl;
  keyed = refl;
  written = refl;
}

serve_frame-delivers_example : Chat.first_message.text_message ≡ Chat.hello
unfolding program
serve_frame-delivers_example =
    (serve_frame-delivers mapper all_alive hub 100 100 session Chat.starting (1 ∷ []) hello_chat 1
      Chat.key Chat.hello Chat.first_message is_hello refl).1

publish-recipients_example :
    publish mapper all_alive (chat_delivered (8 ∷ []) Chat.first_message (some 2)) hub ≡ []
unfolding program
publish-recipients_example =
    publish-recipients mapper all_alive (chat_delivered (8 ∷ []) Chat.first_message (some 2)) hub

-- The second write throws.
abbrev second_throws : ℕ → Write → Bool
second_throws n w = nat_beq n 1

abbrev two_entries : FrameQueue
two_entries = record (FrameQueue.create 512 4096) {
  entries =
      record { pong = false; data_bytes = 104 ∷ [] } ∷ record { pong = true; data_bytes = [] } ∷ [];
}

writer_loop-drains_example :
    (writer_loop second_throws 0 3 two_entries).writes
    ≡ send_one_frame_text (104 ∷ []) ∷ send_pong [] ∷ []
unfolding program
writer_loop-drains_example = (writer_loop-drains second_throws 0 3 two_entries (omega arith)).0
