-- ===== src/Transport/Session/Relays.antt =====
-- To whom a call signal goes (src/transport/ws/WsSession.cpp, `dispatch`;
-- src/service/CallSignalService.cpp, src/transport/ws/ConnectionHub.cpp).
use picasso_backend.Base.{ℕ, ◌≡◌, refl, Bool, List, [], ◌∷◌, map, Option, some, Bytes}
use picasso_backend.Base.Numerals.{to_string}
use picasso_backend.Domain.Ids.{SteamId, ConversationId, Time}
use picasso_backend.Dto.Envelope.{EnvelopeDto, SdpDto, IceCandidateDto, CallHangupDto}
use picasso_backend.Dto.MessageType.{MessageType, parse_message_type}
use picasso_backend.Service.CallSignal.{relay_to_peer}
use picasso_backend.Service.Chat.{ChatState}
use picasso_backend.Transport.EnvelopeCodec.{ObjectMapper, decode, encode, envelope_of}
use picasso_backend.Transport.Hub.{Hub, Connection, Sent, resolve, send_each, send_to}
use picasso_backend.Transport.Session.{WsSession, parse_steam_id, parse_conversation_id}
use picasso_backend.Transport.Session.Dispatch.{
  relay_sdp, relay_ice, relay_hangup, dispatch_type, dispatch_typed, dispatch,
}

-- What a client sends to another one about a call.
pub data Signal : Type 0 where
  offer answer : SdpDto → Signal
  candidate : IceCandidateDto → Signal
  hangup : CallHangupDto → Signal

abbrev pub type_of : Signal → MessageType
type_of (offer sdp) = MessageType.sdp_offer
type_of (answer sdp) = MessageType.sdp_answer
type_of (candidate ice) = MessageType.ice_candidate
type_of (hangup h) = MessageType.call_hangup

abbrev pub addressee : Signal → Option Bytes
addressee (offer sdp) = sdp.to_steam_id
addressee (answer sdp) = sdp.to_steam_id
addressee (candidate ice) = ice.to_steam_id
addressee (hangup h) = h.to_steam_id

abbrev pub subject : Signal → Option Bytes
subject (offer sdp) = sdp.conversation_id
subject (answer sdp) = sdp.conversation_id
subject (candidate ice) = ice.conversation_id
subject (hangup h) = h.conversation_id

-- The payload of the type is there.
abbrev pub Carries : EnvelopeDto → Signal → Type 0
Carries e (offer sdp) = e.sdp ≡ some sdp
Carries e (answer sdp) = e.sdp ≡ some sdp
Carries e (candidate ice) = e.ice_candidate ≡ some ice
Carries e (hangup h) = e.call_hangup ≡ some h

-- The envelope that is relayed, from the user.
abbrev pub relayed : SteamId → Signal → EnvelopeDto
relayed from (offer sdp) = record (envelope_of MessageType.sdp_offer) {
  sdp = some (record sdp { from_steam_id = some (to_string from) });
}
relayed from (answer sdp) = record (envelope_of MessageType.sdp_answer) {
  sdp = some (record sdp { from_steam_id = some (to_string from) });
}
relayed from (candidate ice) = record (envelope_of MessageType.ice_candidate) {
  ice_candidate = some (record ice { from_steam_id = some (to_string from) });
}
relayed from (hangup h) = record (envelope_of MessageType.call_hangup) {
  call_hangup = some (record h { from_steam_id = some (to_string from) });
}

abbrev pub to_each : Bytes → List Connection → List Sent
to_each frame cs = map (λ c. record { to = c; frame = frame }) cs

send_each-to_each : (frame : Bytes) (cs : List Connection) → send_each cs frame ≡ to_each frame cs
unfolding send_each
send_each-to_each frame [] = refl
send_each-to_each frame (c ∷ cs) = rw (send_each-to_each frame cs) refl

module _ (mapper : ObjectMapper) (alive : ℕ → Bool) (hub : Hub) (s : WsSession) where
  dispatch_type-relays :
      (signal : Signal) (e : EnvelopeDto) (to : SteamId) (id : ConversationId) (now now_read : Time)
      (c : ChatState)
      → Carries e signal
      → parse_steam_id (addressee signal) ≡ some to
      → parse_conversation_id (subject signal) ≡ some id
      → dispatch_type mapper alive hub s (type_of signal) e now now_read c
        ≡ (s, c, send_to alive to (encode mapper (relayed s.steam_id signal)) hub)
  unfolding dispatch_type relay_sdp relay_ice relay_hangup relay_to_peer
  dispatch_type-relays (offer sdp) e to id now now_read c there t i = rw (there, t, i) refl
  dispatch_type-relays (answer sdp) e to id now now_read c there t i = rw (there, t, i) refl
  dispatch_type-relays (candidate ice) e to id now now_read c there t i = rw (there, t, i) refl
  dispatch_type-relays (hangup h) e to id now now_read c there t i = rw (there, t, i) refl

  dispatch_typed-relays :
      (signal : Signal) (type : Bytes) (o : Option Bytes) (e : EnvelopeDto) (to : SteamId)
      (id : ConversationId) (now now_read : Time) (c : ChatState)
      → o ≡ some type
      → parse_message_type type ≡ type_of signal
      → Carries e signal
      → parse_steam_id (addressee signal) ≡ some to
      → parse_conversation_id (subject signal) ≡ some id
      → dispatch_typed mapper alive hub s o e now now_read c
        ≡ (s, c, to_each (encode mapper (relayed s.steam_id signal)) (resolve alive to hub))
  unfolding send_to
  dispatch_typed-relays signal type o e to id now now_read c typed named there t i =
      rw
        (
          typed,
          named,
          dispatch_type-relays signal e to id now now_read c there t i,
          send_each-to_each (encode mapper (relayed s.steam_id signal)) (resolve alive to hub),
        )
        refl

  -- A frame with an offer, an answer, a candidate or a hangup, which names a user and a conversation
  -- by numbers, is relayed to all live connections of that user and to nobody else, with its type
  -- and its payload, in which the user of the session is the sender. The session and the state of
  -- the chat service stay as they are, and whatever that state is, whether the two are members of
  -- the conversation or not, the frame is relayed.
  pub dispatch-relays :
      (signal : Signal) (frame type : Bytes) (e : EnvelopeDto) (to : SteamId) (id : ConversationId)
      (now now_read : Time) (c : ChatState)
      → decode mapper frame ≡ some e
      → e.type ≡ some type
      → parse_message_type type ≡ type_of signal
      → Carries e signal
      → parse_steam_id (addressee signal) ≡ some to
      → parse_conversation_id (subject signal) ≡ some id
      → dispatch mapper alive hub s frame now now_read c
        ≡ (s, c, to_each (encode mapper (relayed s.steam_id signal)) (resolve alive to hub))
  unfolding dispatch
  dispatch-relays signal frame type e to id now now_read c decoded typed named there t i =
      rw
        (
          decoded,
          dispatch_typed-relays signal type e.type e to id now now_read c typed named there t i,
        )
        refl
