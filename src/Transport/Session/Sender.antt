-- ===== src/Transport/Session/Sender.antt =====
-- Nobody can speak for somebody else on a connection (src/transport/ws/WsSession.cpp, `dispatch`).
use picasso_backend.Base.{ℕ, ◌≡◌, refl, Bool, Option, none, some, Bytes, arith}
use picasso_backend.Domain.Ids.{Time}
use picasso_backend.Dto.Envelope.{EnvelopeDto, SdpDto, IceCandidateDto, CallHangupDto}
use picasso_backend.Dto.MessageType.{MessageType, parse_message_type}
use picasso_backend.Service.Chat.{ChatState}
use picasso_backend.Transport.EnvelopeCodec.{ObjectMapper, decode}
use picasso_backend.Transport.Hub.{Hub}
use picasso_backend.Transport.Session.{WsSession}
use picasso_backend.Transport.Session.Dispatch.{
  relay_sdp, relay_ice, relay_hangup, relay_sdp_of, relay_ice_of, relay_hangup_of, dispatch_type,
  dispatch_typed, dispatch,
}

abbrev forge_sdp : Option Bytes → Option SdpDto → Option SdpDto
forge_sdp from none = none
forge_sdp from (some d) = some (record d { from_steam_id = from })

abbrev forge_ice : Option Bytes → Option IceCandidateDto → Option IceCandidateDto
forge_ice from none = none
forge_ice from (some d) = some (record d { from_steam_id = from })

abbrev forge_hangup : Option Bytes → Option CallHangupDto → Option CallHangupDto
forge_hangup from none = none
forge_hangup from (some d) = some (record d { from_steam_id = from })

-- The frame with another sender in it.
abbrev pub forge : Option Bytes → EnvelopeDto → EnvelopeDto
forge from e = record e {
  sdp = forge_sdp from e.sdp;
  ice_candidate = forge_ice from e.ice_candidate;
  call_hangup = forge_hangup from e.call_hangup;
}

module _ (mapper : ObjectMapper) (alive : ℕ → Bool) (hub : Hub) (s : WsSession) where
  relay_sdp-forge :
      (type : MessageType) (from : Option Bytes) (d : Option SdpDto)
      → relay_sdp_of mapper alive hub s type (forge_sdp from d)
        ≡ relay_sdp_of mapper alive hub s type d
  unfolding relay_sdp
  relay_sdp-forge type from none = refl
  relay_sdp-forge type from (some d) = ground arith

  relay_ice-forge :
      (type : MessageType) (from : Option Bytes) (d : Option IceCandidateDto)
      → relay_ice_of mapper alive hub s type (forge_ice from d)
        ≡ relay_ice_of mapper alive hub s type d
  unfolding relay_ice
  relay_ice-forge type from none = refl
  relay_ice-forge type from (some d) = ground arith

  relay_hangup-forge :
      (type : MessageType) (from : Option Bytes) (d : Option CallHangupDto)
      → relay_hangup_of mapper alive hub s type (forge_hangup from d)
        ≡ relay_hangup_of mapper alive hub s type d
  unfolding relay_hangup
  relay_hangup-forge type from none = refl
  relay_hangup-forge type from (some d) = ground arith

  dispatch_type-forge :
      (type : MessageType) (from : Option Bytes) (e : EnvelopeDto) (now now_read : Time)
      (c : ChatState)
      → dispatch_type mapper alive hub s type (forge from e) now now_read c
        ≡ dispatch_type mapper alive hub s type e now now_read c
  unfolding dispatch_type
  dispatch_type-forge MessageType.sdp_offer from e now now_read c =
      rw (relay_sdp-forge MessageType.sdp_offer from e.sdp) refl
  dispatch_type-forge MessageType.sdp_answer from e now now_read c =
      rw (relay_sdp-forge MessageType.sdp_answer from e.sdp) refl
  dispatch_type-forge MessageType.ice_candidate from e now now_read c =
      rw (relay_ice-forge MessageType.ice_candidate from e.ice_candidate) refl
  dispatch_type-forge MessageType.call_hangup from e now now_read c =
      rw (relay_hangup-forge MessageType.call_hangup from e.call_hangup) refl
  dispatch_type-forge MessageType.chat_message from e now now_read c = refl
  dispatch_type-forge _ from e now now_read c = refl

  dispatch_typed-forge :
      (type : Option Bytes) (from : Option Bytes) (e : EnvelopeDto) (now now_read : Time)
      (c : ChatState)
      → dispatch_typed mapper alive hub s type (forge from e) now now_read c
        ≡ dispatch_typed mapper alive hub s type e now now_read c
  dispatch_typed-forge none from e now now_read c = refl
  dispatch_typed-forge (some type) from e now now_read c =
      dispatch_type-forge (parse_message_type type) from e now now_read c

  -- A frame that names another sender has exactly the effect of the frame without the forgery, on
  -- the session, on the chat service and on what is relayed to others.
  pub dispatch-forge :
      (frame forged : Bytes) (from : Option Bytes) (e : EnvelopeDto) (now now_read : Time)
      (c : ChatState)
      → decode mapper frame ≡ some e
      → decode mapper forged ≡ some (forge from e)
      → dispatch mapper alive hub s forged now now_read c
        ≡ dispatch mapper alive hub s frame now now_read c
  unfolding dispatch
  dispatch-forge frame forged from e now now_read c honest lie =
      rw (honest, lie) (dispatch_typed-forge e.type from e now now_read c)
