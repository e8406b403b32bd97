-- ===== src/Transport/Session/Dispatch.antt =====
-- What a session does with a frame (src/transport/ws/WsSession.cpp, `handleChatMessage`, `dispatch`
-- and `readMessage`).
use picasso_backend.Base.{
  ℕ, Bool, List, [], ◌++◌, Option, none, some, Bytes, codes, is_empty, if◌then◌else◌,
}
use picasso_backend.Base.Numerals.{to_string}
use picasso_backend.Domain.Ids.{SteamId, ConversationId, Time}
use picasso_backend.Dto.Envelope.{
  EnvelopeDto, ChatMessageInDto, SdpDto, IceCandidateDto, CallHangupDto,
}
use picasso_backend.Dto.MessageType.{MessageType, parse_message_type}
use picasso_backend.Service.Chat as Chat
use picasso_backend.Service.Chat.{ChatState, SubmitResult, RejectCode}
use picasso_backend.Service.CallSignal.{relay_to_peer}
use picasso_backend.Transport.EnvelopeCodec.{ObjectMapper, encode, decode, envelope_of}
use picasso_backend.Transport.Hub.{Hub, Sent, send_to}
use picasso_backend.Transport.Session.{
  parse_steam_id, parse_conversation_id, WsSession, send, nack_envelope, answer,
}

module _ (mapper : ObjectMapper) where
  unfoldable pub send_nack : Option Bytes → Option Bytes → Bytes → WsSession → WsSession
  unfolding nack_envelope send
  send_nack conversation_id client_message_id code s =
      send (encode mapper (nack_envelope conversation_id client_message_id code)) s

  -- Past the check of the fields.
  unfoldable pub submit_chat :
      ChatMessageInDto
      → Option ConversationId
      → Option Bytes
      → Option Bytes
      → Time
      → Time
      → WsSession
      → ChatState
      → WsSession × ChatState
  unfolding send_nack answer send
  submit_chat chat (some conversation_id) (some client_message_id) (some body) now now_read s c =
      let (c', result) =
        Chat.submit s.steam_id conversation_id client_message_id body s.connection_id now now_read
          c in
      (send (encode mapper (answer chat result)) s, c')
  submit_chat chat _ _ _ now now_read s c =
      (send_nack chat.conversation_id chat.client_message_id (codes "invalid") s, c)

  unfoldable pub handle_chat_message :
      Option ChatMessageInDto → Time → Time → WsSession → ChatState → WsSession × ChatState
  unfolding submit_chat send_nack
  handle_chat_message none now now_read s c = (send_nack none none (codes "invalid") s, c)
  handle_chat_message (some chat) now now_read s c =
      submit_chat chat (parse_conversation_id chat.conversation_id) chat.client_message_id chat.body
        now now_read s c

  module _ (alive : ℕ → Bool) (hub : Hub) (s : WsSession) where
    abbrev pub relay : ConversationId → SteamId → EnvelopeDto → List Sent
    relay conversation_id to envelope =
        relay_to_peer (λ id frame. send_to alive id frame hub) s.steam_id conversation_id to
          (encode mapper envelope)

    -- The sender is stamped over whatever the frame says.
    abbrev pub stamp : Option Bytes
    stamp = some (to_string s.steam_id)

    unfoldable pub relay_sdp :
        MessageType → SdpDto → Option SteamId → Option ConversationId → List Sent
    unfolding relay_to_peer
    relay_sdp type sdp (some to) (some conversation_id) =
        relay conversation_id to
          (record (envelope_of type) { sdp = some (record sdp { from_steam_id = stamp }) })
    relay_sdp type sdp _ _ = []

    unfoldable pub relay_ice :
        MessageType → IceCandidateDto → Option SteamId → Option ConversationId → List Sent
    unfolding relay_to_peer
    relay_ice type candidate (some to) (some conversation_id) =
        relay conversation_id to (record (envelope_of type) {
          ice_candidate = some (record candidate { from_steam_id = stamp });
        })
    relay_ice type candidate _ _ = []

    unfoldable pub relay_hangup :
        MessageType → CallHangupDto → Option SteamId → Option ConversationId → List Sent
    unfolding relay_to_peer
    relay_hangup type hangup (some to) (some conversation_id) =
        relay conversation_id to (record (envelope_of type) {
          call_hangup = some (record hangup { from_steam_id = stamp });
        })
    relay_hangup type hangup _ _ = []

    abbrev pub relay_sdp_of : MessageType → Option SdpDto → List Sent
    relay_sdp_of type none = []
    relay_sdp_of type (some sdp) =
        relay_sdp type sdp (parse_steam_id sdp.to_steam_id)
          (parse_conversation_id sdp.conversation_id)

    abbrev pub relay_ice_of : MessageType → Option IceCandidateDto → List Sent
    relay_ice_of type none = []
    relay_ice_of type (some candidate) =
        relay_ice type candidate (parse_steam_id candidate.to_steam_id)
          (parse_conversation_id candidate.conversation_id)

    abbrev pub relay_hangup_of : MessageType → Option CallHangupDto → List Sent
    relay_hangup_of type none = []
    relay_hangup_of type (some hangup) =
        relay_hangup type hangup (parse_steam_id hangup.to_steam_id)
          (parse_conversation_id hangup.conversation_id)

    -- The switch on the type, for a frame that has one: the session, the chat service and what is
    -- relayed. A call invite is only logged.
    unfoldable pub dispatch_type :
        MessageType → EnvelopeDto → Time → Time → ChatState → WsSession × ChatState × List Sent
    unfolding handle_chat_message relay_sdp relay_ice relay_hangup
    dispatch_type MessageType.chat_message e now now_read c =
        let (s', c') = handle_chat_message e.chat_message now now_read s c in (s', c', [])
    dispatch_type MessageType.sdp_offer e now now_read c =
        (s, c, relay_sdp_of MessageType.sdp_offer e.sdp)
    dispatch_type MessageType.sdp_answer e now now_read c =
        (s, c, relay_sdp_of MessageType.sdp_answer e.sdp)
    dispatch_type MessageType.ice_candidate e now now_read c =
        (s, c, relay_ice_of MessageType.ice_candidate e.ice_candidate)
    dispatch_type MessageType.call_hangup e now now_read c =
        (s, c, relay_hangup_of MessageType.call_hangup e.call_hangup)
    dispatch_type _ e now now_read c = (s, c, [])

    abbrev pub dispatch_typed :
        Option Bytes → EnvelopeDto → Time → Time → ChatState → WsSession × ChatState × List Sent
    dispatch_typed none e now now_read c = (s, c, [])
    dispatch_typed (some type) e now now_read c =
        dispatch_type (parse_message_type type) e now now_read c

    abbrev pub dispatch_decoded :
        Option EnvelopeDto → Time → Time → ChatState → WsSession × ChatState × List Sent
    dispatch_decoded none now now_read c = (s, c, [])
    dispatch_decoded (some e) now now_read c = dispatch_typed e.type e now now_read c

    unfoldable pub dispatch : Bytes → Time → Time → ChatState → WsSession × ChatState × List Sent
    unfolding dispatch_type
    dispatch frame now now_read c = dispatch_decoded (decode mapper frame) now now_read c

  -- A fragment of a message, or its end, `none`, which has the size 0.
  unfoldable pub read_message :
      (ℕ → Bool)
      → Hub
      → Option Bytes
      → Time
      → Time
      → WsSession
      → ChatState
      → WsSession × ChatState × List Sent
  unfolding dispatch
  read_message alive hub none now now_read s c =
      let emptied : WsSession = record s { inbound = [] } in
      if is_empty s.inbound
      then (emptied, c, [])
      else dispatch alive hub emptied s.inbound now now_read c
  read_message alive hub (some fragment) now now_read s c =
      (record s { inbound = s.inbound ++ fragment }, c, [])
