-- ===== src/Transport/Serving/Delivery.antt =====
-- A message that is stored reaches every other connection of the members
-- (src/transport/ws/WsSession.cpp, src/service/ChatService.cpp, src/transport/ws/WsEventSink.cpp,
-- src/transport/ws/ConnectionHub.cpp).
use mathlib.Core.List.{append-nil}
use picasso_backend.Base.{
  ℕ, ◌≡◌, refl, ap, ◌∙◌, Bool, [], ◌∷◌, Option, none, some, Bytes, drop-append, nat_beq,
}
use picasso_backend.Base.Table.{delete}
use picasso_backend.Domain.Ids.{ConversationId, Time}
use picasso_backend.Domain.Conversation.{Conversation}
use picasso_backend.Domain.Message.{Message}
use picasso_backend.Domain.Events.{chat_delivered}
use picasso_backend.Storage.ConversationRepository as Conversations
use picasso_backend.Service.Chat.{ChatState, submit, stored}
use picasso_backend.Service.Chat.Submitting.{submit-stored}
use picasso_backend.Dto.Envelope.{EnvelopeDto, ChatMessageInDto}
use picasso_backend.Dto.MessageType as MessageType
use picasso_backend.Dto.MessageType.{parse_message_type}
use picasso_backend.Transport.EnvelopeCodec.{ObjectMapper, decode, encode}
use picasso_backend.Transport.EventSink.{envelope_for, publish, publish_each, transmit}
use picasso_backend.Transport.Hub.{Hub, send_to_all}
use picasso_backend.Transport.Hub.Delivery.{send_to_all_except_lem}
use picasso_backend.Transport.Serving.{published_since, serve_frame}
use picasso_backend.Transport.Session.{WsSession, answer, send, parse_conversation_id}
use picasso_backend.Transport.Session.Dispatch.{
  submit_chat, handle_chat_message, dispatch_type, dispatch_typed, dispatch,
}

-- A frame that is a chat message with all its fields.
pub record IsChatFrame (mapper : ObjectMapper) (frame : Bytes) (chat : ChatMessageInDto)
    (id : ConversationId) (key body : Bytes) : Type 0 where
  pub envelope : EnvelopeDto
  pub type : Bytes
  pub decoded : decode mapper frame ≡ some envelope
  pub typed : envelope.type ≡ some type
  pub is_chat : parse_message_type type ≡ MessageType.chat_message
  pub payload : envelope.chat_message ≡ some chat
  pub conversation : parse_conversation_id chat.conversation_id ≡ some id
  pub keyed : chat.client_message_id ≡ some key
  pub written : chat.body ≡ some body

module _ (mapper : ObjectMapper) (alive : ℕ → Bool) (hub : Hub) (now now_read : Time)
    (s : WsSession) (c : ChatState) where
  submit_chat_complete :
      (chat : ChatMessageInDto) (id : Option ConversationId) (k b : Option Bytes)
      (i : ConversationId) (key body : Bytes)
      → id ≡ some i
      → k ≡ some key
      → b ≡ some body
      → submit_chat mapper chat id k b now now_read s c ≡ (
          let r = submit s.steam_id i key body s.connection_id now now_read c in
          (send (encode mapper (answer chat r.1)) s, r.0))
  unfolding submit_chat
  submit_chat_complete chat id k b i key body p q r = rw (p, q, r) refl

  dispatch_type-chat :
      (type : MessageType.MessageType) (e : EnvelopeDto) (chat : ChatMessageInDto)
      → type ≡ MessageType.chat_message
      → e.chat_message ≡ some chat
      → dispatch_type mapper alive hub s type e now now_read c ≡ (
          let (s', c') =
            submit_chat mapper chat
              (parse_conversation_id chat.conversation_id)
              chat.client_message_id
              chat.body
              now
              now_read
              s
              c in
          (s', c', []))
  unfolding dispatch_type handle_chat_message
  dispatch_type-chat type e chat p q = rw (p, q) refl

  dispatch_typed-chat :
      (t : Option Bytes) (type : Bytes) (e : EnvelopeDto) (chat : ChatMessageInDto)
      → t ≡ some type
      → parse_message_type type ≡ MessageType.chat_message
      → e.chat_message ≡ some chat
      → dispatch_typed mapper alive hub s t e now now_read c ≡ (
          let (s', c') =
            submit_chat mapper chat
              (parse_conversation_id chat.conversation_id)
              chat.client_message_id
              chat.body
              now
              now_read
              s
              c in
          (s', c', []))
  dispatch_typed-chat t type e chat p q r =
      rw p (dispatch_type-chat (parse_message_type type) e chat q r)

  dispatch-chat :
      (frame : Bytes) (chat : ChatMessageInDto) (id : ConversationId) (key body : Bytes)
      → IsChatFrame mapper frame chat id key body
      → dispatch mapper alive hub s frame now now_read c ≡ (
          let r = submit s.steam_id id key body s.connection_id now now_read c in
          (send (encode mapper (answer chat r.1)) s, r.0, []))
  unfolding dispatch
  dispatch-chat frame chat id key body f = rw (f.decoded) (
      dispatch_typed-chat f.envelope.type f.type f.envelope chat f.typed f.is_chat f.payload
      ∙ ap (λ r. (r.0, r.1, []))
          (submit_chat_complete chat (parse_conversation_id chat.conversation_id)
            chat.client_message_id chat.body id key body f.conversation f.keyed f.written))

  -- A chat message with all its fields that the service answers as stored is stored as sent by the
  -- user of the session, and acknowledged on this connection. Its conversation is the one named in
  -- the frame, and what is sent is the message, to every live connection of every member except
  -- this one, and nothing else.
  pub serve_frame-delivers :
      (frame : Bytes) (chat : ChatMessageInDto) (id : ConversationId) (key body : Bytes)
      (m : Message)
      → IsChatFrame mapper frame chat id key body
      → (submit s.steam_id id key body s.connection_id now now_read c).1 ≡ stored m
      → let (s', c', sent) = serve_frame mapper alive hub frame now now_read s c in
        (m.sender_steam_id ≡ s.steam_id)
        × (m.text_message ≡ body)
        × (s' ≡ send (encode mapper (answer chat (stored m))) s)
        × ((conversation : Conversation) × (Conversations.get id now_read c.world.db
              ≡ some conversation)
            × (sent
                ≡ delete
                    (λ x. nat_beq x.to.connection_id s.connection_id)
                    (send_to_all alive conversation.members
                      (encode mapper (envelope_for (chat_delivered conversation.members m none)))
                      hub)))
  unfolding serve_frame publish_each publish transmit envelope_for
  serve_frame-delivers frame chat id key body m f h =
      let (checks, (conversation, found, may, sent)) =
        submit-stored s.steam_id id key body s.connection_id now now_read c m h in
      let after = (submit s.steam_id id key body s.connection_id now now_read c).0.world in
      let event = chat_delivered conversation.members m (some s.connection_id) in
      let told : published_since c.world after ≡ event ∷ [] =
        rw sent.told (drop-append c.world.published (event ∷ [])) in
      (
        ap (λ x. x.sender_steam_id) sent.row,
        ap (λ x. x.text_message) sent.row,
        rw (dispatch-chat frame chat id key body f, h) refl,
        (
          conversation,
          found,
          rw (dispatch-chat frame chat id key body f, told)
              (append-nil _
                ∙ send_to_all_except_lem alive conversation.members _ s.connection_id hub),
        ),
      )
