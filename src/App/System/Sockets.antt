-- ===== src/App/System/Sockets.antt =====
-- A property that the chat service keeps is kept by every frame
-- (src/transport/ws/WsSession.cpp, `dispatch`).
use picasso_backend.Base.{ℕ, Bool, Option, none, some, Bytes}
use picasso_backend.Domain.Ids.{ConversationId, Time}
use picasso_backend.Dto.Envelope.{EnvelopeDto, ChatMessageInDto}
use picasso_backend.Dto.MessageType.{MessageType, parse_message_type}
use picasso_backend.Storage.Rows.{Database}
use picasso_backend.Service.Chat.{ChatState}
use picasso_backend.App.System.Keeping.{ChatKeeps}
use picasso_backend.Transport.EnvelopeCodec.{ObjectMapper, decode}
use picasso_backend.Transport.Hub.{Hub}
use picasso_backend.Transport.Serving.{serve_frame}
use picasso_backend.Transport.Session.{WsSession}
use picasso_backend.Transport.Session.Dispatch.{
  submit_chat, handle_chat_message, dispatch_type, dispatch_typed, dispatch_decoded, dispatch,
}

module _ (P : Database → Type 0) (chat : ChatKeeps P) (mapper : ObjectMapper) (alive : ℕ → Bool)
    (hub : Hub) (now now_read : Time) (s : WsSession) (c : ChatState) (h : P c.world.db) where
  submit_chat-keeps :
      (m : ChatMessageInDto) (id : Option ConversationId) (key body : Option Bytes)
      → P (submit_chat mapper m id key body now now_read s c).1.world.db
  unfolding submit_chat
  submit_chat-keeps m (some id) (some key) (some body) =
      chat.submit s.steam_id id key body s.connection_id now now_read c h
  submit_chat-keeps m none key body = h
  submit_chat-keeps m (some id) none body = h
  submit_chat-keeps m (some id) (some key) none = h

  handle_chat_message-keeps :
      (m : Option ChatMessageInDto) → P (handle_chat_message mapper m now now_read s c).1.world.db
  unfolding handle_chat_message
  handle_chat_message-keeps none = h
  handle_chat_message-keeps (some m) = submit_chat-keeps m _ _ _

  dispatch_type-keeps :
      (type : MessageType) (e : EnvelopeDto)
      → P (dispatch_type mapper alive hub s type e now now_read c).1.world.db
  unfolding dispatch_type
  dispatch_type-keeps MessageType.chat_message e = handle_chat_message-keeps e.chat_message
  dispatch_type-keeps _ e = h

  dispatch_decoded-keeps :
      (e : Option EnvelopeDto) → P (dispatch_decoded mapper alive hub s e now now_read c).1.world.db
  dispatch_decoded-keeps none = h
  dispatch_decoded-keeps (some e) = typed_keeps e.type
    where
      typed_keeps :
          (type : Option Bytes)
          → P (dispatch_typed mapper alive hub s type e now now_read c).1.world.db
      typed_keeps none = h
      typed_keeps (some type) = dispatch_type-keeps (parse_message_type type) e

  pub serve_frame-keeps :
      (frame : Bytes) → P (serve_frame mapper alive hub frame now now_read s c).1.world.db
  unfolding serve_frame dispatch
  serve_frame-keeps frame = dispatch_decoded-keeps (decode mapper frame)
