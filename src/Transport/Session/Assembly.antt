-- ===== src/Transport/Session/Assembly.antt =====
-- Frames that arrive in fragments (src/transport/ws/WsSession.cpp, `readMessage`).
use mathlib.Core.List.{append_assoc, append-nil}
use picasso_backend.Base.{
  ℕ, ◌≡◌, refl, Bool, List, [], ◌∷◌, ◌++◌, Option, none, some, Bytes, is_empty, if◌then◌else◌, inl,
  inr, if_both, Option-cases,
}
use picasso_backend.Domain.Ids.{Time, ConversationId}
use picasso_backend.Dto.Envelope.{EnvelopeDto, ChatMessageInDto}
use picasso_backend.Dto.MessageType.{MessageType, parse_message_type}
use picasso_backend.Service.Chat.{ChatState}
use picasso_backend.Transport.EnvelopeCodec.{ObjectMapper, decode}
use picasso_backend.Transport.Hub.{Hub, Sent}
use picasso_backend.Transport.Session.{WsSession, send, parse_conversation_id}
use picasso_backend.Transport.Session.Dispatch.{
  dispatch, read_message, dispatch_type, dispatch_typed, dispatch_decoded, handle_chat_message,
  submit_chat, send_nack,
}

-- The buffer, the user and the connection are those of before.
abbrev pub SameIdentity : WsSession → WsSession → Type 0
SameIdentity s t =
    (t.inbound ≡ s.inbound) × (t.steam_id ≡ s.steam_id) × (t.connection_id ≡ s.connection_id)

abbrev pub emptied : WsSession → WsSession
emptied s = record s { inbound = [] }

module _ (mapper : ObjectMapper) (alive : ℕ → Bool) (hub : Hub) where
  -- The fragments of a message and its end, each at its time.
  abbrev pub read_all :
      List (Bytes × Time × Time)
      → Time
      → Time
      → WsSession
      → ChatState
      → WsSession × ChatState × List Sent
  read_all [] now now_read s c = read_message mapper alive hub none now now_read s c
  read_all ((f, t, t_read) ∷ fs) now now_read s c =
      let (s', c', sent) = read_message mapper alive hub (some f) t t_read s c in
      let (s'', c'', more) = read_all fs now now_read s' c' in (s'', c'', sent ++ more)

  abbrev pub text_of_all : List (Bytes × Time × Time) → Bytes
  text_of_all [] = []
  text_of_all ((f, t, t_read) ∷ fs) = f ++ text_of_all fs

  read_all-from :
      (fs : List (Bytes × Time × Time)) (now now_read : Time) (s : WsSession) (c : ChatState)
      → read_all fs now now_read s c
        ≡ read_message mapper alive hub none now now_read
            (record s { inbound = s.inbound ++ text_of_all fs })
            c
  unfolding read_message
  read_all-from [] now now_read s c = rw (append-nil s.inbound) refl
  read_all-from ((f, t, t_read) ∷ fs) now now_read s c =
      rw
        (
          read_all-from fs now now_read (record s { inbound = s.inbound ++ f }) c,
          append_assoc s.inbound f (text_of_all fs),
        )
        refl

  submit_chat-keeps :
      (chat : ChatMessageInDto) (id : Option ConversationId) (key body : Option Bytes)
      (now now_read : Time) (s : WsSession) (c : ChatState)
      → SameIdentity s (submit_chat mapper chat id key body now now_read s c).0
  unfolding submit_chat send_nack send
  submit_chat-keeps chat none key body now now_read s c = (refl, refl, refl)
  submit_chat-keeps chat (some id) none body now now_read s c = (refl, refl, refl)
  submit_chat-keeps chat (some id) (some key) none now now_read s c = (refl, refl, refl)
  submit_chat-keeps chat (some id) (some key) (some body) now now_read s c = (refl, refl, refl)

  dispatch_type-keeps :
      (type : MessageType) (e : EnvelopeDto) (now now_read : Time) (s : WsSession) (c : ChatState)
      → SameIdentity s (dispatch_type mapper alive hub s type e now now_read c).0
  unfolding dispatch_type handle_chat_message send_nack send
  dispatch_type-keeps MessageType.chat_message e now now_read s c =
      elim (Option-cases e.chat_message) [
        | inl absent ↦ rw absent (refl, refl, refl)
        | inr (chat, there) ↦ rw there (
            submit_chat-keeps chat (parse_conversation_id chat.conversation_id)
              chat.client_message_id chat.body now now_read s c)
      ]
  dispatch_type-keeps _ e now now_read s c = (refl, refl, refl)

  dispatch_typed-keeps :
      (type : Option Bytes) (e : EnvelopeDto) (now now_read : Time) (s : WsSession) (c : ChatState)
      → SameIdentity s (dispatch_typed mapper alive hub s type e now now_read c).0
  dispatch_typed-keeps none e now now_read s c = (refl, refl, refl)
  dispatch_typed-keeps (some type) e now now_read s c =
      dispatch_type-keeps (parse_message_type type) e now now_read s c

  dispatch_decoded-keeps :
      (e : Option EnvelopeDto) (now now_read : Time) (s : WsSession) (c : ChatState)
      → SameIdentity s (dispatch_decoded mapper alive hub s e now now_read c).0
  dispatch_decoded-keeps none now now_read s c = (refl, refl, refl)
  dispatch_decoded-keeps (some e) now now_read s c = dispatch_typed-keeps e.type e now now_read s c

  -- A message that comes in any fragments, on a session whose buffer is empty, has the effect of
  -- one dispatch of the whole text, at the time of its end; an empty message has none. Afterwards
  -- the buffer is empty again, for the next message, and the session has the same user and the
  -- same connection id.
  pub read_message-assembles :
      (fs : List (Bytes × Time × Time)) (now now_read : Time) (s : WsSession) (c : ChatState)
      → (read_all fs now now_read (emptied s) c ≡ (
          if is_empty (text_of_all fs)
          then (emptied s, c, [])
          else dispatch mapper alive hub (emptied s) (text_of_all fs) now now_read c))
        × SameIdentity (emptied s) (read_all fs now now_read (emptied s) c).0
  unfolding read_message dispatch
  read_message-assembles fs now now_read s c = (
    read_all-from fs now now_read (emptied s) c,
    rw (read_all-from fs now now_read (emptied s) c) (
        if_both (λ (r : WsSession × ChatState × List Sent). SameIdentity (emptied s) r.0)
          (is_empty (text_of_all fs)) {x = (emptied s, c, [])}
          {y = dispatch mapper alive hub (emptied s) (text_of_all fs) now now_read c}
          (refl, refl, refl)
          (dispatch_decoded-keeps (decode mapper (text_of_all fs)) now now_read (emptied s) c)),
  )
