-- ===== src/Transport/Serving.antt =====
-- A frame of a client from its dispatch to the frames of other clients: the dispatch of
-- src/transport/ws/WsSession.cpp, with the events that the chat service publishes meanwhile
-- (src/service/ChatService.cpp) as the sink of src/transport/ws/WsEventSink.cpp delivers them.
pub mod Delivery
use picasso_backend.Base.{ℕ, Bool, List, ◌++◌, Bytes, length, drop}
use picasso_backend.Domain.Ids.{Time}
use picasso_backend.Domain.Events.{Event}
use picasso_backend.Service.World.{World}
use picasso_backend.Service.Chat.{ChatState}
use picasso_backend.Transport.EnvelopeCodec.{ObjectMapper}
use picasso_backend.Transport.EventSink.{publish_each}
use picasso_backend.Transport.Hub.{Hub, Sent}
use picasso_backend.Transport.Session.{WsSession}
use picasso_backend.Transport.Session.Dispatch.{dispatch}

-- The events given to the sink between two states.
abbrev pub published_since : World → World → List Event
published_since before after = drop (length before.published) after.published

-- The session, the chat service, and what was sent to the connections of the hub.
unfoldable pub serve_frame :
    ObjectMapper
    → (ℕ → Bool)
    → Hub
    → Bytes
    → Time
    → Time
    → WsSession
    → ChatState
    → WsSession × ChatState × List Sent
unfolding dispatch publish_each
serve_frame mapper alive hub frame now now_read s c =
    let (s', c', relayed) = dispatch mapper alive hub s frame now now_read c in
    (s', c', relayed ++ publish_each mapper alive (published_since c.world c'.world) hub)
