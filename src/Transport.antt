-- ===== src/Transport.antt =====
-- The transport of src/transport: the frame queue of a connection, the hub, and the HTTP parsing.
pub mod FrameQueue
pub mod Hub
pub mod Http
pub mod EnvelopeCodec
pub mod EventSink
pub mod Session
pub mod Serving
pub mod Gate
