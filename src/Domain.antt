-- ===== src/Domain.antt =====
-- The domain vocabulary of src/domain: identifiers, levels, messages, conversations and events.
pub mod Ids
pub mod Contact
pub mod Conversation
pub mod Message
pub mod Session
pub mod Events
