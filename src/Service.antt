-- ===== src/Service.antt =====
-- The services of src/service over the repositories.
pub mod World
pub mod Contacts
pub mod Conversations
pub mod Chat
pub mod CatchUp
pub mod Auth
pub mod CallSignal
