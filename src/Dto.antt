-- ===== src/Dto.antt =====
-- The wire vocabulary of src/dto.
pub mod MessageType
pub mod Envelope
pub mod Mappers
pub mod Rest
