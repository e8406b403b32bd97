-- ===== src/Steam.antt =====
-- The login through Steam (src/steam).
pub mod OpenId
