-- ===== src/App.antt =====
-- The configuration, the start of the program and the system that it makes (src/app).
pub mod Config
pub mod Startup
pub mod System
