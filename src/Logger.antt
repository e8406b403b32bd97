-- ===== src/Logger.antt =====
-- The logs of src/logger.
pub mod ActivityLogger
pub mod CsvLogger
