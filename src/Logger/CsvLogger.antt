-- ===== src/Logger/CsvLogger.antt =====
-- The logger of oat++ that also writes to the activity log (src/logger/CsvLogger.cpp). The numbers
-- of the priorities are constants of oat++, and so is what the console does.
use picasso_backend.Base.{ℕ, Option, none, some, Bytes, codes, nat_beq, if◌then◌else◌}
use picasso_backend.Logger.ActivityLogger.Calendar.{YearMonthDay}
use picasso_backend.Logger.ActivityLogger.Rotation as ActivityLogger
use picasso_backend.Logger.ActivityLogger.Rotation.{ActivityLogger}

-- `PRIORITY_V` and the others.
pub record Priorities : Type 0 where
  pub verbose : ℕ
  pub debug : ℕ
  pub info : ℕ
  pub warning : ℕ
  pub error : ℕ

unfoldable pub level_name : Priorities → ℕ → Bytes
level_name p priority =
    if nat_beq priority p.verbose
    then codes "VERBOSE"
    else if nat_beq priority p.debug
    then codes "DEBUG"
    else if nat_beq priority p.info
    then codes "INFO"
    else if nat_beq priority p.warning
    then codes "WARN"
    else if nat_beq priority p.error
    then codes "ERROR"
    else codes "UNKNOWN"

-- What a call does to the activity log, if there is one.
unfoldable pub log :
    Priorities
    → YearMonthDay
    → Bytes
    → ℕ
    → Bytes
    → Bytes
    → Option ActivityLogger
    → Option ActivityLogger
unfolding level_name ActivityLogger.log
log p today timestamp priority tag message none = none
log p today timestamp priority tag message (some activity_logger) =
    some (ActivityLogger.log today timestamp (level_name p priority) tag message activity_logger)
