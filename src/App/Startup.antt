-- ===== src/App/Startup.antt =====
-- The start of the program, what it logs and its exit code (src/app/App.cpp,
-- src/app/ServerRunner.cpp, src/storage/Repositories.cpp). What oat++ does is a parameter: which
-- priorities are enabled, whether the address can be bound, how the server ends and how many objects
-- are left. So is what the database answers to the connection and the migration: the version of the
-- schema, or an exception. What oat++ logs of its own is not modelled.
pub mod Secrets
use picasso_backend.Base.{
  ℕ, Bool, true, false, not, List, [], ◌∷◌, ◌++◌, Bytes, codes, nat_beq, is_empty, if◌then◌else◌,
}
use picasso_backend.Base.Numerals.{to_string}
use picasso_backend.App.Config.{
  Result, ok, exception, Environment, Config, redact_dsn, load_config_from_environment,
}
use picasso_backend.Logger.CsvLogger.{Priorities, level_name}

-- The level, the component and the message of a call of `ActivityLogger::log`.
abbrev pub LogLine : Type 0
LogLine = Bytes × Bytes × Bytes

pub record Platform : Type 0 where
  pub priorities : Priorities
  pub enabled : ℕ → Bool
  pub open_database : Bytes → Result ℕ
  pub bind : Bytes → ℕ → Result (Unit {0})
  pub server_run : Result (Unit {0})
  pub objects_left : ℕ

unfoldable pub config_message : Config → Bytes
config_message config =
    let from_level = codes "\n  logLevel :" ++ (config.log_level ++ codes "\n}") in
    let from_url = codes "\n  publicUrl :" ++ (config.public_url ++ from_level) in
    let from_dsn = codes "\n  databaseDsn :" ++ (redact_dsn config.database_dsn ++ from_url) in
    let from_port = codes ":" ++ (to_string config.port ++ from_dsn) in
    codes "Config {\n  " ++ (config.bind_address ++ from_port)

module _ (platform : Platform) where
  -- `OATPP_LOGI` and the others
  abbrev pub logged : ℕ → Bytes → Bytes → List LogLine
  logged priority tag message =
      if platform.enabled priority
      then (level_name platform.priorities priority, tag, message) ∷ []
      else []

  -- A line that is logged through oat++ and to the activity log as well.
  abbrev pub logged_twice : ℕ → Bytes → Bytes → List LogLine
  logged_twice priority level message =
      logged priority (codes "ServerRunner") message ++ (level, codes "ServerRunner", message) ∷ []

  abbrev pub cannot_bind : Config → Bytes → Bytes
  cannot_bind config what =
      let from_port = codes ":" ++ (to_string config.port ++ (codes " - " ++ what)) in
      codes "cannot bind " ++ (config.bind_address ++ from_port)

  abbrev pub listening : Config → Bytes
  listening config =
      codes "listening on " ++ (config.bind_address ++ (codes ":" ++ to_string config.port))

  abbrev pub exit_of_server : Result (Unit {0}) → Result ℕ
  exit_of_server (ok done) = ok 0
  exit_of_server (exception what) = exception what

  abbrev pub serve_bound : Config → Result (Unit {0}) → List LogLine × Result ℕ
  serve_bound config (exception what) =
      (logged_twice platform.priorities.error (codes "ERROR") (cannot_bind config what), ok 1)
  serve_bound config (ok bound) = (
    logged_twice platform.priorities.info (codes "INFO") (listening config),
    exit_of_server platform.server_run,
  )

  unfoldable pub serve : Config → List LogLine × Result ℕ
  serve config = serve_bound config (platform.bind config.bind_address config.port)

  abbrev tag : Bytes
  tag = codes "oatpp-core-app"

  abbrev pub caught : List LogLine × Result ℕ → List LogLine × ℕ
  caught (lines, ok exit_code) = (lines, exit_code)
  caught (lines, exception what) =
      (lines ++ logged platform.priorities.error tag (codes "startup failed: " ++ what), 1)

  abbrev pub before : List LogLine → List LogLine × Result ℕ → List LogLine × Result ℕ
  before lines (more, result) = (lines ++ more, result)

  abbrev database_tag : Bytes
  database_tag = codes "DATABASE_CLIENT"

  -- The constructor of `PicassoDatabaseClient`.
  abbrev pub database_client : Result ℕ → List LogLine × Result (Unit {0})
  database_client (exception what) = ([], exception what)
  database_client (ok version) = (
    logged platform.priorities.debug database_tag
        (codes "Database client initialized, schema version: " ++ to_string version),
    ok tt,
  )

  unfoldable pub make_repositories : Bytes → List LogLine × Result (Unit {0})
  make_repositories dsn =
      if is_empty dsn
      then (
        logged platform.priorities.error database_tag
            (codes "DATABASE FATAL ERR -> dsn is not set"),
        exception (codes "dsn is not set"),
      )
      else database_client (platform.open_database dsn)

  -- Only the repositories log or can fail while the components are built.
  abbrev pub built : Config → List LogLine × Result (Unit {0}) → List LogLine × Result ℕ
  built config (lines, exception what) = (lines, exception what)
  built config (lines, ok components) = before lines (serve config)

  abbrev pub configured : Result Config → List LogLine × Result ℕ
  configured (exception what) = ([], exception what)
  configured (ok config) =
      before (logged platform.priorities.info tag (config_message config))
        (built config (make_repositories config.database_dsn))

  abbrev pub at_shutdown : List LogLine × ℕ → List LogLine × ℕ
  at_shutdown (lines, exit_code) = if nat_beq platform.objects_left 0 then (lines, exit_code) else (
    lines
        ++ logged platform.priorities.warning tag
            (to_string platform.objects_left ++ codes " oatpp objects still alive at shutdown"),
    exit_code,
  )

  unfoldable pub run : Environment → List LogLine × ℕ
  unfolding serve config_message make_repositories
  run env = at_shutdown (caught (configured (load_config_from_environment env)))
