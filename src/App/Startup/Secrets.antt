-- ===== src/App/Startup/Secrets.antt =====
-- The password of the database does not reach the log of the start (src/app/App.cpp, `run`).
use picasso_backend.Base.{
  ℕ, ◌≡◌, refl, sym, ◌∙◌, false, List, [], ◌∷◌, some, Bytes, codes, bytes_eq, bytes_beq, ◌==◌,
  is_empty, if◌then◌else◌,
}
use picasso_backend.App.Config.{
  Result, ok, exception, ◌>>=◌, Environment, Config, nonempty_or, env_or, env_port_or, redact_dsn,
  load_config_from_environment, default_config,
}
use picasso_backend.App.Config.Redaction.{
  DataSource, keywords, uri, render, Fits, redact_dsn-render,
}
use picasso_backend.App.Startup.{
  LogLine, Platform, config_message, serve, configured, built, make_repositories, run,
}

-- An environment with a data source name.
abbrev pub with_dsn : Bytes → Environment → Environment
with_dsn dsn env name = if name == codes "PICASSO_DB_DSN" then some dsn else env name

abbrev pub with_database : Bytes → Config → Config
with_database dsn config = record config { database_dsn = dsn }

abbrev with_database_result : Bytes → Result Config → Result Config
with_database_result dsn (ok config) = ok (with_database dsn config)
with_database_result dsn (exception what) = exception what

nonempty_or-some :
    (fallback text : Bytes) → is_empty text ≡ false → nonempty_or fallback (some text) ≡ text
nonempty_or-some fallback [] h = cc
nonempty_or-some fallback (c ∷ cs) h = refl

with_port :
    (dsn : Bytes) (port : Result ℕ) (make : ℕ → Config)
    → (port >>= λ p. ok (with_database dsn (make p)))
      ≡ with_database_result dsn (port >>= λ p. ok (make p))
with_port dsn (ok p) make = refl
with_port dsn (exception what) make = refl

-- Only the data source name of the configuration depends on its variable.
load-with_dsn :
    (dsn : Bytes) (env : Environment)
    → is_empty dsn ≡ false
    → load_config_from_environment (with_dsn dsn env)
      ≡ with_database_result dsn (load_config_from_environment env)
unfolding load_config_from_environment env_or env_port_or bytes_beq
load-with_dsn dsn env h = rw (nonempty_or-some default_config.database_dsn dsn h) (
    with_port dsn (env_port_or env (codes "PICASSO_PORT") default_config.port) λ port. record {
      bind_address = env_or env (codes "PICASSO_BIND") default_config.bind_address;
      port = port;
      database_dsn = env_or env (codes "PICASSO_DB_DSN") default_config.database_dsn;
      public_url = env_or env (codes "PICASSO_PUBLIC_URL") default_config.public_url;
      log_level = env_or env (codes "PICASSO_LOG_LEVEL") default_config.log_level;
    })

module _ (platform : Platform) (dsn dsn' : Bytes) where
  built-with_database :
      (config : Config) (components : List LogLine × Result (Unit {0}))
      → built platform (with_database dsn config) components
        ≡ built platform (with_database dsn' config) components
  unfolding serve
  built-with_database config (lines, ok components) = refl
  built-with_database config (lines, exception what) = refl

  make_repositories-same :
      is_empty dsn ≡ false
      → is_empty dsn' ≡ false
      → platform.open_database dsn ≡ platform.open_database dsn'
      → make_repositories platform dsn ≡ make_repositories platform dsn'
  unfolding make_repositories
  make_repositories-same full full' same = rw (full, full', same) refl

  configured-with_database :
      (config : Result Config)
      → redact_dsn dsn ≡ redact_dsn dsn'
      → make_repositories platform dsn ≡ make_repositories platform dsn'
      → configured platform (with_database_result dsn config)
        ≡ configured platform (with_database_result dsn' config)
  unfolding config_message
  configured-with_database (exception what) hidden same = refl
  configured-with_database (ok config) hidden same =
      rw (hidden, same) (rw (built-with_database config (make_repositories platform dsn')) refl)

render-nonempty :
    (source : DataSource) (password : Bytes) → is_empty (render source password) ≡ false
render-nonempty (keywords quoted [] after) password = refl
render-nonempty (keywords quoted (c ∷ cs) after) password = refl
render-nonempty (uri [] user host path) password = refl
render-nonempty (uri (c ∷ cs) user host path) password = refl

-- What the program logs while it starts and the code with which it exits do not depend on the
-- password of the database: they are the same for every two passwords that can stand in the data
-- source name, if the database answers the same to the one as to the other.
pub run-secret :
    (platform : Platform) (env : Environment) (source : DataSource) (password password' : Bytes)
    → Fits source password
    → Fits source password'
    → platform.open_database (render source password)
      ≡ platform.open_database (render source password')
    → run platform (with_dsn (render source password) env)
      ≡ run platform (with_dsn (render source password') env)
unfolding run
run-secret platform env source password password' fit fit' same =
    let dsn = render source password in
    let dsn' = render source password' in
    let hidden : redact_dsn dsn ≡ redact_dsn dsn' =
      redact_dsn-render source password fit ∙ sym (redact_dsn-render source password' fit') in
    rw
      (
        load-with_dsn dsn env (render-nonempty source password),
        load-with_dsn dsn' env (render-nonempty source password'),
        configured-with_database platform dsn dsn' (load_config_from_environment env) hidden (
            make_repositories-same platform dsn dsn' (render-nonempty source password)
              (render-nonempty source password') same),
      )
      refl
