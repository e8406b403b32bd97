-- ===== src/App/Config/Port.antt =====
-- The port of the server (src/app/Config.cpp, `envPortOr` and `loadConfigFromEnvironment`).
use picasso_backend.Base.{
  ℕ, ◌^◌, ◌<◌, ◌≡◌, refl, ap, false, ◌||◌, [], ◌∷◌, Option, none, some, Bytes, codes, ltb, nat_beq,
  is_empty, if◌then◌else◌, inl, inr, Bool-cases,
}
use picasso_backend.Base.Numerals.{stoull, to_string, stoull-to_string, is_empty-to_string}
use picasso_backend.App.Config.{
  Result, ok, exception, ◌>>=◌, Environment, Config, port_of, port_or, env_port_or, env_or,
  default_config, load_config_from_environment,
}

abbrev pub port_loaded : Result Config → Option ℕ
port_loaded (ok config) = some config.port
port_loaded (exception what) = none

port_or-full :
    (name text : Bytes) (fallback : ℕ)
    → is_empty text ≡ false
    → port_or name fallback (some text) ≡ port_of name text (stoull text)
port_or-full name [] fallback h = cc
port_or-full name (c ∷ cs) fallback h = refl

with_port-loaded :
    (n : ℕ) (name value : Bytes) (make : ℕ → Config)
    → ((p : ℕ) → (make p).port ≡ p)
    → port_loaded (port_of name value (some n) >>= λ p. ok (make p))
      ≡ (if nat_beq n 0 || ltb 65535 n then none else some n)
with_port-loaded n name value make keeps = elim (Bool-cases (nat_beq n 0 || ltb 65535 n)) [
  | inl wrong ↦ rw wrong refl
  | inr right ↦ rw right (ap some (keeps n))
]

-- With a 64-bit number for the port in the environment the configuration is loaded exactly if the
-- number is a port, from 1 to 65535, and then the server gets that port.
pub load-port :
    (env : Environment) (n : ℕ)
    → n < 2 ^ 64
    → env (codes "PICASSO_PORT") ≡ some (to_string n)
    → port_loaded (load_config_from_environment env)
      ≡ (if nat_beq n 0 || ltb 65535 n then none else some n)
unfolding load_config_from_environment env_port_or env_or
load-port env n small given =
    rw
      (
        given,
        port_or-full (codes "PICASSO_PORT") (to_string n) default_config.port
            (is_empty-to_string n),
        stoull-to_string n small,
      )
      (with_port-loaded n (codes "PICASSO_PORT") (to_string n)
        (λ port. record {
          bind_address = env_or env (codes "PICASSO_BIND") default_config.bind_address;
          port = port;
          database_dsn = env_or env (codes "PICASSO_DB_DSN") default_config.database_dsn;
          public_url = env_or env (codes "PICASSO_PUBLIC_URL") default_config.public_url;
          log_level = env_or env (codes "PICASSO_LOG_LEVEL") default_config.log_level;
        })
        (λ p. refl))
