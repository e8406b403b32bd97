-- ===== src/App/Config.antt =====
-- The configuration from the environment (src/app/Config.cpp). The variables of the environment
-- are an argument, and an exception is the text that it carries.
pub mod Redaction
pub mod Port
use picasso_backend.Base.{
  ℕ, zero, suc, ◌+◌, ◌^◌, Bool, true, false, not, ◌&&◌, ◌||◌, List, [], ◌∷◌, ◌++◌, Option, none,
  some, Bytes, codes, length, take, drop, ltb, leb, nat_beq, is_empty, if◌then◌else◌,
}
use picasso_backend.Base.Numerals.{is_space, stoull, to_string}
use picasso_backend.Base.Text.{starts_with, find, find_code, rfind_code}

pub data Result {ℓ} (A : Type ℓ) : Type ℓ where
  ok : A → Result A
  exception : (message : Bytes) → Result A

infixl 5 ◌>>=◌
abbrev pub ◌>>=◌ {ℓ κ} : {A : Type ℓ} {B : Type κ} → Result A → (A → Result B) → Result B
ok a >>= f = f a
exception message >>= f = exception message

-- What `getenv` gives for a name.
abbrev pub Environment : Type 0
Environment = Bytes → Option Bytes

abbrev pub nonempty_or : Bytes → Option Bytes → Bytes
nonempty_or fallback none = fallback
nonempty_or fallback (some []) = fallback
nonempty_or fallback (some (c ∷ cs)) = c ∷ cs

unfoldable pub env_or : Environment → Bytes → Bytes → Bytes
env_or env name fallback = nonempty_or fallback (env name)

-- `none` is an exception of `stoul`, whose text is of the C++ library.
abbrev pub port_of : Bytes → Bytes → Option ℕ → Result ℕ
port_of name value none = exception (codes "stoul")
port_of name value (some parsed) =
    if nat_beq parsed 0 || ltb 65535 parsed
    then exception (name ++ codes " must be in 1..65535, got " ++ value)
    else ok parsed

abbrev pub port_or : Bytes → ℕ → Option Bytes → Result ℕ
port_or name fallback none = ok fallback
port_or name fallback (some []) = ok fallback
port_or name fallback (some (c ∷ cs)) = port_of name (c ∷ cs) (stoull (c ∷ cs))

unfoldable pub env_port_or : Environment → Bytes → ℕ → Result ℕ
env_port_or env name fallback = port_or name fallback (env name)

unfoldable pub mask : Bytes
mask = codes "***"

unfoldable pub password_key : Bytes
password_key = codes "password="

-- A piece of the text that the loop is past: the last character of it, and the text after it.
abbrev pub Past : Type 0
Past = ℕ × Bytes

-- Up to the closing quote; a backslash escapes the next character.
unfoldable pub skip_quoted : ℕ → Bytes → Past
skip_quoted last [] = (last, [])
skip_quoted last (c ∷ []) = if nat_beq c 39 then (last, c ∷ []) else (c, [])
skip_quoted last (c ∷ d ∷ cs) =
    let escaped = skip_quoted d cs in
    let plain = skip_quoted c (d ∷ cs) in
    if nat_beq c 39 then (last, c ∷ d ∷ cs) else if nat_beq c 92 then escaped else plain

unfoldable pub skip_bare : ℕ → Bytes → Past
skip_bare last [] = (last, [])
skip_bare last (c ∷ cs) = if is_space c then (last, c ∷ cs) else skip_bare c cs

abbrev pub skip_close : Past → Past
skip_close (last, []) = (last, [])
skip_close (last, c ∷ cs) = (c, cs)

-- The value after the key, whose last character is `last`.
unfoldable pub skip_value : ℕ → Bytes → Past
unfolding skip_quoted skip_bare
skip_value last [] = (last, [])
skip_value last (c ∷ cs) =
    if nat_beq c 39 then skip_close (skip_quoted c cs) else skip_bare last (c ∷ cs)

-- The loop over the keyword/value form, on fuel; `start` is whether a token starts here.
unfoldable pub redact_keywords : ℕ → Bool → Bytes → Bytes
unfolding password_key mask skip_value
redact_keywords zero start dsn = []
redact_keywords (suc fuel) start [] = []
redact_keywords (suc fuel) start (c ∷ cs) =
    let (last, rest) = skip_value 61 (drop (length password_key) (c ∷ cs)) in
    let masked = password_key ++ mask ++ redact_keywords fuel (is_space last) rest in
    let copied = c ∷ redact_keywords fuel (is_space c) cs in
    if start && starts_with password_key (c ∷ cs) then masked else copied

abbrev pub or_end : ℕ → Option ℕ → ℕ
or_end end none = end
or_end end (some i) = i

-- `at` and `colon` are the positions of the two characters.
abbrev pub mask_between : Bytes → ℕ → Option ℕ → Option ℕ → Bytes
mask_between dsn authority_start (some at) (some colon) =
    if leb authority_start at && ltb colon at
    then take (colon + 1) dsn ++ mask ++ drop at dsn
    else dsn
mask_between dsn authority_start _ _ = dsn

unfoldable pub redact_uri : Bytes → ℕ → Bytes
unfolding mask
redact_uri dsn scheme_end =
    let authority_start = scheme_end + 3 in
    let authority_end = or_end (length dsn) (find_code 47 authority_start dsn) in
    mask_between dsn authority_start (rfind_code 64 authority_end dsn)
      (find_code 58 authority_start dsn)

abbrev pub redact_form : Bytes → Option ℕ → Bytes
redact_form dsn (some scheme_end) = redact_uri dsn scheme_end
redact_form dsn none = redact_keywords (length dsn) true dsn

unfoldable pub redact_dsn : Bytes → Bytes
unfolding redact_uri redact_keywords
redact_dsn dsn = redact_form dsn (find (codes "://") dsn)

pub record Config : Type 0 where
  pub bind_address : Bytes
  pub port : ℕ
  pub database_dsn : Bytes
  pub public_url : Bytes
  pub log_level : Bytes

abbrev pub default_config : Config
default_config = record {
  bind_address = codes "0.0.0.0";
  port = 8000;
  database_dsn = [];
  public_url = codes "http://127.0.0.1:8000";
  log_level = codes "info";
}

unfoldable pub load_config_from_environment : Environment → Result Config
unfolding env_or env_port_or
load_config_from_environment env = do
  let bind = env_or env (codes "PICASSO_BIND") default_config.bind_address
  port ← env_port_or env (codes "PICASSO_PORT") default_config.port
  let dsn = env_or env (codes "PICASSO_DB_DSN") default_config.database_dsn
  let url = env_or env (codes "PICASSO_PUBLIC_URL") default_config.public_url
  let level = env_or env (codes "PICASSO_LOG_LEVEL") default_config.log_level
  ok (record {
    bind_address = bind;
    port = port;
    database_dsn = dsn;
    public_url = url;
    log_level = level;
  })
