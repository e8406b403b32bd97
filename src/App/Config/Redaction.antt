-- ===== src/App/Config/Redaction.antt =====
-- What of a data source name is masked before it is logged (src/app/Config.cpp, `redactDsn`).
mod Search
pub mod Keywords
pub mod Uri
pub mod Unmasked
use picasso_backend.Base.{◌≡◌, refl, true, false, Bool, Bytes, codes, ◌++◌}
use picasso_backend.Base.Text.{contains}
use picasso_backend.App.Config.{redact_dsn}
use picasso_backend.App.Config.Redaction.Search.{has_code, is_path}
use picasso_backend.App.Config.Redaction.Keywords.{
  written, fits, ends_token, starts_token, redact_dsn-keywords,
}
use picasso_backend.App.Config.Redaction.Uri.{user_at, redact_dsn-uri}

-- A data source name without its password, in one of the two forms.
pub data DataSource : Type 0 where
  keywords : (quoted : Bool) (before after : Bytes) → DataSource
  uri : (scheme user host path : Bytes) → DataSource

-- The name with a password.
abbrev pub render : DataSource → Bytes → Bytes
render (keywords quoted before after) password =
    before ++ (codes "password=" ++ (written quoted password ++ after))
render (uri scheme user host path) password =
    scheme ++ (codes "://" ++ user_at user password (host ++ path))

abbrev pub masked : DataSource → Bytes
masked (keywords quoted before after) = before ++ (codes "password=***" ++ after)
masked (uri scheme user host path) =
    scheme ++ (codes "://" ++ user_at user (codes "***") (host ++ path))

-- Whether the parts are what they are taken for: in the first form there is one password, which is
-- a token and can be written so, and no `://`; in the second the user has no colon, only the path
-- has slashes, and no at sign is in the host.
abbrev pub Fits : DataSource → Bytes → Type 0
Fits (keywords quoted before after) password =
    (contains (codes "://") (render (keywords quoted before after) password) ≡ false)
    × (contains (codes "password=") before ≡ false)
    × (contains (codes "password=") after ≡ false)
    × (ends_token before ≡ true)
    × (starts_token after ≡ true)
    × (fits quoted password ≡ true)
Fits (uri scheme user host path) password =
    (has_code 58 scheme ≡ false)
    × (has_code 58 user ≡ false)
    × (has_code 47 user ≡ false)
    × (has_code 47 password ≡ false)
    × (has_code 47 host ≡ false)
    × (has_code 64 host ≡ false)
    × (is_path path ≡ true)

-- What is logged of a data source name has three stars in place of the password and all the rest
-- as it was: in the keyword form, where the password is in quotation marks or not, if there is no
-- other password and no `://`, and in the URI form, if the user has no colon, only the path has
-- slashes and the host has no at sign.
pub redact_dsn-render :
    (source : DataSource) (password : Bytes)
    → Fits source password
    → redact_dsn (render source password) ≡ masked source
redact_dsn-render (keywords quoted before after) password (a, b, c, d, e, f) =
    redact_dsn-keywords quoted before password after a b c d e f
redact_dsn-render (uri scheme user host path) password (a, b, c, d, e, f, g) =
    redact_dsn-uri scheme user password host path a b c d e f g
