-- ===== src/Transport/Http/AuthController.antt =====
-- The endpoints of the login (src/transport/http/AuthController.hpp). The arguments of the service
-- are those of Service.Auth and Steam.OpenId.
pub mod Encoding
pub mod Handoff
use picasso_backend.Base.{
  ℕ, ◌+◌, ◌-◌, ◌*◌, Bool, true, false, ◌&&◌, ◌||◌, List, [], ◌∷◌, Option, none, some, Bytes, codes,
  leb, nat_beq, is_empty, is_some, if◌then◌else◌,
}
use picasso_backend.Base.Numerals.{to_string}
use picasso_backend.Domain.Ids.{Time}
use picasso_backend.Dto.Rest.{AuthTokenDto}
use picasso_backend.Storage.Rows.{Database}
use picasso_backend.Steam.OpenId.{Params, find, assign, build_auth_url, verify}
use picasso_backend.Service.Auth.{
  IssuedToken, Login, not_verified, failed, issued, PendingLogins, complete_login, logout,
  park_login, claim_login,
}
use picasso_backend.Transport.Http.Reply.{
  Reply, response, http_error, exception, no_body, token_body, text_body,
}

-- `isxdigit`, and the value of such a digit.
abbrev pub is_xdigit : ℕ → Bool
is_xdigit c = leb 48 c && leb c 57 || leb 65 c && leb c 70 || leb 97 c && leb c 102

abbrev pub xdigit_value : ℕ → ℕ
xdigit_value c = if leb c 57 then c - 48 else if leb c 70 then c - 55 else c - 87

-- A character is an escape if two hexadecimal digits come after it.
unfoldable pub decode : Bytes → Bytes
decode [] = []
decode (c ∷ []) = c ∷ []
decode (c ∷ a ∷ []) = c ∷ decode (a ∷ [])
decode (c ∷ a ∷ b ∷ rest) =
    let escaped = decode rest in
    let plain = decode (a ∷ b ∷ rest) in
    if nat_beq c 37 && (is_xdigit a && is_xdigit b)
    then (16 * xdigit_value a + xdigit_value b) ∷ escaped
    else c ∷ plain

unfoldable pub decode_param : Option Bytes → Bytes
unfolding decode
decode_param none = []
decode_param (some raw) = decode raw

-- `params.emplace(...)`: the first value of a name is kept.
abbrev pub emplace : Bytes → Bytes → Params → Params
emplace key value params = if is_some (find key params) then params else assign key value params

unfoldable pub collect : List (Option Bytes × Option Bytes) → Params → Params
unfolding find assign decode_param
collect [] params = params
collect ((name, value) ∷ rest) params =
    collect rest (emplace (decode_param name) (decode_param value) params)

unfoldable pub to_token_dto : IssuedToken → AuthTokenDto
to_token_dto t = record {
  token = some t.token;
  steam_id = some (to_string t.steam_id);
  expires_at = some t.expires_at_epoch_ms;
}

-- The database and the logins that wait.
pub record LoginState : Type 0 where
  pub db : Database
  pub pending : PendingLogins

-- The header Location of the redirection is its text.
unfoldable pub auth_begin : Bytes → Option Bytes → Reply
unfolding decode_param
auth_begin public_url state =
    response 302 (text_body (codes "Location") (build_auth_url public_url (decode_param state)))

abbrev pub state_param : Option Bytes → Bytes
state_param none = []
state_param (some state) = state

module _ (sha256 : Bytes → Bytes) (login_complete_page : Bytes) where
  -- A login with a state waits for its poll; one without is answered with the token.
  unfoldable pub hand_over : Login → Bytes → Time → LoginState → LoginState × Reply
  unfolding to_token_dto
  hand_over not_verified state now s = (s, http_error 401 (codes "steam assertion rejected"))
  hand_over failed state now s = (s, exception (codes "PgSessionRepository::store"))
  hand_over (issued t) state now s =
      if is_empty state then (s, response 200 (token_body (to_token_dto t))) else (
        record s { pending = park_login state t now s.pending },
        response 200 (text_body (codes "text/html; charset=utf-8") login_complete_page),
      )

  unfoldable pub auth_return :
      (Bytes → Option (ℕ × Option Bytes))
      → Option Bytes
      → List (Option Bytes × Option Bytes)
      → Time
      → Time
      → LoginState
      → LoginState × Reply
  unfolding collect hand_over
  auth_return post random query now now_parked s =
      let params = collect query [] in
      let (db', login) = complete_login sha256 (verify post params) random now s.db in
      hand_over login (state_param (find (codes "state") params)) now_parked (record s { db = db' })

  unfoldable pub auth_logout : Bytes → Time → LoginState → LoginState × Reply
  auth_logout authorization now s =
      (record s { db = logout sha256 authorization now s.db }, response 204 no_body)

abbrev pub poll_reply : Option IssuedToken → Reply
poll_reply none = response 204 no_body
poll_reply (some t) = response 200 (token_body (to_token_dto t))

unfoldable pub auth_poll : Option Bytes → Time → LoginState → LoginState × Reply
unfolding decode_param to_token_dto
auth_poll state now s =
    let (pending', t) = claim_login (decode_param state) now s.pending in
    (record s { pending = pending' }, poll_reply t)
