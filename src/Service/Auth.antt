-- ===== src/Service/Auth.antt =====
-- The login service (src/service/AuthService.cpp). The clock readings are arguments, and so are
-- the SHA-256 of OpenSSL, the random bytes of a token (none where RAND_bytes fails) and the answer
-- of the OpenID verifier. A hash map is an association list.
pub mod Hex
pub mod TokenState
pub mod Sessions
pub mod Issuing
pub mod PendingMap
pub mod Pending
use picasso_backend.Base.{
  ℕ, zero, suc, ◌+◌, ◌*◌, ◌/◌, ◌%◌, Bool, true, false, not, ◌&&◌, ◌||◌, List, [], ◌∷◌, ◌++◌, Option,
  none, some, Bytes, bytes_eq, nat_eq, ◌==◌, codes, length, drop, is_empty, if◌then◌else◌,
}
use picasso_backend.Base.Text.{nth_code, starts_with}
use picasso_backend.Base.Int.{pos, sub_ℕ, ltb_ℤ}
use picasso_backend.Base.Table.{delete, find_by, upsert}
use picasso_backend.Domain.Ids.{SteamId, Time}
use picasso_backend.Domain.Session.{Session, is_usable_at}
use picasso_backend.Storage.Rows.{Database}
use picasso_backend.Storage.SessionRepository

abbrev pub session_ttl_ms : ℕ
session_ttl_ms = 24 * 30 * 60 * 60 * 1000

abbrev pub pending_login_ttl_ms : ℕ
pending_login_ttl_ms = 5 * 60 * 1000

abbrev pub hex_digit : ℕ → ℕ
hex_digit n = nth_code n (codes "0123456789abcdef")

unfoldable pub to_hex : Bytes → Bytes
to_hex [] = []
to_hex (b ∷ bs) = hex_digit (b / 16) ∷ hex_digit (b % 16) ∷ to_hex bs

abbrev pub bearer : Bytes
bearer = codes "Bearer "

unfoldable pub strip_bearer_prefix : Bytes → Bytes
strip_bearer_prefix token = if starts_with bearer token then drop (length bearer) token else token

pub record IssuedToken : Type 0 where
  pub token : Bytes
  pub steam_id : SteamId
  pub expires_at_epoch_ms : Time

-- The owner of a session that can be used.
unfoldable pub user_of : Time → Option Session → Option SteamId
unfolding is_usable_at
user_of now none = none
user_of now (some s) = if is_usable_at s now then some s.steam_id else none

-- What `completeLogin` returns or throws.
pub data Login : Type 0 where
  not_verified : Login
  failed : Login
  issued : IssuedToken → Login

module _ (sha256 : Bytes → Bytes) where
  unfoldable pub sha256_hex : Bytes → Bytes
  unfolding to_hex
  sha256_hex input = to_hex (sha256 input)

  abbrev pub new_session : Bytes → SteamId → Time → Session
  new_session plaintext steam_id now = record {
    token_hash = sha256_hex plaintext;
    steam_id = steam_id;
    created_at_epoch_ms = now;
    expires_at_epoch_ms = now + session_ttl_ms;
    revoke_at_epoch_ms = none;
  }

  -- What is answered once the session has been stored or refused.
  abbrev pub answer : Bytes → SteamId → Time → Database → Option Database → Database × Login
  answer plaintext steam_id now db none = (db, failed)
  answer plaintext steam_id now db (some stored) = (
    stored,
    issued (record {
      token = plaintext;
      steam_id = steam_id;
      expires_at_epoch_ms = now + session_ttl_ms;
    }),
  )

  unfoldable pub complete_login : Option SteamId → Option Bytes → Time → Database → Database × Login
  unfolding to_hex sha256_hex
  complete_login none random now db = (db, not_verified)
  complete_login (some steam_id) none now db = (db, failed)
  complete_login (some steam_id) (some random) now db =
      answer (to_hex random) steam_id now db
        (SessionRepository.store (new_session (to_hex random) steam_id now) db)

  unfoldable pub authenticate : Bytes → Time → Database → Option SteamId
  unfolding user_of sha256_hex strip_bearer_prefix
  authenticate token now db =
      user_of now (SessionRepository.find_by_token_hash (sha256_hex (strip_bearer_prefix token)) db)

  unfoldable pub logout : Bytes → Time → Database → Database
  unfolding sha256_hex strip_bearer_prefix
  logout token now db = SessionRepository.revoke (sha256_hex (strip_bearer_prefix token)) now db

-- Logins that wait for the application to poll for them.
pub record PendingLogin : Type 0 where
  pub issued : IssuedToken
  pub parked_at_epoch_ms : Time

abbrev pub PendingLogins : Type 0
PendingLogins = List (Bytes × PendingLogin)

abbrev pub state_of : Bytes × PendingLogin → Bytes
state_of (state, p) = state

abbrev pub is_stale : Time → Bytes × PendingLogin → Bool
is_stale now (state, p) = ltb_ℤ (pos pending_login_ttl_ms) (sub_ℕ now p.parked_at_epoch_ms)

unfoldable pub prune_pending_locked : Time → PendingLogins → PendingLogins
unfolding delete
prune_pending_locked now pending = delete (is_stale now) pending

-- The assignment to an entry of the map.
abbrev pub assign : PendingLogin → Bytes × PendingLogin → Bytes × PendingLogin
assign p (state, old) = (state, p)

abbrev pub parked : IssuedToken → Time → PendingLogin
parked token now = record { issued = token; parked_at_epoch_ms = now }

unfoldable pub park_login : Bytes → IssuedToken → Time → PendingLogins → PendingLogins
unfolding upsert prune_pending_locked
park_login state token now pending =
    if is_empty state
    then pending
    else upsert state_of (state, parked token now) (assign (parked token now))
        (prune_pending_locked now pending)

-- The entry that was found is given away and erased.
abbrev pub take_found :
    Bytes → PendingLogins → Option (Bytes × PendingLogin) → PendingLogins × Option IssuedToken
take_found state pending none = (pending, none)
take_found state pending (some (s, p)) = (delete (λ e. state_of e == state) pending, some p.issued)

unfoldable pub claim_login : Bytes → Time → PendingLogins → PendingLogins × Option IssuedToken
unfolding prune_pending_locked find_by
claim_login state now pending =
    if is_empty state
    then (pending, none)
    else take_found state (prune_pending_locked now pending)
        (find_by state_of state (prune_pending_locked now pending))
