-- ===== src/Service/Auth/Issuing.antt =====
-- What a login of the login service gives (src/service/AuthService.cpp,
-- src/storage/PgSessionRepository.cpp).
use picasso_backend.Base.{
  ◌+◌, ◌≡◌, refl, subst, ap, false, ◌++◌, Option, none, some, Bytes, ◌==◌, bytes_eq, ltb,
  if◌then◌else◌, arith, inl, inr, Bool-cases, ==_refl,
}
use picasso_backend.Base.Table.{exists}
use picasso_backend.Domain.Ids.{SteamId, Time}
use picasso_backend.Storage.Rows.{Database}
use picasso_backend.Storage.ContactQueries.{create_user}
use picasso_backend.Storage.SessionQueries.{insert_session, select_session_by_hash}
use picasso_backend.Storage.SessionRepository.{store, find_by_token_hash, to_row}
use picasso_backend.Service.Auth.{
  session_ttl_ms, to_hex, bearer, sha256_hex, new_session, complete_login, user_of, authenticate,
  IssuedToken, failed, issued,
}
use picasso_backend.Service.Auth.Hex.{strip_bearer_prefix-to_hex, strip_bearer_prefix-bearer}
use picasso_backend.Service.Auth.TokenState.{
  first_session-new, good_for-token_state, token_state, valid,
}

issued_inj : (s t : IssuedToken) → issued s ≡ issued t → s ≡ t
issued_inj s t h = ap (λ l. elim l [ issued u ↦ u | _ ↦ s ]) h

module _ (sha256 : Bytes → Bytes) where
  login_state :
      (id : SteamId) (random : Bytes) (now : Time) (db : Database)
      → exists (λ s. s.token_hash == sha256_hex sha256 (to_hex random)) db.sessions ≡ false
      → token_state
          (sha256_hex sha256 (to_hex random))
          (complete_login sha256 (some id) (some random) now db).0
        ≡ valid id (now + session_ttl_ms)
  unfolding complete_login store insert_session create_user find_by_token_hash
      select_session_by_hash
  login_state id random now db new =
      let row = to_row (new_session sha256 (to_hex random) id now) in
      let (_, last) =
        first_session-new (λ s. s.token_hash == row.token_hash) db.sessions row
          (==_refl row.token_hash) new in
      rw (new, last) refl

  login_answer :
      (id : SteamId) (random : Bytes) (now : Time) (db : Database)
      → (complete_login sha256 (some id) (some random) now db).1 ≡ (
          if exists (λ s. s.token_hash == sha256_hex sha256 (to_hex random)) db.sessions
          then failed
          else issued (record {
            token = to_hex random;
            steam_id = id;
            expires_at_epoch_ms = now + session_ttl_ms;
          }))
  unfolding complete_login store insert_session create_user
  login_answer id random now db =
      elim (Bool-cases
        (exists (λ s. s.token_hash == sha256_hex sha256 (to_hex random)) db.sessions)) [
          | inl taken ↦ rw taken refl
          | inr new ↦ rw new refl
        ]

  -- What is promised of an issued token.
  abbrev pub Works : Option SteamId → Time → Database → IssuedToken → Time → Type 0
  Works verified now db t at =
      (verified ≡ some t.steam_id)
      × (t.expires_at_epoch_ms ≡ now + session_ttl_ms)
      × (authenticate sha256 t.token at db
          ≡ (if ltb at t.expires_at_epoch_ms then some t.steam_id else none))
      × (authenticate sha256 (bearer ++ t.token) at db
          ≡ (if ltb at t.expires_at_epoch_ms then some t.steam_id else none))

  fresh-Works :
      (id : SteamId) (random : Bytes) (now : Time) (db : Database)
      → exists (λ s. s.token_hash == sha256_hex sha256 (to_hex random)) db.sessions ≡ false
      → (at : Time)
      → Works
          (some id)
          now
          (complete_login sha256 (some id) (some random) now db).0
          (record {
            token = to_hex random;
            steam_id = id;
            expires_at_epoch_ms = now + session_ttl_ms;
          })
          at
  unfolding authenticate
  fresh-Works id random now db new at =
      let db' = (complete_login sha256 (some id) (some random) now db).0 in
      let found = find_by_token_hash (sha256_hex sha256 (to_hex random)) db' in
      let good : user_of at found ≡ (if ltb at (now + session_ttl_ms) then some id else none) =
        rw (good_for-token_state at found, login_state id random now db new) refl in
      (
        refl,
        refl,
        rw (strip_bearer_prefix-to_hex random) good,
        rw (strip_bearer_prefix-bearer (to_hex random)) good,
      )

  -- A login that issues a token answers with the verified user and the end of the session in 30
  -- days. From then on the token, with the prefix or without it, is authenticated as that user
  -- until just before the end, and never after it, if there is no other call.
  pub login-authenticates :
      (verified : Option SteamId) (random : Option Bytes) (now : Time) (db : Database)
      (t : IssuedToken)
      → (complete_login sha256 verified random now db).1 ≡ issued t
      → (at : Time)
      → (verified ≡ some t.steam_id)
        × (t.expires_at_epoch_ms ≡ now + session_ttl_ms)
        × (authenticate sha256 t.token at (complete_login sha256 verified random now db).0
            ≡ (if ltb at t.expires_at_epoch_ms then some t.steam_id else none))
        × (authenticate sha256
              (bearer ++ t.token)
              at
              (complete_login sha256 verified random now db).0
            ≡ (if ltb at t.expires_at_epoch_ms then some t.steam_id else none))
  unfolding complete_login
  login-authenticates none random now db t h at = ground (arith, h)
  login-authenticates (some id) none now db t h at = ground (arith, h)
  login-authenticates (some id) (some random) now db t h at =
      elim (Bool-cases
        (exists (λ s. s.token_hash == sha256_hex sha256 (to_hex random)) db.sessions)) [
          | inl taken ↦ ground (arith, taken, login_answer id random now db, h)
          | inr new ↦
              subst
                (λ t.
                  Works (some id) now (complete_login sha256 (some id) (some random) now db).0 t at)
                (issued_inj _ t (ground (arith, new, login_answer id random now db, h)))
                (fresh-Works id random now db new at)
        ]
