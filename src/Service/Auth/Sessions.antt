-- ===== src/Service/Auth/Sessions.antt =====
-- What the sessions of the database answer for a token after any calls of the login service
-- (src/service/AuthService.cpp, src/storage/PgSessionRepository.cpp).
use picasso_backend.Base.{
  ◌+◌, ◌≡◌, refl, sym, List, [], ◌∷◌, Option, none, some, Bytes, ◌==◌, bytes_eq, if◌then◌else◌,
  arith, inl, inr, Bool-cases, ==_refl,
}
use picasso_backend.Base.Table.{exists}
use picasso_backend.Domain.Ids.{SteamId, Time}
use picasso_backend.Storage.Rows.{Database}
use picasso_backend.Storage.ContactQueries.{create_user}
use picasso_backend.Storage.SessionQueries.{insert_session, select_session_by_hash}
use picasso_backend.Storage.SessionRepository.{store, find_by_token_hash, to_row}
use picasso_backend.Service.Auth.{
  session_ttl_ms, to_hex, strip_bearer_prefix, sha256_hex, new_session, complete_login,
  authenticate, logout,
}
use picasso_backend.Service.Auth.TokenState.{
  TokenState, first_session-insert, first_session-refused, good_for, good_for-token_state,
  invalidate, issue, revoked, token_state, token_state-revoke, unissued, valid,
}

pub data Call : Type 0 where
  login_call : (verified : Option SteamId) (random : Option Bytes) (now : Time) → Call
  logout_call : (token : Bytes) (now : Time) → Call

was_valid :
    (now : Time) (id : SteamId) (t : TokenState) → good_for now t ≡ some id → invalidate t ≡ revoked
was_valid now id unissued h = ground (arith, h)
was_valid now id (valid i e) h = refl
was_valid now id revoked h = refl

module _ (sha256 : Bytes → Bytes) where
  abbrev pub hash_of : Bytes → Bytes
  hash_of token = sha256_hex sha256 (strip_bearer_prefix token)

  -- The calls, on what one hash is good for.
  abbrev pub abstract_step : Bytes → Call → TokenState → TokenState
  abstract_step h (login_call none random now) t = t
  abstract_step h (login_call (some id) none now) t = t
  abstract_step h (login_call (some id) (some random) now) t =
      if h == sha256_hex sha256 (to_hex random) then issue id (now + session_ttl_ms) t else t
  abstract_step h (logout_call token now) t = if h == hash_of token then invalidate t else t

  abbrev pub abstract_run : Bytes → List Call → TokenState → TokenState
  abstract_run h [] t = t
  abstract_run h (c ∷ cs) t = abstract_run h cs (abstract_step h c t)

  unfoldable pub step : Call → Database → Database
  step (login_call verified random now) db = (complete_login sha256 verified random now db).0
  step (logout_call token now) db = logout sha256 token now db

  unfoldable pub run : List Call → Database → Database
  unfolding step
  run [] db = db
  run (c ∷ cs) db = run cs (step c db)

  token_state-login :
      (h : Bytes) (id : SteamId) (random : Bytes) (now : Time) (db : Database)
      → token_state h (complete_login sha256 (some id) (some random) now db).0
        ≡ abstract_step h (login_call (some id) (some random) now) (token_state h db)
  unfolding complete_login store insert_session create_user find_by_token_hash
      select_session_by_hash
  token_state-login h id random now db =
      let session = new_session sha256 (to_hex random) id now in
      let row = to_row session in
      elim (Bool-cases (exists (λ s. s.token_hash == row.token_hash) db.sessions)) [
        | inl taken ↦
            rw (taken, first_session-refused h row db.sessions id (now + session_ttl_ms) taken) refl
        | inr new ↦ rw new (first_session-insert h row db.sessions new refl)
      ]

  token_state-step :
      (h : Bytes) (c : Call) (db : Database)
      → token_state h (step c db) ≡ abstract_step h c (token_state h db)
  unfolding step logout complete_login
  token_state-step h (login_call none random now) db = refl
  token_state-step h (login_call (some id) none now) db = refl
  token_state-step h (login_call (some id) (some random) now) db =
      token_state-login h id random now db
  token_state-step h (logout_call token now) db = token_state-revoke h (hash_of token) now db

  token_state-run :
      (h : Bytes) (cs : List Call) (db : Database)
      → token_state h (run cs db) ≡ abstract_run h cs (token_state h db)
  unfolding run
  token_state-run h [] db = refl
  token_state-run h (c ∷ cs) db =
      rw (token_state-run h cs (step c db), token_state-step h c db) refl

  -- The sessions of the database implement, for each token, a small machine: it is unissued, valid
  -- for one user until a time, or revoked. After any calls, whether and as whom a token is
  -- authenticated is what the machine of its hash says after the same calls.
  pub authenticate-refines :
      (cs : List Call) (db : Database) (token : Bytes) (at : Time)
      → authenticate sha256 token at (run cs db)
        ≡ good_for at (abstract_run (hash_of token) cs (token_state (hash_of token) db))
  unfolding authenticate
  authenticate-refines cs db token at =
      rw
        (
          good_for-token_state at (find_by_token_hash (hash_of token) (run cs db)),
          token_state-run (hash_of token) cs db,
        )
        refl

  revoked_stays : (h : Bytes) (cs : List Call) → abstract_run h cs revoked ≡ revoked
  revoked_stays h [] = refl
  revoked_stays h (login_call none random now ∷ cs) = revoked_stays h cs
  revoked_stays h (login_call (some id) none now ∷ cs) = revoked_stays h cs
  revoked_stays h (login_call (some id) (some random) now ∷ cs) = ground (arith, revoked_stays h cs)
  revoked_stays h (logout_call token now ∷ cs) = ground (arith, revoked_stays h cs)

  -- A token that was authenticated once is never authenticated again after a logout with it,
  -- whatever logins and logouts follow and whatever the clock says.
  pub logout-final :
      (cs : List Call) (db : Database) (token : Bytes) (before now at : Time) (id : SteamId)
      → authenticate sha256 token before db ≡ some id
      → authenticate sha256 token at (run cs (logout sha256 token now db)) ≡ none
  unfolding authenticate logout
  logout-final cs db token before now at id h =
      let state : token_state (hash_of token) (logout sha256 token now db) ≡ revoked =
        rw (token_state-revoke (hash_of token) (hash_of token) now db, ==_refl (hash_of token))
          (was_valid before id (token_state (hash_of token) db)
            (rw (sym (good_for-token_state before (find_by_token_hash (hash_of token) db))) h)) in
      rw
        (
          authenticate-refines cs (logout sha256 token now db) token at,
          state,
          revoked_stays (hash_of token) cs,
        )
        refl
