-- ===== src/Service/Auth/TokenState.antt =====
-- What the table of sessions holds about one token (src/storage/PgSessionRepository.cpp).
use picasso_backend.Base.{
  ◌≡◌, refl, Bool, true, false, List, [], ◌∷◌, ◌++◌, Option, none, some, Bytes, bytes_beq_iff, ◌==◌,
  bytes_eq, ltb, is_some, is_none, if◌then◌else◌, arith, inl, inr, Bool-cases, ==_refl,
}
use picasso_backend.Base.Table.{select, update, exists}
use picasso_backend.Domain.Ids.{SteamId, Time}
use picasso_backend.Domain.Session.{Session, is_usable_at}
use picasso_backend.Storage.Rows.{Database, SessionRow}
use picasso_backend.Storage.SessionQueries.{select_session_by_hash, revoke_session}
use picasso_backend.Storage.SessionRepository.{
  first_session, find_by_token_hash, revoke, to_session,
}
use picasso_backend.Service.Auth.{user_of}

-- What a token is good for, in the abstract.
pub data TokenState : Type 0 where
  unissued : TokenState
  valid : (id : SteamId) (expires : Time) → TokenState
  revoked : TokenState

abbrev pub state_of_session : Option Session → TokenState
state_of_session none = unissued
state_of_session (some s) =
    if is_none s.revoke_at_epoch_ms then valid s.steam_id s.expires_at_epoch_ms else revoked

abbrev pub token_state : Bytes → Database → TokenState
token_state hash db = state_of_session (find_by_token_hash hash db)

-- A new token takes effect once only; a revoked one stays revoked.
abbrev pub issue : SteamId → Time → TokenState → TokenState
issue id expires unissued = valid id expires
issue id expires (valid i e) = valid i e
issue id expires revoked = revoked

abbrev pub invalidate : TokenState → TokenState
invalidate unissued = unissued
invalidate (valid i e) = revoked
invalidate revoked = revoked

abbrev pub good_for : Time → TokenState → Option SteamId
good_for now unissued = none
good_for now (valid id expires) = if ltb now expires then some id else none
good_for now revoked = none

-- A new row is selected last, if it is selected at all.
pub select-other :
    (p : SessionRow → Bool) (rs : List SessionRow) (r : SessionRow)
    → p r ≡ false
    → select p (rs ++ r ∷ []) ≡ select p rs
unfolding select
select-other p [] r h = ground (arith, h)
select-other p (x ∷ rs) r h = ground (arith, select-other p rs r h)

pub first_session-new :
    (p : SessionRow → Bool) (rs : List SessionRow) (r : SessionRow)
    → p r ≡ true
    → exists p rs ≡ false
    → (first_session (select p rs) ≡ none)
      × (first_session (select p (rs ++ r ∷ [])) ≡ some (to_session r))
unfolding first_session select exists
first_session-new p [] r h new = (refl, rw h refl)
first_session-new p (x ∷ rs) r h new = ground (arith, first_session-new p rs r h)

pub first_session-select :
    (p : SessionRow → Bool) (rs : List SessionRow)
    → is_some (first_session (select p rs)) ≡ exists p rs
unfolding first_session select exists
first_session-select p [] = refl
first_session-select p (x ∷ rs) = ground (arith, first_session-select p rs)

pub issue-taken :
    (id : SteamId) (expires : Time) (o : Option Session)
    → is_some o ≡ true
    → issue id expires (state_of_session o) ≡ state_of_session o
issue-taken id expires none h = ground (arith, h)
issue-taken id expires (some s) h = ground arith

-- A row that the key of the table lets in, and one that it refuses.
module _ (h : Bytes) (r : SessionRow) (rs : List SessionRow) where
  pub first_session-insert :
      exists (λ s. s.token_hash == r.token_hash) rs ≡ false
      → r.revoked_at ≡ none
      → state_of_session (first_session (select (λ s. s.token_hash == h) (rs ++ r ∷ []))) ≡ (
          if h == r.token_hash
          then issue r.steam_id r.expires_at
              (state_of_session (first_session (select (λ s. s.token_hash == h) rs)))
          else state_of_session (first_session (select (λ s. s.token_hash == h) rs)))
  first_session-insert new unrevoked = elim (Bool-cases (h == r.token_hash)) [
    | inl same ↦
        let e = (bytes_beq_iff h r.token_hash).0 same in
        let (none_before, last) =
          first_session-new (λ s. s.token_hash == h) rs r (rw e (==_refl r.token_hash))
            (rw e new) in
        rw (same, none_before, last, unrevoked) refl
    | inr other ↦
        rw
          (
            other,
            select-other (λ s. s.token_hash == h) rs r
                (ground (arith, bytes_beq_iff h r.token_hash, bytes_beq_iff r.token_hash h, other)),
          )
          refl
  ]

  pub first_session-refused :
      (id : SteamId) (expires : Time)
      → exists (λ s. s.token_hash == r.token_hash) rs ≡ true
      → (if h == r.token_hash
          then issue id expires
              (state_of_session (first_session (select (λ s. s.token_hash == h) rs)))
          else state_of_session (first_session (select (λ s. s.token_hash == h) rs)))
        ≡ state_of_session (first_session (select (λ s. s.token_hash == h) rs))
  first_session-refused id expires taken = elim (Bool-cases (h == r.token_hash)) [
    | inl same ↦ rw same (
        issue-taken id expires _ (
          rw
            (
              first_session-select (λ s. s.token_hash == h) rs,
              (bytes_beq_iff h r.token_hash).0 same,
            )
            taken))
    | inr other ↦ rw other refl
  ]

-- Marks a session as revoked.
abbrev revoked_at : Time → Option Session → Option Session
revoked_at now none = none
revoked_at now (some s) = some (record s { revoke_at_epoch_ms = some now })

pub first_session-update :
    (h hash : Bytes) (now : Time) (rs : List SessionRow)
    → first_session (
        select
          (λ s. s.token_hash == h)
          (update (λ s. s.token_hash == hash) (λ s. record s { revoked_at = some now }) rs))
      ≡ (if h == hash
          then revoked_at now (first_session (select (λ s. s.token_hash == h) rs))
          else first_session (select (λ s. s.token_hash == h) rs))
unfolding first_session select update
first_session-update h hash now [] = ground arith
first_session-update h hash now (x ∷ rs) = ground (
  arith,
  bytes_beq_iff x.token_hash h,
  bytes_beq_iff x.token_hash hash,
  bytes_beq_iff h hash,
  first_session-update h hash now rs,
)

invalidate_if :
    (b : Bool) (now : Time) (o : Option Session)
    → state_of_session (if b then revoked_at now o else o)
      ≡ (if b then invalidate (state_of_session o) else state_of_session o)
invalidate_if b now none = ground arith
invalidate_if b now (some s) = ground arith

pub token_state-revoke :
    (h hash : Bytes) (now : Time) (db : Database)
    → token_state h (revoke hash now db)
      ≡ (if h == hash then invalidate (token_state h db) else token_state h db)
unfolding find_by_token_hash revoke revoke_session select_session_by_hash
token_state-revoke h hash now db =
    rw (first_session-update h hash now db.sessions)
      (invalidate_if (h == hash) now (first_session (select (λ s. s.token_hash == h) db.sessions)))

pub good_for-token_state :
    (now : Time) (o : Option Session) → user_of now o ≡ good_for now (state_of_session o)
unfolding user_of is_usable_at
good_for-token_state now none = refl
good_for-token_state now (some s) = ground arith
