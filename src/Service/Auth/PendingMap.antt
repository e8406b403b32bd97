-- ===== src/Service/Auth/PendingMap.antt =====
-- The map of parked logins after each call (src/service/AuthService.cpp).
use picasso_backend.Base.{
  ◌≡◌, refl, Bool, false, List, [], ◌∷◌, Option, none, some, Bytes, bytes_beq_iff, ◌==◌, bytes_eq,
  is_empty, if◌then◌else◌, arith, inl, inr, Option-cases, if_both,
}
use picasso_backend.Base.Table.{
  find_by, IsKeyed, delete-IsKeyed, upsert-IsKeyed, find_by-delete, find_by-upsert,
  find_by-delete_keys, unless, find_by-key,
}
use picasso_backend.Domain.Ids.{Time}
use picasso_backend.Service.Auth.{
  IssuedToken, PendingLogin, PendingLogins, state_of, is_stale, prune_pending_locked, parked,
  assign, park_login, take_found, claim_login,
}

pub data Call : Type 0 where
  park_call : (state : Bytes) (token : IssuedToken) (now : Time) → Call
  claim_call : (state : Bytes) (now : Time) → Call

unfoldable pub step : Call → PendingLogins → PendingLogins
step (park_call state token now) p = park_login state token now p
step (claim_call state now) p = (claim_login state now p).0

unfoldable pub run : List Call → PendingLogins → PendingLogins
unfolding step
run [] p = p
run (c ∷ cs) p = run cs (step c p)

abbrev pub time_of : Call → Time
time_of (park_call state token now) = now
time_of (claim_call state now) = now

abbrev pub is_about : Bytes → Call → Bool
is_about s (park_call state token now) = state == s
is_about s (claim_call state now) = state == s

abbrev pub parks : Bytes → Call → Bool
parks s (park_call state token now) = state == s
parks s (claim_call state now) = false

-- A map has one entry for each key.
abbrev pub IsMap : PendingLogins → Type 0
IsMap p = IsKeyed state_of p

prune-IsMap : (now : Time) (p : PendingLogins) → IsMap p → IsMap (prune_pending_locked now p)
unfolding prune_pending_locked
prune-IsMap now p u = delete-IsKeyed state_of (is_stale now) p u

pub take_found-IsMap :
    (state : Bytes) (p : PendingLogins) (o : Option (Bytes × PendingLogin))
    → IsMap p
    → IsMap (take_found state p o).0
take_found-IsMap state p none u = u
take_found-IsMap state p (some e) u = delete-IsKeyed state_of (λ x. state_of x == state) p u

pub step-IsMap : (c : Call) (p : PendingLogins) → IsMap p → IsMap (step c p)
unfolding step park_login claim_login
step-IsMap (park_call state token now) p u = if_both IsMap (is_empty state) u (
    upsert-IsKeyed state_of (state, parked token now) (assign (parked token now))
      (prune_pending_locked now p) (λ x. refl) (prune-IsMap now p u))
step-IsMap (claim_call state now) p u =
    if_both (λ (r : PendingLogins × Option IssuedToken). IsMap r.0) (is_empty state) u
      (take_found-IsMap state (prune_pending_locked now p)
        (find_by state_of state (prune_pending_locked now p)) (prune-IsMap now p u))

pub parked-IsMap :
    (s : Bytes) (token : IssuedToken) (now : Time) (p : PendingLogins)
    → IsMap p
    → IsMap (park_login s token now p)
unfolding step
parked-IsMap s token now p u = step-IsMap (park_call s token now) p u

pub claimed-IsMap :
    (s : Bytes) (now : Time) (p : PendingLogins) → IsMap p → IsMap (claim_login s now p).0
unfolding step
claimed-IsMap s now p u = step-IsMap (claim_call s now) p u

-- What is parked under a state after one call.
pub find-prune :
    (s : Bytes) (now : Time) (p : PendingLogins)
    → IsMap p
    → find_by state_of s (prune_pending_locked now p) ≡ unless (is_stale now) (find_by state_of s p)
unfolding prune_pending_locked
find-prune s now p u = find_by-delete state_of s (is_stale now) p u

pub find-park :
    (s state : Bytes) (token : IssuedToken) (now : Time) (p : PendingLogins)
    → IsMap p
    → find_by state_of s (park_login state token now p) ≡ (
        if is_empty state
        then find_by state_of s p
        else if state == s
        then some (s, parked token now)
        else unless (is_stale now) (find_by state_of s p))
unfolding park_login
find-park s state token now p u =
    let q = prune_pending_locked now p in
    elim (Option-cases (find_by state_of s q)) [
      | inl absent ↦ ground (
        arith,
        absent,
        find-prune s now p u,
        bytes_beq_iff state s,
        find_by-upsert state_of s (state, parked token now) (assign (parked token now)) q
            (λ x. refl),
      )
      | inr (x, found) ↦ ground (
        arith,
        found,
        find-prune s now p u,
        bytes_beq_iff state s,
        find_by-key state_of s q x found,
        find_by-upsert state_of s (state, parked token now) (assign (parked token now)) q
            (λ x. refl),
      )
    ]

pub find-claim :
    (s state : Bytes) (now : Time) (p : PendingLogins)
    → IsMap p
    → find_by state_of s (claim_login state now p).0 ≡ (
        if is_empty state
        then find_by state_of s p
        else if state == s
        then none
        else unless (is_stale now) (find_by state_of s p))
unfolding claim_login
find-claim s state now p u =
    let q = prune_pending_locked now p in
    elim (Option-cases (find_by state_of state q)) [
      | inl absent ↦
          ground (arith, absent, find-prune s now p u, bytes_beq_iff state s, bytes_beq_iff s state)
      | inr (x, found) ↦ ground (
        arith,
        found,
        find-prune s now p u,
        bytes_beq_iff state s,
        bytes_beq_iff s state,
        find_by-delete_keys state_of s (λ k. k == state) q (prune-IsMap now p u),
      )
    ]
