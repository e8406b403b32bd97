-- ===== src/Service/Auth/Pending.antt =====
-- A parked login is given away once, to the first poll with its state that comes in time
-- (src/service/AuthService.cpp, `parkLogin` and `claimLogin`).
use picasso_backend.Base.{
  ◌+◌, ◌≡◌, ◌∙◌, ◌≤◌, refl, false, List, [], ◌∷◌, Option, none, some, Bytes, bytes_eq, ltb,
  is_empty, if◌then◌else◌, arith, inl, inr, Option-cases, ==_refl, All,
}
use picasso_backend.Base.Table.{find_by, unless}
use picasso_backend.Domain.Ids.{Time}
use picasso_backend.Service.Auth.{
  pending_login_ttl_ms, IssuedToken, PendingLogin, PendingLogins, state_of, is_stale,
  prune_pending_locked, park_login, claim_login,
}
use picasso_backend.Service.Auth.PendingMap.{
  Call, park_call, claim_call, step, run, time_of, is_about, parks, IsMap, step-IsMap, parked-IsMap,
  claimed-IsMap, find-prune, find-park, find-claim,
}

pub run-IsMap : (cs : List Call) (p : PendingLogins) → IsMap p → IsMap (run cs p)
unfolding run
run-IsMap [] p u = u
run-IsMap (c ∷ cs) p u = run-IsMap cs (step c p) (step-IsMap c p u)

abbrev issued_of : Option (Bytes × PendingLogin) → Option IssuedToken
issued_of none = none
issued_of (some (s, p)) = some p.issued

claim_answer :
    (s : Bytes) (now : Time) (p : PendingLogins)
    → IsMap p
    → is_empty s ≡ false
    → (claim_login s now p).1 ≡ issued_of (unless (is_stale now) (find_by state_of s p))
unfolding claim_login
claim_answer s now p u full =
    elim (Option-cases (find_by state_of s (prune_pending_locked now p))) [
      | inl absent ↦ ground (arith, absent, find-prune s now p u, full)
      | inr (x, found) ↦ ground (arith, found, find-prune s now p u, full)
    ]

-- What is stale stays so as time goes by.
unless-later :
    (t at : Time) (o : Option (Bytes × PendingLogin))
    → t ≤ at
    → unless (is_stale at) (unless (is_stale t) o) ≡ unless (is_stale at) o
unless-later t at none h = refl
unless-later t at (some (s, p)) h = ground (arith, h)

step-other :
    (s : Bytes) (at : Time) (c : Call) (p : PendingLogins)
    → IsMap p
    → is_about s c ≡ false
    → time_of c ≤ at
    → unless (is_stale at) (find_by state_of s (step c p))
      ≡ unless (is_stale at) (find_by state_of s p)
unfolding step
step-other s at (park_call state token now) p u other h =
    ground
      (arith, find-park s state token now p u, unless-later now at (find_by state_of s p) h, other)
step-other s at (claim_call state now) p u other h =
    ground (arith, find-claim s state now p u, unless-later now at (find_by state_of s p) h, other)

run-other :
    (s : Bytes) (at : Time) (cs : List Call) (p : PendingLogins)
    → IsMap p
    → All (λ c. (is_about s c ≡ false) × (time_of c ≤ at)) cs
    → unless (is_stale at) (find_by state_of s (run cs p))
      ≡ unless (is_stale at) (find_by state_of s p)
unfolding run
run-other s at [] p u h = refl
run-other s at (c ∷ cs) p u (h, hs) =
    run-other s at cs (step c p) (step-IsMap c p u) hs ∙ step-other s at c p u h.0 h.1

-- Without a park under a state, nothing comes to be parked under it.
step-absent :
    (s : Bytes) (c : Call) (p : PendingLogins)
    → IsMap p
    → parks s c ≡ false
    → find_by state_of s p ≡ none
    → find_by state_of s (step c p) ≡ none
unfolding step
step-absent s (park_call state token now) p u other h =
    ground (arith, find-park s state token now p u, other, h)
step-absent s (claim_call state now) p u other h =
    ground (arith, find-claim s state now p u, other, h)

run-absent :
    (s : Bytes) (cs : List Call) (p : PendingLogins)
    → IsMap p
    → All (λ c. parks s c ≡ false) cs
    → find_by state_of s p ≡ none
    → find_by state_of s (run cs p) ≡ none
unfolding run
run-absent s [] p u h e = e
run-absent s (c ∷ cs) p u (h, hs) e =
    run-absent s cs (step c p) (step-IsMap c p u) hs (step-absent s c p u h e)

-- A login that is parked, after any calls on an empty map, under a state that is not empty is
-- given to the first claim of that state if that comes at most 5 minutes later, and to nobody
-- otherwise, whatever is parked and claimed under other states in between, at times that are no
-- later than the claim. After that claim every other one of the state, at any time, is given
-- nothing until something is parked under it again.
pub claim-once :
    (before others later : List Call) (s : Bytes) (token : IssuedToken) (parked_at at again : Time)
    → is_empty s ≡ false
    → All (λ c. (is_about s c ≡ false) × (time_of c ≤ at)) others
    → All (λ c. parks s c ≡ false) later
    → ((claim_login s at (run others (park_login s token parked_at (run before [])))).1
        ≡ (if ltb (parked_at + pending_login_ttl_ms) at then none else some token))
      × ((claim_login s again (
            run later
              (claim_login s at (run others (park_login s token parked_at (run before [])))).0)).1
          ≡ none)
claim-once before others later s token parked_at at again full apart unparked =
    let p₀ = run before [] in
    let u₀ = run-IsMap before [] tt in
    let p₁ = park_login s token parked_at p₀ in
    let u₁ = parked-IsMap s token parked_at p₀ u₀ in
    let p₂ = run others p₁ in
    let u₂ = run-IsMap others p₁ u₁ in
    let p₃ = (claim_login s at p₂).0 in
    let u₃ = claimed-IsMap s at p₂ u₂ in
    (
      ground (
        arith,
        claim_answer s at p₂ u₂ full,
        run-other s at others p₁ u₁ apart,
        find-park s s token parked_at p₀ u₀,
        ==_refl s,
        full,
      ),
      ground (
        arith,
        claim_answer s again (run later p₃) (run-IsMap later p₃ u₃) full,
        run-absent s later p₃ u₃ unparked
            (ground (arith, find-claim s s at p₂ u₂, ==_refl s, full)),
      ),
    )
