-- ===== src/Base/Table/Keyed.antt =====
-- Tables with a primary key: the row under a key, and what changes of the table do to it.
use picasso_backend.Base.Tests.{if◌then◌else◌, is_some, some_and, Option-cases}
use picasso_backend.Base.Equality.{Eq, ◌==◌}
use Prim.Native.Nat.{◌+◌}
use mathlib.Core.Path.{◌≡◌, refl}
use mathlib.Core.Logic.{inl, inr}
use mathlib.Core.Bool.{Bool, false, ◌&&◌, ◌||◌}
use mathlib.Core.Option.{Option, none, some}
use mathlib.Core.List.{List, [], ◌∷◌, ◌++◌}
use native.Mathlib.Omega.{arith}
use picasso_backend.Base.Table.Queries.{delete, update, exists, count, unless, change_if}

-- A table with a primary key.
module _ {ℓ κ} {R : Type ℓ} {K : Type κ} ⦃e : Eq K⦄ (key : R → K) where
  unfoldable pub find_by : K → List R → Option R
  find_by k [] = none
  find_by k (r ∷ rs) = if key r == k then some r else find_by k rs

  -- The PRIMARY KEY constraint.
  abbrev pub IsKeyed : List R → Type ℓ
  IsKeyed [] = Unit
  IsKeyed (r ∷ rs) = (find_by (key r) rs ≡ none) × IsKeyed rs

  -- INSERT ... ON CONFLICT (key) DO NOTHING
  unfoldable pub insert_or_ignore : R → List R → List R
  unfolding exists
  insert_or_ignore r rs = if exists (λ x. key x == key r) rs then rs else rs ++ r ∷ []

  -- INSERT ... ON CONFLICT (key) DO UPDATE SET f
  unfoldable pub upsert : R → (R → R) → List R → List R
  unfolding exists update
  upsert r f rs =
      if exists (λ x. key x == key r) rs then update (λ x. key x == key r) f rs else rs ++ r ∷ []

  pub find_by-delete :
      (k : K) (p : R → Bool) (rs : List R)
      → IsKeyed rs
      → find_by k (delete p rs) ≡ unless p (find_by k rs)
  unfolding find_by delete
  find_by-delete k p [] u = refl
  find_by-delete k p (r ∷ rs) u = ground (arith, e.beq_iff (key r) k, find_by-delete k p rs u.1)

  pub find_by-update :
      (k : K) (p : R → Bool) (f : R → R) (rs : List R)
      → ((r : R) → key (f r) ≡ key r)
      → find_by k (update p f rs) ≡ change_if p f (find_by k rs)
  unfolding find_by update
  find_by-update k p f [] same = refl
  find_by-update k p f (r ∷ rs) same = ground (arith, same r, find_by-update k p f rs same)

  pub find_by-snoc :
      (k : K) (r : R) (rs : List R)
      → find_by k (rs ++ r ∷ [])
        ≡ (if is_some (find_by k rs) then find_by k rs else if key r == k then some r else none)
  unfolding find_by
  find_by-snoc k r [] = ground arith
  find_by-snoc k r (x ∷ rs) = ground (arith, find_by-snoc k r rs)

  pub exists-key : (k : K) (rs : List R) → exists (λ x. key x == k) rs ≡ is_some (find_by k rs)
  unfolding exists find_by
  exists-key k [] = refl
  exists-key k (r ∷ rs) = ground (arith, exists-key k rs)

  pub find_by-key : (k : K) (rs : List R) (x : R) → find_by k rs ≡ some x → key x ≡ k
  unfolding find_by
  find_by-key k [] x h = cc
  find_by-key k (r ∷ rs) x h = ground (arith, e.beq_iff (key r) k, find_by-key k rs x)

  -- A test on the key and on the rest of a row is a test on the row found under the key.
  pub exists-find_by :
      (k : K) (q : R → Bool) (rs : List R)
      → IsKeyed rs
      → exists (λ x. key x == k && q x) rs ≡ some_and q (find_by k rs)
  unfolding exists find_by
  exists-find_by k q [] u = refl
  exists-find_by k q (r ∷ rs) u = ground (arith, e.beq_iff (key r) k, exists-find_by k q rs u.1)

  pub count-find_by :
      (k : K) (q : R → Bool) (rs : List R)
      → IsKeyed rs
      → count (λ x. key x == k && q x) rs ≡ (if some_and q (find_by k rs) then 1 else 0)
  unfolding count find_by
  count-find_by k q [] u = refl
  count-find_by k q (r ∷ rs) u = ground (arith, e.beq_iff (key r) k, count-find_by k q rs u.1)

  pub exists-two_keys :
      (k j : K) (q : R → Bool) (rs : List R)
      → IsKeyed rs
      → exists (λ x. (key x == k || key x == j) && q x) rs
        ≡ (some_and q (find_by k rs) || some_and q (find_by j rs))
  unfolding exists find_by
  exists-two_keys k j q [] u = refl
  exists-two_keys k j q (r ∷ rs) u =
      ground (arith, e.beq_iff (key r) k, e.beq_iff (key r) j, exists-two_keys k j q rs u.1)

  -- The rows under two different keys are at most one each.
  pub count-two_keys :
      (k j : K) (q : R → Bool) (rs : List R)
      → (k == j) ≡ false
      → IsKeyed rs
      → count (λ x. (key x == k || key x == j) && q x) rs
        ≡ (if some_and q (find_by k rs) then 1 else 0)
          + (if some_and q (find_by j rs) then 1 else 0)
  unfolding count find_by
  count-two_keys k j q [] d u = omega arith
  count-two_keys k j q (r ∷ rs) d u = ground (
    arith,
    e.beq_iff (key r) k,
    e.beq_iff (key r) j,
    e.beq_iff k j,
    count-two_keys k j q rs d u.1,
  )

  pub count-absent :
      (k j : K) (q : R → Bool) (rs : List R)
      → find_by k rs ≡ none
      → find_by j rs ≡ none
      → count (λ x. (key x == k || key x == j) && q x) rs ≡ 0
  unfolding count find_by
  count-absent k j q [] h g = refl
  count-absent k j q (r ∷ rs) h g = ground (arith, count-absent k j q rs)

  -- The same for a WHERE clause that tests the key alone.
  pub find_by-delete_keys :
      (k : K) (t : K → Bool) (rs : List R)
      → IsKeyed rs
      → find_by k (delete (λ r. t (key r)) rs) ≡ (if t k then none else find_by k rs)
  find_by-delete_keys k t rs u = elim (Option-cases (find_by k rs)) [
    | inl absent ↦ ground (arith, absent, find_by-delete k (λ r. t (key r)) rs u)
    | inr (x, found) ↦
        ground (arith, found, find_by-delete k (λ r. t (key r)) rs u, find_by-key k rs x found)
  ]

  pub find_by-insert_or_ignore :
      (k : K) (r : R) (rs : List R)
      → find_by k (insert_or_ignore r rs)
        ≡ (if is_some (find_by k rs) then find_by k rs else if key r == k then some r else none)
  unfolding insert_or_ignore
  find_by-insert_or_ignore k r rs =
      ground (arith, exists-key (key r) rs, find_by-snoc k r rs, e.beq_iff (key r) k)

  pub find_by-upsert :
      (k : K) (r : R) (f : R → R) (rs : List R)
      → ((x : R) → key (f x) ≡ key x)
      → find_by k (upsert r f rs) ≡ (
          if key r == k
          then some (elim (find_by k rs) [ none ↦ r | some x ↦ f x ])
          else find_by k rs)
  unfolding upsert
  find_by-upsert k r f rs same = elim (Option-cases (find_by k rs)) [
    | inl absent ↦ ground (
      arith,
      absent,
      exists-key (key r) rs,
      find_by-snoc k r rs,
      find_by-update k (λ x. key x == key r) f rs same,
      e.beq_iff (key r) k,
    )
    | inr (x, found) ↦ ground (
      arith,
      found,
      find_by-key k rs x found,
      exists-key (key r) rs,
      find_by-snoc k r rs,
      find_by-update k (λ x. key x == key r) f rs same,
      e.beq_iff (key r) k,
      e.beq_iff (key x) (key r),
    )
  ]

  -- A WHERE clause is mostly a test `t` on the key and a test `q` on the rest of the row.
  module _ (k : K) (t : K → Bool) (q : R → Bool) (rs : List R) where
    pub find_by-delete_where :
        IsKeyed rs
        → find_by k (delete (λ r. t (key r) && q r) rs)
          ≡ (if t k && some_and q (find_by k rs) then none else find_by k rs)
    find_by-delete_where u = elim (Option-cases (find_by k rs)) [
      | inl absent ↦ ground (arith, absent, find_by-delete k (λ r. t (key r) && q r) rs u)
      | inr (x, found) ↦
          ground
            (arith, found, find_by-delete k (λ r. t (key r) && q r) rs u, find_by-key k rs x found)
    ]

    pub find_by-update_where :
        (f : R → R)
        → ((x : R) → key (f x) ≡ key x)
        → find_by k (update (λ r. t (key r) && q r) f rs)
          ≡ (if t k then change_if q f (find_by k rs) else find_by k rs)
    find_by-update_where f same = elim (Option-cases (find_by k rs)) [
      | inl absent ↦ ground (arith, absent, find_by-update k (λ r. t (key r) && q r) f rs same)
      | inr (x, found) ↦ ground (
        arith,
        found,
        find_by-update k (λ r. t (key r) && q r) f rs same,
        find_by-key k rs x found,
      )
    ]
