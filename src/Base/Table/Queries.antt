-- ===== src/Base/Table/Queries.antt =====
-- Queries on a table as functions on its rows.
use picasso_backend.Base.Tests.{if◌then◌else◌, ltb, nat_beq}
use Prim.Native.Nat.{ℕ, ◌+◌}
use mathlib.Core.Path.{◌≡◌, refl}
use mathlib.Core.Bool.{Bool, false, ◌||◌}
use mathlib.Core.Option.{Option, none, some}
use mathlib.Core.List.{List, [], ◌∷◌}
use native.Mathlib.Omega.{arith}

module _ {ℓ} {R : Type ℓ} where
  -- SELECT ... WHERE p
  unfoldable pub select : (R → Bool) → List R → List R
  select p [] = []
  select p (r ∷ rs) = let rest = select p rs in if p r then r ∷ rest else rest

  -- DELETE ... WHERE p
  unfoldable pub delete : (R → Bool) → List R → List R
  delete p [] = []
  delete p (r ∷ rs) = let rest = delete p rs in if p r then rest else r ∷ rest

  -- UPDATE ... SET f WHERE p
  unfoldable pub update : (R → Bool) → (R → R) → List R → List R
  update p f [] = []
  update p f (r ∷ rs) = (if p r then f r else r) ∷ update p f rs

  -- SELECT EXISTS (... WHERE p), and whether a RETURNING clause gives a row.
  unfoldable pub exists : (R → Bool) → List R → Bool
  exists p [] = false
  exists p (r ∷ rs) = p r || exists p rs

  -- SELECT count(*) ... WHERE p
  unfoldable pub count : (R → Bool) → List R → ℕ
  count p [] = 0
  count p (r ∷ rs) = (if p r then 1 else 0) + count p rs

  -- ORDER BY f DESC: rows with the same value keep their order, which SQL leaves open.
  unfoldable pub insert_desc : (R → ℕ) → R → List R → List R
  insert_desc f r [] = r ∷ []
  insert_desc f r (x ∷ rs) =
      let rest = insert_desc f r rs in if ltb (f r) (f x) then x ∷ rest else r ∷ x ∷ rs

  unfoldable pub order_desc : (R → ℕ) → List R → List R
  unfolding insert_desc
  order_desc f [] = []
  order_desc f (r ∷ rs) = insert_desc f r (order_desc f rs)

  -- ORDER BY f ASC, and a sort.
  unfoldable pub insert_asc : (R → ℕ) → R → List R → List R
  insert_asc f r [] = r ∷ []
  insert_asc f r (x ∷ rs) =
      let rest = insert_asc f r rs in if ltb (f x) (f r) then x ∷ rest else r ∷ x ∷ rs

  unfoldable pub order_asc : (R → ℕ) → List R → List R
  unfolding insert_asc
  order_asc f [] = []
  order_asc f (r ∷ rs) = insert_asc f r (order_asc f rs)

  -- The value unless it passes the test.
  abbrev pub unless : (R → Bool) → Option R → Option R
  unless p none = none
  unless p (some r) = if p r then none else some r

  -- The value, changed if it passes the test.
  abbrev pub change_if : (R → Bool) → (R → R) → Option R → Option R
  change_if p f none = none
  change_if p f (some r) = some (if p r then f r else r)

-- UNION of columns of numbers, which has no duplicates.
unfoldable pub distinct : List ℕ → List ℕ
unfolding exists
distinct [] = []
distinct (x ∷ xs) =
    let rest = distinct xs in if exists (λ y. nat_beq y x) xs then rest else x ∷ rest

module _ {ℓ} {R : Type ℓ} where
  pub delete-absent : (p : R → Bool) (rs : List R) → exists p rs ≡ false → delete p rs ≡ rs
  unfolding delete exists
  delete-absent p [] h = refl
  delete-absent p (r ∷ rs) h = ground (arith, delete-absent p rs)

  pub exists-or :
      (p q : R → Bool) (rs : List R) → exists (λ r. p r || q r) rs ≡ (exists p rs || exists q rs)
  unfolding exists
  exists-or p q [] = refl
  exists-or p q (r ∷ rs) = ground (arith, exists-or p q rs)

  pub update-absent :
      (p : R → Bool) (f : R → R) (rs : List R) → exists p rs ≡ false → update p f rs ≡ rs
  unfolding update exists
  update-absent p f [] h = refl
  update-absent p f (r ∷ rs) h = ground (arith, update-absent p f rs)
