-- ===== src/Base/Ordered.antt =====
-- Tables whose rows stand in the order of a column, as the rows of an identity do.
use Prim.Native.Nat.{ℕ, zero, suc, min, ◌+◌, ◌-◌, ◌≤◌, ◌<◌}
use mathlib.Core.Logic.{inl, inr}
use mathlib.Core.Path.{◌≡◌, refl, sym, ◌∙◌, ap, subst}
use mathlib.Core.Bool.{Bool, true}
use mathlib.Core.List.{
  List, [], ◌∷◌, ◌++◌, map, reverse, reverse-cons, reverse-append, reverse-reverse,
}
use native.Mathlib.Omega.{arith}
use picasso_backend.Base.Tests.{if◌then◌else◌, leb, Bool-cases}
use picasso_backend.Base.Lists.{All, length, take, drop, length-append, length-drop}
use picasso_backend.Base.Table.{select, update, insert_desc, order_desc}

module _ {ℓ} {R : Type ℓ} (f : R → ℕ) where
  -- The column grows from row to row, from `least` on.
  abbrev pub IsAscending : ℕ → List R → Type 0
  IsAscending least [] = Unit
  IsAscending least (r ∷ rs) = (least ≤ f r) × IsAscending (suc (f r)) rs

  pub IsAscending-from :
      (low high : ℕ) (rs : List R) → low ≤ high → IsAscending high rs → IsAscending low rs
  IsAscending-from low high [] h a = tt
  IsAscending-from low high (r ∷ rs) h a = (omega (arith, h, a.0), a.1)

  pub select-IsAscending :
      (p : R → Bool) (least : ℕ) (rs : List R)
      → IsAscending least rs
      → IsAscending least (select p rs)
  unfolding select
  select-IsAscending p least [] a = tt
  select-IsAscending p least (r ∷ rs) a = ground (
    arith,
    a.0,
    select-IsAscending p (suc (f r)) rs a.1,
    IsAscending-from least (suc (f r)) (select p rs),
  )

  pub update-IsAscending :
      (p : R → Bool) (g : R → R) (least : ℕ) (rs : List R)
      → ((r : R) → f (g r) ≡ f r)
      → IsAscending least rs
      → IsAscending least (update p g rs)
  unfolding update
  update-IsAscending p g least [] same a = tt
  update-IsAscending p g least (r ∷ rs) same a =
      ground (arith, a.0, same r, update-IsAscending p g (suc (f r)) rs same a.1)

  -- No row is as late as `end`.
  abbrev pub IsBelow : ℕ → R → Type 0
  IsBelow end r = f r < end

  abbrev pub IsLater : R → R → Type 0
  IsLater r x = f r < f x

  pub snoc-IsAscending :
      (r : R) (least : ℕ) (rs : List R)
      → least ≤ f r
      → All (IsBelow (f r)) rs
      → IsAscending least rs
      → IsAscending least (rs ++ r ∷ [])
  snoc-IsAscending r least [] h b a = (h, tt)
  snoc-IsAscending r least (x ∷ rs) h b a =
      (a.0, snoc-IsAscending r (suc (f x)) rs (omega (arith, b.0)) b.1 a.1)

  IsAscending-IsLater :
      (r : R) (least : ℕ) (rs : List R) → f r < least → IsAscending least rs → All (IsLater r) rs
  IsAscending-IsLater r least [] h a = tt
  IsAscending-IsLater r least (x ∷ rs) h a =
      (omega (arith, h, a.0), IsAscending-IsLater r (suc (f x)) rs (omega (arith, h, a.0)) a.1)

  pub append-All : (P : R → Type 0) (xs ys : List R) → All P xs → All P ys → All P (xs ++ ys)
  append-All P [] ys h g = g
  append-All P (x ∷ xs) ys h g = (h.0, append-All P xs ys h.1 g)

  reverse-All : (P : R → Type 0) (xs : List R) → All P xs → All P (reverse xs)
  reverse-All P [] h = tt
  reverse-All P (x ∷ xs) h =
      rw (reverse-cons x xs) (append-All P (reverse xs) (x ∷ []) (reverse-All P xs h.1) (h.0, tt))

  insert_desc-last : (r : R) (rs : List R) → All (IsLater r) rs → insert_desc f r rs ≡ rs ++ r ∷ []
  unfolding insert_desc
  insert_desc-last r [] h = refl
  insert_desc-last r (x ∷ rs) h = ground (arith, h.0, insert_desc-last r rs h.1)

  -- ORDER BY the column DESC turns the table round.
  pub order_desc-reverse :
      (least : ℕ) (rs : List R) → IsAscending least rs → order_desc f rs ≡ reverse rs
  unfolding order_desc
  order_desc-reverse least [] a = refl
  order_desc-reverse least (r ∷ rs) a =
      ap (insert_desc f r) (order_desc-reverse (suc (f r)) rs a.1)
      ∙ insert_desc-last r (reverse rs)
          (reverse-All (IsLater r) rs (IsAscending-IsLater r (suc (f r)) rs (omega arith) a.1))
      ∙ sym (reverse-cons r rs)

module _ {ℓ} {A : Type ℓ} where
  -- The last `n` elements.
  abbrev pub last_of : ℕ → List A → List A
  last_of n xs = drop (length xs - n) xs

  pub length-reverse : (xs : List A) → length (reverse xs) ≡ length xs
  length-reverse [] = refl
  length-reverse (x ∷ xs) =
      rw (reverse-cons x xs) (omega (arith, length-append (reverse xs) (x ∷ []), length-reverse xs))

  take-snoc :
      (n : ℕ) (xs : List A) (x : A)
      → take n (xs ++ x ∷ []) ≡ (if leb n (length xs) then take n xs else xs ++ x ∷ [])
  take-snoc zero xs x = ground arith
  take-snoc (suc zero) [] x = refl
  take-snoc (suc (suc n)) [] x = ground arith
  take-snoc (suc n) (y ∷ xs) x = ground (arith, take-snoc n xs x)

  last_of-few :
      (n : ℕ) (x : A) (xs : List A) → leb n (length xs) ≡ true → last_of n (x ∷ xs) ≡ last_of n xs
  last_of-few n x xs h =
      subst (λ k. drop k (x ∷ xs) ≡ last_of n xs) {x = suc (length xs - n)} (ground (arith, h)) refl

  pub last_of-all : (n : ℕ) (xs : List A) → length xs ≤ n → last_of n xs ≡ xs
  last_of-all n xs h = subst (λ k. drop k xs ≡ xs) {x = 0} (omega (arith, h)) refl

  -- The first `n` backwards are the last `n`.
  pub reverse-take : (n : ℕ) (xs : List A) → reverse (take n (reverse xs)) ≡ last_of n xs
  reverse-take zero [] = refl
  reverse-take (suc n) [] = sym (last_of-all (suc n) [] (omega arith))
  reverse-take n (x ∷ xs) = elim (Bool-cases (leb n (length xs))) [
    | inl few ↦
        rw (reverse-cons x xs, take-snoc n (reverse xs) x, length-reverse xs, few)
          (reverse-take n xs ∙ sym (last_of-few n x xs few))
    | inr all ↦
        rw (reverse-cons x xs, take-snoc n (reverse xs) x, length-reverse xs, all)
          (reverse-append (reverse xs) (x ∷ [])
            ∙ ap (λ r. x ∷ r) (reverse-reverse xs)
            ∙ sym (last_of-all n (x ∷ xs) (ground (arith, all))))
  ]

  pub length-last_of : (n : ℕ) (xs : List A) → length (last_of n xs) ≡ min n (length xs)
  length-last_of n xs = omega (arith, length-drop (length xs - n) xs)

  drop-nil : (n : ℕ) → drop {A = A} n [] ≡ []
  drop-nil zero = refl
  drop-nil (suc n) = refl

  drop-drop : (m n : ℕ) (xs : List A) → drop m (drop n xs) ≡ drop (n + m) xs
  drop-drop m zero xs = ap (λ k. drop k xs) {x = m} (omega arith)
  drop-drop m (suc n) [] = drop-nil m ∙ sym (drop-nil (suc n + m))
  drop-drop m (suc n) (x ∷ xs) =
      drop-drop m n xs ∙ ap (λ k. drop k (x ∷ xs)) {x = suc (n + m)} (omega arith)

  -- The last of more last elements are the last.
  pub last_of-last_of : (m n : ℕ) (xs : List A) → m ≤ n → last_of m (last_of n xs) ≡ last_of m xs
  last_of-last_of m n xs h =
      drop-drop (length (last_of n xs) - m) (length xs - n) xs
      ∙ ap (λ k. drop k xs) (omega (arith, h, length-last_of n xs))

module _ {ℓ κ} {A : Type ℓ} {B : Type κ} (f : A → B) where
  map-append : (xs ys : List A) → map f (xs ++ ys) ≡ map f xs ++ map f ys
  map-append [] ys = refl
  map-append (x ∷ xs) ys = ap (λ r. f x ∷ r) (map-append xs ys)

  map-reverse : (xs : List A) → map f (reverse xs) ≡ reverse (map f xs)
  map-reverse [] = refl
  map-reverse (x ∷ xs) =
      rw (reverse-cons x xs, reverse-cons (f x) (map f xs))
        (map-append (reverse xs) (x ∷ []) ∙ ap (λ r. r ++ f x ∷ []) (map-reverse xs))

  map-drop : (n : ℕ) (xs : List A) → map f (drop n xs) ≡ drop n (map f xs)
  map-drop zero xs = refl
  map-drop (suc n) [] = refl
  map-drop (suc n) (x ∷ xs) = map-drop n xs

  length-map : (xs : List A) → length (map f xs) ≡ length xs
  length-map [] = refl
  length-map (x ∷ xs) = ap suc (length-map xs)

  -- ORDER BY ... DESC LIMIT n, turned round again.
  pub map-reverse-take :
      (n : ℕ) (xs : List A) → reverse (map f (take n (reverse xs))) ≡ last_of n (map f xs)
  map-reverse-take n xs =
      sym (map-reverse (take n (reverse xs)))
      ∙ ap (map f) (reverse-take n xs)
      ∙ map-drop (length xs - n) xs
      ∙ ap (λ k. drop (k - n) (map f xs)) (sym (length-map xs))
