-- ===== src/Base/Table/Constraint.antt =====
-- What keeps the PRIMARY KEY constraint.
use picasso_backend.Base.Equality.{Eq, ◌==◌}
use mathlib.Core.Path.{◌≡◌, refl}
use mathlib.Core.Bool.{Bool}
use mathlib.Core.Option.{none}
use mathlib.Core.List.{List, [], ◌∷◌, ◌++◌}
use native.Mathlib.Omega.{arith}
use picasso_backend.Base.Table.Queries.{delete, update}
use picasso_backend.Base.Table.Keyed.{
  find_by, IsKeyed, insert_or_ignore, upsert, exists-key, find_by-snoc, find_by-delete,
  find_by-update,
}

module _ {ℓ κ} {R : Type ℓ} {K : Type κ} ⦃e : Eq K⦄ (key : R → K) where
  pub delete-IsKeyed : (p : R → Bool) (rs : List R) → IsKeyed key rs → IsKeyed key (delete p rs)
  unfolding delete
  delete-IsKeyed p [] u = tt
  delete-IsKeyed p (r ∷ rs) u =
      ground (arith, find_by-delete key (key r) p rs u.1, delete-IsKeyed p rs u.1)

  pub update-IsKeyed :
      (p : R → Bool) (f : R → R) (rs : List R)
      → ((x : R) → key (f x) ≡ key x)
      → IsKeyed key rs
      → IsKeyed key (update p f rs)
  unfolding update
  update-IsKeyed p f [] same u = tt
  update-IsKeyed p f (r ∷ rs) same u =
      ground (arith, same r, find_by-update key (key r) p f rs same, update-IsKeyed p f rs same)

  pub snoc-IsKeyed :
      (r : R) (rs : List R)
      → find_by key (key r) rs ≡ none
      → IsKeyed key rs
      → IsKeyed key (rs ++ r ∷ [])
  unfolding find_by
  snoc-IsKeyed r [] h u = (refl, tt)
  snoc-IsKeyed r (x ∷ rs) h u = ground (
    arith,
    find_by-snoc key (key x) r rs,
    e.beq_iff (key r) (key x),
    e.beq_iff (key x) (key r),
    snoc-IsKeyed r rs,
  )

  pub insert_or_ignore-IsKeyed :
      (r : R) (rs : List R) → IsKeyed key rs → IsKeyed key (insert_or_ignore key r rs)
  unfolding insert_or_ignore
  insert_or_ignore-IsKeyed r rs u = ground (arith, exists-key key (key r) rs, snoc-IsKeyed r rs)

  pub upsert-IsKeyed :
      (r : R) (f : R → R) (rs : List R)
      → ((x : R) → key (f x) ≡ key x)
      → IsKeyed key rs
      → IsKeyed key (upsert key r f rs)
  unfolding upsert
  upsert-IsKeyed r f rs same u = ground (
    arith,
    exists-key key (key r) rs,
    snoc-IsKeyed r rs,
    update-IsKeyed (λ x. key x == key r) f rs same,
  )
