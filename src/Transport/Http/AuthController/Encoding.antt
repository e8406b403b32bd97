-- ===== src/Transport/Http/AuthController/Encoding.antt =====
-- Percent-encoding and back (src/steam/OpenIdVerifier.cpp, `percentEncode`;
-- src/transport/http/AuthController.hpp, `decodeParam`).
use picasso_backend.Base.{
  ℕ, zero, suc, ◌+◌, ◌*◌, ◌/◌, ◌%◌, ◌<◌, ◌≡◌, refl, Bool, true, false, ◌&&◌, [], ◌∷◌, Bytes,
  nat_beq, All, arith, inl, inr, Bool-cases, subst,
}
use picasso_backend.Transport.Http.AuthController.{is_xdigit, xdigit_value, decode}
use picasso_backend.Steam.OpenId.{upper_hex, is_unreserved, percent_encode}

-- Whether a test holds of every number below a bound.
abbrev all_below : ℕ → (ℕ → Bool) → Bool
all_below zero p = true
all_below (suc k) p = p k && all_below k p

all_below_lem : (k : ℕ) (p : ℕ → Bool) → all_below k p ≡ true → (n : ℕ) → n < k → p n ≡ true
all_below_lem zero p h n b = ground (arith, b)
all_below_lem (suc k) p h n b = elim (Bool-cases (nat_beq n k)) [
  | inl same ↦ subst (λ j. p j ≡ true) {x = k} (ground (arith, same)) (ground (arith, h))
  | inr less ↦ all_below_lem k p (ground (arith, h)) n (ground (arith, less, b))
]

abbrev is_read : ℕ → Bool
is_read n = is_xdigit (upper_hex n) && nat_beq (xdigit_value (upper_hex n)) n

upper_hex_lem :
    (n : ℕ) → n < 16 → (is_xdigit (upper_hex n) ≡ true) × (xdigit_value (upper_hex n) ≡ n)
upper_hex_lem n h =
    let t = all_below_lem 16 is_read refl n h in ((ground (arith, t)), (ground (arith, t)))

decode-plain : (c : ℕ) (text : Bytes) → nat_beq c 37 ≡ false → decode (c ∷ text) ≡ c ∷ decode text
unfolding decode
decode-plain c [] h = refl
decode-plain c (a ∷ []) h = refl
decode-plain c (a ∷ b ∷ rest) h = ground (arith, h)

-- What is percent-encoded into the login URL is read back unchanged from the query,
-- for texts of bytes.
pub decode-percent_encode :
    (text : Bytes) → All (λ c. c < 256) text → decode (percent_encode text) ≡ text
unfolding percent_encode decode
decode-percent_encode [] h = refl
decode-percent_encode (c ∷ cs) (b, bs) = elim (Bool-cases (is_unreserved c)) [
  | inl plain ↦
      rw
        (
          plain,
          decode-plain c (percent_encode cs) (ground (arith, plain)),
          decode-percent_encode cs bs,
        )
        refl
  | inr escaped ↦
      let (ok₁, v₁) = upper_hex_lem (c / 16) (omega (arith, b)) in
      let (ok₂, v₂) = upper_hex_lem (c % 16) (omega arith) in
      let whole : 16 * (c / 16) + c % 16 ≡ c = omega arith in
      rw (escaped, ok₁, ok₂, v₁, v₂, whole, decode-percent_encode cs bs) refl
]
