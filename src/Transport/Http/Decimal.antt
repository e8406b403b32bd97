-- ===== src/Transport/Http/Decimal.antt =====
-- What a number in a text is (src/transport/http/HttpSupport.hpp, `parseUnsigned`).
use picasso_backend.Base.{
  ℕ, zero, suc, ◌+◌, ◌-◌, ◌*◌, ◌%◌, ◌^◌, ◌<◌, ◌≤◌, ◌≡◌, refl, true, not, ◌||◌, [], ◌∷◌, none, some,
  Bytes, length, is_empty, ltb, subst, if◌then◌else◌, arith, Bool-cases, inl, inr,
}
use picasso_backend.Base.Numerals.{
  is_digit, all_digits, decimal, ten_to, to_string, is_empty-to_string, all_digits-to_string,
  decimal-to_string, length-to_string,
}
use picasso_backend.Transport.Http.{parse_digits, parse_unsigned}

ten_to_bound : (m k : ℕ) → m + k ≡ 19 → ten_to k ≤ 10_000_000_000_000_000_000
ten_to_bound zero k h =
    subst (λ j. ten_to j ≤ 10_000_000_000_000_000_000) {x = 19} (omega (arith, h)) (omega arith)
ten_to_bound (suc m) k h = omega (arith, ten_to_bound m (suc k) (omega (arith, h)))

no_wrap :
    (value c k : ℕ)
    → value < ten_to k
    → suc k ≤ 19
    → is_digit c ≡ true
    → ((value * 10 % 2 ^ 64 + (c - 48)) % 2 ^ 64 ≡ value * 10 + (c - 48))
      × (value * 10 + (c - 48) < ten_to (suc k))
no_wrap value c k h b d =
    let digit : c ≤ 57 = ground (arith, d) in
    let small = ten_to_bound (18 - k) (suc k) (omega (arith, b)) in
    (omega (arith, h, digit, small), omega (arith, h, digit))

parse_digits_lem :
    (value k : ℕ) (text : Bytes)
    → value < ten_to k
    → k + length text ≤ 19
    → parse_digits value text ≡ (if all_digits text then some (decimal value text) else none)
unfolding parse_digits
parse_digits_lem value k [] h b = refl
parse_digits_lem value k (c ∷ cs) h b = elim (Bool-cases (is_digit c)) [
  | inl digit ↦
      let (same, small) = no_wrap value c k h (omega (arith, b)) digit in
      let rest = parse_digits_lem (value * 10 + (c - 48)) (suc k) cs small (omega (arith, b)) in
      rw (digit, same) rest
  | inr other ↦ rw other refl
]

-- A text is a number exactly if it has 1 to 19 characters which are all digits. Then the result is
-- the exact decimal value: the 64-bit arithmetic never wraps.
pub parse_unsigned_lem :
    (text : Bytes)
    → parse_unsigned text ≡ (
        if is_empty text || ltb 19 (length text) || not (all_digits text)
        then none
        else some (decimal 0 text))
unfolding parse_unsigned
parse_unsigned_lem text = elim (Bool-cases (ltb 19 (length text))) [
  | inl long ↦ ground (arith, long)
  | inr short ↦
      ground (arith, short, parse_digits_lem 0 0 text (omega arith) (ground (arith, short)))
]

-- The path parameter that the server prints for an id below 10 ^ 19 is read back as that id.
pub parse_unsigned-to_string :
    (n : ℕ) → n < 10_000_000_000_000_000_000 → parse_unsigned (to_string n) ≡ some n
parse_unsigned-to_string n h =
    let short = length-to_string 18 n (omega (arith, h)) in
    rw
      (
        parse_unsigned_lem (to_string n),
        is_empty-to_string n,
        all_digits-to_string n,
        decimal-to_string n (omega (arith, h)),
      )
      (ground (arith, short))
