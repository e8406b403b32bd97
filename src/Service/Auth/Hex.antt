-- ===== src/Service/Auth/Hex.antt =====
-- Tokens are in hexadecimal, so the prefix that clients may send is never taken from a token itself
-- (src/service/AuthService.cpp, `toHex` and `stripBearerPrefix`).
use picasso_backend.Base.{
  ℕ, zero, suc, ◌/◌, ◌≡◌, refl, false, [], ◌∷◌, ◌++◌, Bytes, codes, nat_beq, arith,
}
use picasso_backend.Base.Table.{exists}
use picasso_backend.Base.Text.{nth_code}
use picasso_backend.Service.Auth.{hex_digit, to_hex, bearer, strip_bearer_prefix}

nth_code-absent :
    (b n : ℕ) (cs : Bytes)
    → nat_beq b 0 ≡ false
    → exists (nat_beq b) cs ≡ false
    → nat_beq b (nth_code n cs) ≡ false
unfolding exists
nth_code-absent b n [] z h = z
nth_code-absent b zero (c ∷ cs) z h = ground (arith, h)
nth_code-absent b (suc n) (c ∷ cs) z h = nth_code-absent b n cs z (ground (arith, h))

hex_digit_lem : (n : ℕ) → nat_beq 66 (hex_digit n) ≡ false
unfolding exists
hex_digit_lem n = nth_code-absent 66 n (codes "0123456789abcdef") refl refl

pub strip_bearer_prefix-to_hex : (bs : Bytes) → strip_bearer_prefix (to_hex bs) ≡ to_hex bs
unfolding strip_bearer_prefix to_hex
strip_bearer_prefix-to_hex [] = refl
strip_bearer_prefix-to_hex (b ∷ bs) = rw (hex_digit_lem (b / 16)) refl

pub strip_bearer_prefix-bearer : (token : Bytes) → strip_bearer_prefix (bearer ++ token) ≡ token
unfolding strip_bearer_prefix
strip_bearer_prefix-bearer token = refl
