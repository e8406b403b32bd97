-- ===== src/Base/Text.antt =====
-- Searching in texts, as `std::string` does, and the letters of ASCII.
use Prim.Native.Nat.{ℕ, zero, suc}
use mathlib.Core.Bool.{Bool, true, false, ◌&&◌, ◌||◌}
use mathlib.Core.Option.{Option, none, some}
use mathlib.Core.List.{[], ◌∷◌}
use picasso_backend.Base.Tests.{leb, ltb, nat_beq, if◌then◌else◌}
use picasso_backend.Base.Equality.{Bytes}

-- `text[n]`, for n below the length.
abbrev pub nth_code : ℕ → Bytes → ℕ
nth_code n [] = 0
nth_code zero (c ∷ cs) = c
nth_code (suc n) (c ∷ cs) = nth_code n cs

abbrev pub starts_with : Bytes → Bytes → Bool
starts_with [] text = true
starts_with (p ∷ ps) [] = false
starts_with (p ∷ ps) (c ∷ cs) = nat_beq p c && starts_with ps cs

-- `text.find(part) != npos`
abbrev pub contains : Bytes → Bytes → Bool
contains part [] = starts_with part []
contains part (c ∷ cs) = starts_with part (c ∷ cs) || contains part cs

abbrev pub one_more : Option ℕ → Option ℕ
one_more none = none
one_more (some i) = some (suc i)

-- `text.find(part)`
unfoldable pub find : Bytes → Bytes → Option ℕ
find part [] = if starts_with part [] then some 0 else none
find part (c ∷ cs) = if starts_with part (c ∷ cs) then some 0 else one_more (find part cs)

-- `text.find(c, from)`
unfoldable pub find_code : ℕ → ℕ → Bytes → Option ℕ
find_code c from [] = none
find_code c (suc from) (x ∷ xs) = one_more (find_code c from xs)
find_code c zero (x ∷ xs) = if nat_beq x c then some 0 else one_more (find_code c zero xs)

-- `text.rfind(c, upto)`, the last occurrence at `upto` or before.
unfoldable pub rfind_code : ℕ → ℕ → Bytes → Option ℕ
rfind_code c upto [] = none
rfind_code c zero (x ∷ xs) = if nat_beq x c then some 0 else none
rfind_code c (suc upto) (x ∷ xs) = elim (rfind_code c upto xs) [
  | some i ↦ some (suc i)
  | none ↦ if nat_beq x c then some 0 else none
]

-- What is after the last occurrence of a character.
abbrev pub after_last : ℕ → Bytes → Option Bytes
after_last c [] = none
after_last c (x ∷ xs) = elim (after_last c xs) [
  | some rest ↦ some rest
  | none ↦ if nat_beq x c then some xs else none
]

-- `isalnum` in the C locale.
abbrev pub is_alnum : ℕ → Bool
is_alnum c = leb 48 c && leb c 57 || leb 65 c && leb c 90 || leb 97 c && leb c 122

-- The lexicographic order of `std::string`.
abbrev pub text_ltb : Bytes → Bytes → Bool
text_ltb [] [] = false
text_ltb [] (y ∷ ys) = true
text_ltb (x ∷ xs) [] = false
text_ltb (x ∷ xs) (y ∷ ys) = if ltb x y then true else if ltb y x then false else text_ltb xs ys
