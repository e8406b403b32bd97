-- ===== src/Base/Numerals.antt =====
-- Numbers as text, as the C++ standard library reads and prints them: `std::to_string`,
-- `std::stoull` and `std::stoll`, on 64-bit numbers.
use Prim.Native.Nat.{ℕ, zero, suc, ◌+◌, ◌-◌, ◌*◌, ◌/◌, ◌%◌, ◌^◌, ◌<◌, ◌≤◌}
use mathlib.Core.Path.{◌≡◌, refl, subst}
use mathlib.Core.Logic.{inl, inr}
use mathlib.Core.Bool.{Bool, true, false, ◌&&◌, ◌||◌}
use mathlib.Core.Option.{Option, none, some}
use mathlib.Core.List.{[], ◌∷◌}
use native.Mathlib.Omega.{arith}
use picasso_backend.Base.Tests.{
  ltb, leb, nat_beq, if◌then◌else◌, Bool-cases, ltb→lt, lt→ltb, if_both,
}
use picasso_backend.Base.Lists.{length, is_empty}
use picasso_backend.Base.Int.{ℤ, pos, sub_ℕ}
use picasso_backend.Base.Equality.{Bytes}

abbrev pub is_digit : ℕ → Bool
is_digit c = if ltb c 48 || ltb 57 c then false else true

-- `isspace` in the C locale.
abbrev pub is_space : ℕ → Bool
is_space c = nat_beq c 32 || leb 9 c && leb c 13

abbrev pub all_digits : Bytes → Bool
all_digits [] = true
all_digits (c ∷ cs) = is_digit c && all_digits cs

-- The decimal number, in unbounded arithmetic.
abbrev pub decimal : ℕ → Bytes → ℕ
decimal value [] = value
decimal value (c ∷ cs) = decimal (value * 10 + (c - 48)) cs

abbrev pub ten_to : ℕ → ℕ
ten_to zero = 1
ten_to (suc k) = 10 * ten_to k

-- The digits of a number with at most `k` of them, in front of a text.
unfoldable pub print : ℕ → ℕ → Bytes → Bytes
print zero n text = text
print (suc k) n text =
    let rest = print k (n / 10) ((48 + n % 10) ∷ text) in
    if ltb n 10 then (48 + n % 10) ∷ text else rest

-- 20 digits are enough for 64 bits.
unfoldable pub to_string : ℕ → Bytes
unfolding print
to_string n = print 20 n []

unfoldable pub skip_spaces : Bytes → Bytes
skip_spaces [] = []
skip_spaces (c ∷ cs) = let rest = skip_spaces cs in if is_space c then rest else c ∷ cs

-- Whether there is a minus sign, and the text after the sign.
abbrev pub split_sign : Bytes → Bool × Bytes
split_sign [] = (false, [])
split_sign (c ∷ cs) =
    if nat_beq c 45 then (true, cs) else if nat_beq c 43 then (false, cs) else (false, c ∷ cs)

abbrev pub digit_prefix : Bytes → Bytes
digit_prefix [] = []
digit_prefix (c ∷ cs) = if is_digit c then c ∷ digit_prefix cs else []

-- The value of the digits after the spaces and the sign, unless there are none.
abbrev pub magnitude : Bytes → Option ℕ
magnitude [] = none
magnitude (c ∷ cs) = some (decimal 0 (c ∷ cs))

-- `none` is an exception, std::invalid_argument or std::out_of_range.
abbrev pub stoull_value : Bool → Option ℕ → Option ℕ
stoull_value minus none = none
stoull_value minus (some v) =
    if leb (2 ^ 64) v then none else some (if minus then (2 ^ 64 - v) % 2 ^ 64 else v)

abbrev pub stoll_value : Bool → Option ℕ → Option ℤ
stoll_value minus none = none
stoll_value minus (some v) =
    if minus
    then if ltb (2 ^ 63) v then none else some (sub_ℕ 0 v)
    else if leb (2 ^ 63) v
    then none
    else some (pos v)

unfoldable pub stoull : Bytes → Option ℕ
unfolding skip_spaces
stoull text =
    let (minus, rest) = split_sign (skip_spaces text) in
    stoull_value minus (magnitude (digit_prefix rest))

unfoldable pub stoll : Bytes → Option ℤ
unfolding skip_spaces
stoll text =
    let (minus, rest) = split_sign (skip_spaces text) in
    stoll_value minus (magnitude (digit_prefix rest))

decimal-print :
    (k n : ℕ) (text : Bytes) → n < ten_to k → decimal 0 (print k n text) ≡ decimal n text
unfolding print
decimal-print zero n text h =
    subst (λ m. decimal 0 text ≡ decimal m text) {x = 0} (omega (arith, h)) refl
decimal-print (suc k) n text h = elim (Bool-cases (ltb n 10)) [
  | inl small ↦
      let same : n ≡ 0 * 10 + (48 + n % 10 - 48) = omega (arith, ltb→lt n 10 small) in
      rw small (subst (λ m. decimal m text ≡ decimal n text) same refl)
  | inr big ↦
      let same : n ≡ n / 10 * 10 + (48 + n % 10 - 48) = omega arith in
      rw (big, decimal-print k (n / 10) ((48 + n % 10) ∷ text) (omega (arith, h)))
        (subst (λ m. decimal m text ≡ decimal n text) same refl)
]

all_digits-print :
    (k n : ℕ) (text : Bytes) → all_digits text ≡ true → all_digits (print k n text) ≡ true
unfolding print
all_digits-print zero n text h = h
all_digits-print (suc k) n text h =
    ground (arith, h, all_digits-print k (n / 10) ((48 + n % 10) ∷ text))

length-print :
    (k j n : ℕ) (text : Bytes) → n < ten_to (suc j) → length (print k n text) ≤ suc j + length text
unfolding print
length-print zero j n text h = omega arith
length-print (suc k) zero n text h = rw (lt→ltb n 10 (omega (arith, h))) (omega arith)
length-print (suc k) (suc j) n text h =
    if_both (λ t. length t ≤ suc (suc j) + length text) (ltb n 10) {x = (48 + n % 10) ∷ text}
      {y = print k (n / 10) ((48 + n % 10) ∷ text)} (omega arith)
      (omega (arith, length-print k j (n / 10) ((48 + n % 10) ∷ text) (omega (arith, h))))

is_empty-print :
    (k n : ℕ) (text : Bytes) → is_empty text ≡ false → is_empty (print k n text) ≡ false
unfolding print
is_empty-print zero n text h = h
is_empty-print (suc k) n text h = ground (arith, is_empty-print k (n / 10) ((48 + n % 10) ∷ text))

pub is_empty-to_string : (n : ℕ) → is_empty (to_string n) ≡ false
unfolding to_string print
is_empty-to_string n = ground (arith, is_empty-print 19 (n / 10) ((48 + n % 10) ∷ []))

pub all_digits-to_string : (n : ℕ) → all_digits (to_string n) ≡ true
unfolding to_string
all_digits-to_string n = all_digits-print 20 n [] refl

-- The fuel is enough for every 64-bit number.
pub decimal-to_string : (n : ℕ) → n < 2 ^ 64 → decimal 0 (to_string n) ≡ n
unfolding to_string
decimal-to_string n h = decimal-print 20 n [] (omega (arith, h))

pub length-to_string : (j n : ℕ) → n < ten_to (suc j) → length (to_string n) ≤ suc j
unfolding to_string
length-to_string j n h = omega (arith, length-print 20 j n [] h)

digit_prefix-all : (text : Bytes) → all_digits text ≡ true → digit_prefix text ≡ text
digit_prefix-all [] h = refl
digit_prefix-all (c ∷ cs) h = ground (arith, h, digit_prefix-all cs)

-- A text of digits has neither spaces nor a sign.
unsigned_text :
    (text : Bytes) → all_digits text ≡ true → split_sign (skip_spaces text) ≡ (false, text)
unfolding skip_spaces
unsigned_text [] h = refl
unsigned_text (c ∷ cs) h = ground (arith, h)

magnitude-digits :
    (text : Bytes)
    → is_empty text ≡ false
    → all_digits text ≡ true
    → magnitude (digit_prefix text) ≡ some (decimal 0 text)
magnitude-digits [] full h = ground (arith, full)
magnitude-digits (c ∷ cs) full h = rw (digit_prefix-all (c ∷ cs) h) refl

magnitude-to_string : (n : ℕ) → n < 2 ^ 64 → magnitude (digit_prefix (to_string n)) ≡ some n
magnitude-to_string n h =
    rw
      (
        magnitude-digits (to_string n) (is_empty-to_string n) (all_digits-to_string n),
        decimal-to_string n h,
      )
      refl

pub stoull-to_string : (n : ℕ) → n < 2 ^ 64 → stoull (to_string n) ≡ some n
unfolding stoull
stoull-to_string n h =
    rw (unsigned_text (to_string n) (all_digits-to_string n), magnitude-to_string n h)
      (ground (arith, h))

pub stoll-to_string : (n : ℕ) → n < 2 ^ 63 → stoll (to_string n) ≡ some (pos n)
unfolding stoll
stoll-to_string n h =
    rw
      (
        unsigned_text (to_string n) (all_digits-to_string n),
        magnitude-to_string n (omega (arith, h)),
      )
      (ground (arith, h))
