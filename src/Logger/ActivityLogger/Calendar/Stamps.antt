-- ===== src/Logger/ActivityLogger/Calendar/Stamps.antt =====
-- The date in the name of a log file is read back (src/logger/ActivityLogger.cpp, `dateStamp` and
-- `parseDateStamp`).
use picasso_backend.Base.{
  ℕ, suc, ◌+◌, ◌-◌, ◌*◌, ◌/◌, ◌%◌, ◌≤◌, ◌<◌, ◌≡◌, refl, ◌∙◌, true, false, [], ◌∷◌, some, Bytes, ltb,
  arith, inl, inr, Bool-cases, lt→ltb,
}
use picasso_backend.Base.Numerals.{to_string, print, is_digit}
use picasso_backend.Logger.ActivityLogger.Calendar.{
  is_valid, days_in_month, padded, date_stamp, scan_digits, scan_number, signed, scan_field,
  parse_date_stamp,
}
use picasso_backend.Logger.ActivityLogger.Calendar.Days.{date_of, IsDate, days_in_month-shifted}

print-last : (k n : ℕ) (text : Bytes) → n < 10 → print (suc k) n text ≡ (48 + n % 10) ∷ text
unfolding print
print-last k n text h = rw (lt→ltb n 10 h) refl

print-more :
    (k n : ℕ) (text : Bytes)
    → 10 ≤ n
    → print (suc k) n text ≡ print k (n / 10) ((48 + n % 10) ∷ text)
unfolding print
print-more k n text h = ground arith

-- The digits of a number of two and of four digits, with zeros in front.
abbrev two : ℕ → Bytes → Bytes
two n text = (48 + n / 10 % 10) ∷ (48 + n % 10) ∷ text

abbrev four : ℕ → Bytes → Bytes
four n text = (48 + n / 1000 % 10) ∷ (48 + n / 100 % 10) ∷ two n text

to_string-print : (n : ℕ) → to_string n ≡ print 20 n []
unfolding to_string
to_string-print n = refl

-- The digits that are printed, by how many there are.
one_digit : (n : ℕ) → n < 10 → to_string n ≡ (48 + n % 10) ∷ []
one_digit n h = to_string-print n ∙ print-last 19 n [] h

two_digits : (n : ℕ) → 10 ≤ n → n < 100 → to_string n ≡ two n []
two_digits n least most =
    rw
      (
        to_string-print n,
        print-more 19 n [] least,
        print-last 18 (n / 10) ((48 + n % 10) ∷ []) (omega arith),
      )
      refl

three_digits : (n : ℕ) → 100 ≤ n → n < 1000 → to_string n ≡ (48 + n / 100 % 10) ∷ two n []
three_digits n least most =
    let hundreds : n / 10 / 10 ≡ n / 100 = omega arith in
    rw
      (
        to_string-print n,
        print-more 19 n [] (omega arith),
        print-more 18 (n / 10) ((48 + n % 10) ∷ []) (omega arith),
        print-last 17 (n / 10 / 10) (two n []) (omega arith),
        hundreds,
      )
      refl

four_digits : (n : ℕ) → 1000 ≤ n → n < 10000 → to_string n ≡ four n []
four_digits n least most =
    let hundreds : n / 10 / 10 ≡ n / 100 = omega arith in
    let thousands : n / 100 / 10 ≡ n / 1000 = omega arith in
    rw
      (
        to_string-print n,
        print-more 19 n [] (omega arith),
        print-more 18 (n / 10) ((48 + n % 10) ∷ []) (omega arith),
        print-more 17 (n / 10 / 10) (two n []) (omega arith),
        hundreds,
        print-last 16 (n / 100 / 10) ((48 + n / 100 % 10) ∷ two n []) (omega arith),
        thousands,
      )
      refl

padded-two : (n : ℕ) → n < 100 → padded 2 n ≡ two n []
unfolding padded
padded-two n h = elim (Bool-cases (ltb n 10)) [
  | inl one ↦
      let zero_ten : n / 10 % 10 ≡ 0 = ground (arith, one) in
      rw (one_digit n (ground (arith, one)), zero_ten) refl
  | inr more ↦ rw (two_digits n (ground (arith, more)) h) refl
]

padded-four : (n : ℕ) → n < 10000 → padded 4 n ≡ four n []
unfolding padded
padded-four n h = elim (Bool-cases (ltb n 10)) [
  | inl one ↦
      let a : n / 10 % 10 ≡ 0 = ground (arith, one) in
      let b : n / 100 % 10 ≡ 0 = ground (arith, one) in
      let c : n / 1000 % 10 ≡ 0 = ground (arith, one) in
      rw (one_digit n (ground (arith, one)), a, b, c) refl
  | inr ten ↦ elim (Bool-cases (ltb n 100)) [
    | inl two_only ↦
        let b : n / 100 % 10 ≡ 0 = ground (arith, two_only) in
        let c : n / 1000 % 10 ≡ 0 = ground (arith, two_only) in
        rw (two_digits n (ground (arith, ten)) (ground (arith, two_only)), b, c) refl
    | inr hundred ↦ elim (Bool-cases (ltb n 1000)) [
      | inl three_only ↦
          let c : n / 1000 % 10 ≡ 0 = ground (arith, three_only) in
          rw (three_digits n (ground (arith, hundred)) (ground (arith, three_only)), c) refl
      | inr thousand ↦ rw (four_digits n (ground (arith, thousand)) h) refl
    ]
  ]
]

digit : (d : ℕ) → d < 10 → (is_digit (48 + d) ≡ true) × (48 + d - 48 ≡ d)
digit d h = (ground arith, omega arith)

scan_field-digit :
    (width d : ℕ) (text : Bytes)
    → d < 10
    → scan_field width ((48 + d) ∷ text) ≡ signed false (scan_number width ((48 + d) ∷ text))
unfolding scan_field
scan_field-digit width d text h = ground arith

scan_digits-digit :
    (width value d : ℕ) (text : Bytes)
    → d < 10
    → scan_digits (suc width) value ((48 + d) ∷ text) ≡ scan_digits width (value * 10 + d) text
unfolding scan_digits
scan_digits-digit width value d text h = rw ((digit d h).0, (digit d h).1) refl

scan_number-digit :
    (width d : ℕ) (text : Bytes)
    → d < 10
    → scan_number (suc width) ((48 + d) ∷ text) ≡ some (scan_digits width d text)
unfolding scan_number
scan_number-digit width d text h = rw ((digit d h).0, (digit d h).1) refl

scan_two : (n : ℕ) (text : Bytes) → n < 100 → scan_field 2 (two n text) ≡ some ((false, n), text)
unfolding scan_digits
scan_two n text h =
    let value : n / 10 % 10 * 10 + n % 10 ≡ n = omega arith in
    rw
      (
        scan_field-digit 2 (n / 10 % 10) ((48 + n % 10) ∷ text) (omega arith),
        scan_number-digit 1 (n / 10 % 10) ((48 + n % 10) ∷ text) (omega arith),
        scan_digits-digit 0 (n / 10 % 10) (n % 10) text (omega arith),
        value,
      )
      refl

scan_four :
    (n : ℕ) (text : Bytes) → n < 10000 → scan_field 4 (four n text) ≡ some ((false, n), text)
unfolding scan_digits
scan_four n text h =
    let a = n / 1000 % 10 in
    let b = n / 100 % 10 in
    let c = n / 10 % 10 in
    let d = n % 10 in
    let value : ((a * 10 + b) * 10 + c) * 10 + d ≡ n = omega arith in
    rw
      (
        scan_field-digit 4 a ((48 + b) ∷ two n text) (omega arith),
        scan_number-digit 3 a ((48 + b) ∷ two n text) (omega arith),
        scan_digits-digit 2 a b (two n text) (omega arith),
        scan_digits-digit 1 (a * 10 + b) c ((48 + d) ∷ text) (omega arith),
        scan_digits-digit 0 ((a * 10 + b) * 10 + c) d text (omega arith),
        value,
      )
      refl

days_in_month_most : (y m : ℕ) → days_in_month y m ≤ 31
unfolding days_in_month
days_in_month_most y m = ground arith

date-is_valid : (t : ℕ × ℕ × ℕ) → IsDate t → is_valid (date_of t) ≡ true
unfolding is_valid
date-is_valid (y, m, d) v = rw (days_in_month-shifted y m) (ground arith)

-- The stamp of a date from the year 0 to 9999 is read back as that date.
pub parse_date_stamp-date_stamp :
    (t : ℕ × ℕ × ℕ)
    → IsDate t
    → t.0 < 10000
    → parse_date_stamp (date_stamp (date_of t)) ≡ some (date_of t)
unfolding parse_date_stamp date_stamp
parse_date_stamp-date_stamp (y, m, d) v year =
    let month_fits : m % 256 ≡ m = omega arith in
    let day_bound : days_in_month y m ≤ 31 = days_in_month_most y m in
    let day_fits : d % 256 ≡ d = omega arith in
    rw
      (
        padded-two m (omega arith),
        padded-two d (omega arith),
        padded-four y year,
        scan_two m (45 ∷ two d (45 ∷ four y [])) (omega arith),
        scan_two d (45 ∷ four y []) (omega arith),
        scan_four y [] year,
        month_fits,
        day_fits,
        date-is_valid (y, m, d) v,
      )
      refl
