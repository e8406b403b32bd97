-- ===== src/Logger/ActivityLogger/Calendar.antt =====
-- The dates in the names of the log files (src/logger/ActivityLogger.cpp, `dateStamp` and
-- `parseDateStamp`), with what they use of `std::chrono`, `snprintf` and `sscanf`.
pub mod Days
pub mod Stamps
use picasso_backend.Base.{
  ℕ, zero, suc, ◌+◌, ◌-◌, ◌*◌, ◌/◌, ◌%◌, ◌^◌, Bool, true, false, not, ◌&&◌, ◌||◌, List, [], ◌∷◌,
  ◌++◌, Option, none, some, Bytes, length, ltb, leb, nat_beq, if◌then◌else◌,
}
use picasso_backend.Base.Int.{ℤ, pos, negsuc, sub_ℕ, ltb_ℤ}
use picasso_backend.Base.Numerals.{is_digit, skip_spaces, to_string}

pub record YearMonthDay : Type 0 where
  pub year : ℤ
  pub month : ℕ
  pub day : ℕ

abbrev pub year_month_day : ℤ → ℕ → ℕ → YearMonthDay
year_month_day y m d = record { year = y; month = m; day = d }

-- The years of `std::chrono::year`, -32767 to 32767, counted from a year 82 * 400 years before 0,
-- which changes neither the leap years nor the differences of days.
abbrev pub shifted : ℤ → ℕ
shifted (pos n) = n + 32800
shifted (negsuc n) = 32800 - suc n

abbrev pub is_leap : ℕ → Bool
is_leap y = nat_beq (y % 4) 0 && (not (nat_beq (y % 100) 0) || nat_beq (y % 400) 0)

unfoldable pub days_in_month : ℕ → ℕ → ℕ
days_in_month y m =
    if nat_beq m 2
    then (if is_leap y then 29 else 28)
    else if nat_beq m 4 || nat_beq m 6 || nat_beq m 9 || nat_beq m 11
    then 30
    else 31

-- `year_month_day::ok`
unfoldable pub is_valid : YearMonthDay → Bool
is_valid d =
    leb 1 d.month
    && leb d.month 12
    && leb 1 d.day
    && leb d.day (days_in_month (shifted d.year) d.month)

unfoldable pub days_before_year : ℕ → ℕ
days_before_year y = y * 365 + (y + 3) / 4 - (y + 99) / 100 + (y + 399) / 400

-- The days of the first months of a year.
unfoldable pub days_of_months : ℕ → ℕ → ℕ
days_of_months y zero = 0
days_of_months y (suc m) = days_of_months y m + days_in_month y (suc m)

-- `sys_days`, from the first day of the shifted years on.
unfoldable pub day_number : YearMonthDay → ℕ
unfolding days_of_months days_before_year
day_number d =
    days_before_year (shifted d.year) + days_of_months (shifted d.year) (d.month - 1) + (d.day - 1)

abbrev pub zeros : ℕ → Bytes → Bytes
zeros zero text = text
zeros (suc n) text = 48 ∷ zeros n text

-- `%02u` and `%04d`
unfoldable pub padded : ℕ → ℕ → Bytes
padded width n = zeros (width - length (to_string n)) (to_string n)

abbrev pub padded_year : ℤ → Bytes
padded_year (pos n) = padded 4 n
padded_year (negsuc n) = 45 ∷ padded 3 (suc n)

unfoldable pub date_stamp : YearMonthDay → Bytes
date_stamp d = padded 2 d.month ++ (45 ∷ (padded 2 d.day ++ (45 ∷ padded_year d.year)))

-- What a conversion of `sscanf` gives, and the text after it.
abbrev pub Scan : Type 0 → Type 0
Scan A = Option (A × Bytes)

-- The digits of a number of which `value` has been read, at most `width` of them.
unfoldable pub scan_digits : ℕ → ℕ → Bytes → ℕ × Bytes
scan_digits zero value text = (value, text)
scan_digits (suc width) value [] = (value, [])
scan_digits (suc width) value (c ∷ cs) =
    let rest = scan_digits width (value * 10 + (c - 48)) cs in
    if is_digit c then rest else (value, c ∷ cs)

-- At least one digit.
unfoldable pub scan_number : ℕ → Bytes → Scan ℕ
unfolding scan_digits
scan_number zero text = none
scan_number (suc width) [] = none
scan_number (suc width) (c ∷ cs) = if is_digit c then some (scan_digits width (c - 48) cs) else none

abbrev pub signed : Bool → Scan ℕ → Scan (Bool × ℕ)
signed minus none = none
signed minus (some (n, text)) = some ((minus, n), text)

-- A sign counts for the width.
abbrev pub scan_sign : ℕ → Bytes → Scan (Bool × ℕ)
scan_sign width [] = none
scan_sign width (c ∷ cs) =
    if nat_beq c 45
    then signed true (scan_number (width - 1) cs)
    else if nat_beq c 43
    then signed false (scan_number (width - 1) cs)
    else signed false (scan_number width (c ∷ cs))

-- `%2u` into an unsigned, which is made a month or a day of 8 bits
abbrev pub to_byte : Bool × ℕ → ℕ
to_byte (minus, n) = (if minus then (2 ^ 32 - n) % 2 ^ 32 else n) % 256

-- `%4d` into an int
abbrev pub to_int : Bool × ℕ → ℤ
to_int (minus, n) = if minus then sub_ℕ 0 n else pos n

unfoldable pub scan_field : ℕ → Bytes → Scan (Bool × ℕ)
unfolding skip_spaces scan_number
scan_field width text = scan_sign width (skip_spaces text)

infixl 5 ◌>>=◌
abbrev ◌>>=◌ : {A B : Type 0} → Option A → (A → Option B) → Option B
none >>= f = none
some a >>= f = f a

abbrev pub scan_dash : Bytes → Option Bytes
scan_dash [] = none
scan_dash (c ∷ cs) = if nat_beq c 45 then some cs else none

abbrev pub checked : YearMonthDay → Option YearMonthDay
checked d = if is_valid d then some d else none

unfoldable pub parse_date_stamp : Bytes → Option YearMonthDay
parse_date_stamp stamp = do
  (month, after_month) ← scan_field 2 stamp
  month_end ← scan_dash after_month
  (day, after_day) ← scan_field 2 month_end
  day_end ← scan_dash after_day
  (year, rest) ← scan_field 4 day_end
  checked (year_month_day (to_int year) (to_byte month) (to_byte day))
