-- ===== src/Logger/ActivityLogger/Calendar/Days.antt =====
-- The number of a day counts the days of the calendar (src/logger/ActivityLogger.cpp,
-- `purgeOldFiles`).
use picasso_backend.Base.{
  ℕ, zero, suc, ◌+◌, ◌-◌, ◌%◌, ◌≤◌, ◌≡◌, refl, ltb, if◌then◌else◌, arith, inl, inr, Bool-cases,
}
use picasso_backend.Base.Int.{pos}
use picasso_backend.Logger.ActivityLogger.Calendar.{
  YearMonthDay, year_month_day, is_leap, days_in_month, days_before_year, days_of_months,
  day_number,
}

-- A date from the year 0 on.
abbrev pub date : ℕ → ℕ → ℕ → YearMonthDay
date y = year_month_day (pos y)

-- The day after a date.
abbrev pub tomorrow : ℕ × ℕ × ℕ → ℕ × ℕ × ℕ
tomorrow (y, m, d) =
    if ltb d (days_in_month y m)
    then (y, m, suc d)
    else if ltb m 12
    then (y, suc m, 1)
    else (suc y, 1, 1)

abbrev pub date_of : ℕ × ℕ × ℕ → YearMonthDay
date_of (y, m, d) = date y m d

-- Some days after a date.
unfoldable pub days_after : ℕ → ℕ × ℕ × ℕ → ℕ × ℕ × ℕ
days_after zero t = t
days_after (suc k) t = tomorrow (days_after k t)

pub days_in_month-shifted : (y m : ℕ) → days_in_month (y + 32800) m ≡ days_in_month y m
unfolding days_in_month
days_in_month-shifted y m =
    let a : (y + 32800) % 4 ≡ y % 4 = omega arith in
    let b : (y + 32800) % 100 ≡ y % 100 = omega arith in
    let c : (y + 32800) % 400 ≡ y % 400 = omega arith in rw (a, b, c) refl

abbrev days_in_year : ℕ → ℕ
days_in_year y = if is_leap y then 366 else 365

days_before_year-suc : (y : ℕ) → days_before_year (suc y) ≡ days_before_year y + days_in_year y
unfolding days_before_year
days_before_year-suc y = ground arith

days_of_year : (y m : ℕ) → m ≡ 12 → days_of_months y m ≡ days_in_year y
unfolding days_of_months days_in_month
days_of_year y m december = elim (Bool-cases (is_leap y)) [
  | inl leap ↦ rw (december, leap) refl
  | inr common ↦ rw (december, common) refl
]

pub record IsDate (t : ℕ × ℕ × ℕ) : Type 0 where
  pub month_least : 1 ≤ t.1
  pub month_most : t.1 ≤ 12
  pub day_least : 1 ≤ t.2
  pub day_most : t.2 ≤ days_in_month t.0 t.1

days_in_month_least : (y m : ℕ) → 1 ≤ days_in_month y m
unfolding days_in_month
days_in_month_least y m = ground arith

tomorrow-IsDate : (t : ℕ × ℕ × ℕ) → IsDate t → IsDate (tomorrow t)
tomorrow-IsDate (y, m, d) v = elim (Bool-cases (ltb d (days_in_month y m))) [
  | inl inside ↦ rw inside (ground (arith, inside))
  | inr last ↦ elim (Bool-cases (ltb m 12)) [
    | inl more ↦ rw (last, more) (ground (arith, more, days_in_month_least y (suc m)))
    | inr end ↦ rw (last, end) (ground (arith, days_in_month_least (suc y) 1))
  ]
]

pub days_after-IsDate : (k : ℕ) (t : ℕ × ℕ × ℕ) → IsDate t → IsDate (days_after k t)
unfolding days_after
days_after-IsDate zero t v = v
days_after-IsDate (suc k) t v = tomorrow-IsDate (days_after k t) (days_after-IsDate k t v)

days_of_months-last :
    (y m : ℕ) → 1 ≤ m → days_of_months y m ≡ days_of_months y (m - 1) + days_in_month y m
unfolding days_of_months
days_of_months-last y zero h = absurd (omega arith)
days_of_months-last y (suc m) h = let before : suc m - 1 ≡ m = omega arith in rw before refl

day_number-tomorrow :
    (t : ℕ × ℕ × ℕ) → IsDate t → day_number (date_of (tomorrow t)) ≡ suc (day_number (date_of t))
unfolding day_number days_of_months
day_number-tomorrow (y, m, d) v = elim (Bool-cases (ltb d (days_in_month y m))) [
  | inl inside ↦ rw inside (ground arith)
  | inr last ↦
      let full : d ≡ days_in_month (y + 32800) m =
        rw (days_in_month-shifted y m) (ground (arith, last)) in
      elim (Bool-cases (ltb m 12)) [
        | inl more ↦
            let here : suc m - 1 ≡ m = omega arith in
            rw (last, more, here, days_of_months-last (y + 32800) m v.month_least)
              (omega (arith, full))
        | inr end ↦
            let december : m ≡ 12 = ground (arith, end) in
            let next : suc y + 32800 ≡ suc (y + 32800) = omega arith in
            let none_yet : days_of_months (suc (y + 32800)) 0 ≡ 0 = refl in
            rw (last, end, next, none_yet)
              (omega (
                arith,
                full,
                december,
                days_before_year-suc (y + 32800),
                days_of_year (y + 32800) m december,
                days_of_months-last (y + 32800) m v.month_least,
              ))
      ]
]

-- The number of a day counts days: so many days later it is greater by as many.
pub day_number-days_after :
    (k : ℕ) (t : ℕ × ℕ × ℕ)
    → IsDate t
    → day_number (date_of (days_after k t)) ≡ day_number (date_of t) + k
unfolding days_after
day_number-days_after zero t v = omega arith
day_number-days_after (suc k) t v = omega (
  arith,
  day_number-tomorrow (days_after k t) (days_after-IsDate k t v),
  day_number-days_after k t v,
)
