-- ===== src/Retention/Calendar.antt =====
-- Python's `date` for sylo/retention/core.py: days as ordinals, 1 for the first of January of the
-- year 1, by the formula of `datetime`.
pub mod Months
use sylo.Base.{
  ℕ, zero, suc, ◌+◌, ◌-◌, ◌*◌, ◌/◌, ◌%◌, ◌≤◌, ◌<◌, ◌≡◌, refl, Bool, true, false, not, ◌&&◌, ◌||◌,
  Option, none, some, arith, ◌==◌, leb, if◌then◌else◌,
}

pub record Date : Type 0 where
  pub year : ℕ
  pub month : ℕ
  pub day : ℕ

unfoldable pub is_leap : ℕ → Bool
is_leap y = y % 4 == 0 && (not (y % 100 == 0) || y % 400 == 0)

-- In a year that is not a leap year.
unfoldable pub plain_days : ℕ → ℕ
plain_days m = if m == 2 then 28 else if m == 4 || m == 6 || m == 9 || m == 11 then 30 else 31

unfoldable pub days_in_month : ℕ → ℕ → ℕ
days_in_month y m = if m == 2 && is_leap y then 29 else plain_days m

-- The days of the first months of a year that is not a leap year.
unfoldable pub days_of_months : ℕ → ℕ
days_of_months zero = 0
days_of_months (suc m) = days_of_months m + plain_days (suc m)

unfoldable pub days_before_year : ℕ → ℕ
days_before_year y = (y - 1) * 365 + (y - 1) / 4 - (y - 1) / 100 + (y - 1) / 400

unfoldable pub ordinal : Date → ℕ
ordinal t =
    let offset = days_of_months (t.month - 1) in
    days_before_year t.year
    + (if leb 3 t.month && is_leap t.year then offset + 1 else offset)
    + t.day

-- `date(year, month, day)`: `none` is its ValueError.
unfoldable pub date : ℕ → ℕ → ℕ → Option Date
date y m d =
    if leb 1 y && leb y 9999 && leb 1 m && leb m 12 && leb 1 d && leb d (days_in_month y m)
    then some (record { year = y; month = m; day = d })
    else none
