-- ===== src/Timeutil.antt =====
-- sylo/timeutil.py, and Python's `datetime` in UTC as its fields.
pub mod Order
use sylo.Base.{ℕ, ◌+◌, ◌≤◌, ◌<◌, ◌/◌, ◌%◌, [], ◌∷◌, ◌++◌}
use sylo.Text.{Text, codes}

pub record Datetime : Type 0 where
  pub year : ℕ
  pub month : ℕ
  pub day : ℕ
  pub hour : ℕ
  pub minute : ℕ
  pub second : ℕ
  pub microsecond : ℕ

-- The ranges that the fields of a `datetime` have, for a year of four digits: `%Y` pads no shorter
-- one on every platform.
pub record IsDatetime (dt : Datetime) : Type 0 where
  pub year_from : 1000 ≤ dt.year
  pub year_to : dt.year ≤ 9999
  pub month_from : 1 ≤ dt.month
  pub month_to : dt.month ≤ 12
  pub day_from : 1 ≤ dt.day
  pub day_to : dt.day ≤ 31
  pub hour_to : dt.hour ≤ 23
  pub minute_to : dt.minute ≤ 59
  pub second_to : dt.second ≤ 59
  pub microsecond_to : dt.microsecond ≤ 999999

-- Two digits in front of a text.
abbrev pub two : ℕ → Text → Text
two n rest = (48 + n / 10) ∷ (48 + n % 10) ∷ rest

-- `%Y`, `%m` and the others in front of a text.
abbrev pub four : ℕ → Text → Text
four n rest = two (n / 100) (two (n % 100) rest)

abbrev pub six : ℕ → Text → Text
six n rest = two (n / 10000) (two (n / 100 % 100) (two (n % 100) rest))

-- `%Y-%m`.
unfoldable pub month_key : Datetime → Text
month_key dt = four dt.year (b'-' ∷ two dt.month [])

-- `date.isoformat()`.
unfoldable pub date_text : Datetime → Text
date_text dt = four dt.year (b'-' ∷ two dt.month (b'-' ∷ two dt.day []))

unfoldable pub format_receipt_time : Datetime → Text
format_receipt_time dt = four dt.year (
    b'-'
    ∷ two dt.month (
        b'-'
        ∷ two dt.day (
            b'T'
            ∷ two dt.hour (
                b':'
                ∷ two dt.minute
                    (b':' ∷ two dt.second (b'.' ∷ six dt.microsecond (codes "+00:00")))))))
