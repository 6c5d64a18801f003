-- ===== src/Retention.antt =====
-- sylo/retention/core.py: the ends of the months and the months that are too old; Delete has the
-- deletions and Run the pass, on the names of the files. `int` is an argument. `none` is an exception,
-- which ends the pass with what it has deleted.
pub mod Calendar
pub mod Delete
pub mod Run
pub mod Kept
pub mod Gone
pub mod Dropped
pub mod Complete
pub mod Expired
pub mod Pass
pub mod Main
pub mod Loop
use sylo.Base.{
  ℕ, zero, suc, ◌+◌, ◌-◌, Bool, true, false, not, ◌&&◌, List, [], ◌∷◌, ◌++◌, map, Option, none,
  some, ◌>>=◌, ◌==◌, ltb, leb, if◌then◌else◌, length, take, drop, keep,
}
use sylo.Text.{Text, text_eq, text_lt, codes}
use sylo.Timeutil.{four, two}
use sylo.Sort.{sort_desc}
use sylo.AppDb.{AppDb, init_db, get_setting, retention_days_key, default_retention}
use sylo.Retention.Calendar.{Date, date, ordinal}

pub data ℤ : Type 0 where
  pos : ℕ → ℤ
  negsuc : ℕ → ℤ

-- `month_key.split("-")`.
abbrev push_piece : ℕ → List Text → List Text
push_piece c [] = (c ∷ []) ∷ []
push_piece c (p ∷ ps) = (c ∷ p) ∷ ps

unfoldable pub split_dash : Text → List Text
split_dash [] = [] ∷ []
split_dash (c ∷ cs) = let rest = split_dash cs in if c == b'-' then [] ∷ rest else push_piece c rest

-- No negative number is a part of a date.
abbrev pub natural : ℤ → Option ℕ
natural (pos n) = some n
natural (negsuc n) = none

-- `date - timedelta(days=1)`, as an ordinal.
abbrev pub day_before : Date → Option ℕ
day_before t = if leb 2 (ordinal t) then some (ordinal t - 1) else none

abbrev pub december_end : ℕ → Option ℕ
december_end y = do t ← date y 12 31; some (ordinal t)

abbrev pub earlier_end : ℕ → ℕ → Option ℕ
earlier_end y m = do t ← date y (m + 1) 1; day_before t

abbrev pub end_of : ℕ → ℕ → Option ℕ
end_of y m = if m == 12 then december_end y else earlier_end y m

-- `%Y-%m` of a date.
abbrev pub key_of : Date → Text
key_of t = four t.year (b'-' ∷ two t.month [])

-- `today - timedelta(days=n)`, as an ordinal: `none` is the OverflowError.
unfoldable pub cutoff : Date → ℤ → Option ℕ
cutoff today (pos n) = if ltb n (ordinal today) then some (ordinal today - n) else none
cutoff today (negsuc n) =
    let later = ordinal today + n + 1 in if leb later 3652059 then some later else none

module _ (parse_int : Text → Option ℤ) where
  abbrev pub parts_end : List Text → Option ℕ
  parts_end (y ∷ m ∷ []) = do
    year ← parse_int y
    month ← parse_int m
    y_number ← natural year
    m_number ← natural month
    end_of y_number m_number
  parts_end ps = none

  -- `_month_end`, as an ordinal.
  unfoldable pub month_end : Text → Option ℕ
  month_end key = parts_end (split_dash key)

  abbrev pub add_if : Bool → Text → Option (List Text) → Option (List Text)
  add_if old key none = none
  add_if old key (some keys) = some (if old then key ∷ keys else keys)

  abbrev pub check_end : ℕ → Text → Option ℕ → Option (List Text) → Option (List Text)
  check_end limit key none rest = none
  check_end limit key (some last) rest = add_if (ltb last limit) key rest

  -- The loop of `_expired_month_keys`.
  unfoldable pub expired_of : ℕ → Text → List Text → Option (List Text)
  expired_of limit current [] = some []
  expired_of limit current (key ∷ keys) =
      let rest = expired_of limit current keys in
      if text_eq key current then rest else check_end limit key (month_end key) rest

-- The part before a suffix that the text ends in.
unfoldable pub without_suffix : Text → Text → Option Text
without_suffix suffix t =
    let n = length t - length suffix in
    if leb (length suffix) (length t) && text_eq (drop n t) suffix then some (take n t) else none

abbrev pub add_stem : Option Text → List Text → List Text
add_stem none stems = stems
add_stem (some s) stems = if length s == 7 then s ∷ stems else stems

unfoldable pub stems_of : List Text → List Text
stems_of [] = []
stems_of (name ∷ names) = add_stem (without_suffix (codes ".sqlite3") name) (stems_of names)

-- `sorted`: the smallest first.
unfoldable pub available_month_keys : Option (List Text) → List Text
available_month_keys none = []
available_month_keys (some names) = sort_desc (λ s t. text_lt t s) (stems_of names)
