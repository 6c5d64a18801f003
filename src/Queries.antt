-- ===== src/Queries.antt =====
-- sylo/webapp/queries.py: the search over the months' databases and the list of devices. What SQLite
-- leaves open is an argument: which rows a full-text query finds, and the order of rows with equal
-- receipt times. The directory of the index is the dictionary of its databases by month.
pub mod Paging
pub mod Browse
pub mod Months
pub mod Devices
pub mod Totals
use sylo.Base.{
  ℕ, zero, suc, ◌+◌, ◌≡◌, Bool, true, false, not, ◌&&◌, ◌||◌, List, [], ◌∷◌, ◌++◌, map, Option,
  none, some, ◌>>=◌, ◌==◌, ltb, if◌then◌else◌, length, take, drop, keep, has,
}
use sylo.Text.{Text, text_eq, text_lt}
use sylo.Schema.{Row, MonthDb}
use sylo.Dict.{Dict, get}
use sylo.Sort.{sort_desc}
use sylo.Sort.Merge.{IsDescending}
use sylo.Sort.Order.{SameElements}

-- A row with its id.
pub record Message : Type 0 where
  pub id : ℕ
  pub row : Row

unfoldable pub number_from : ℕ → List Row → List Message
number_from n [] = []
number_from n (r ∷ rs) = record { id = n; row = r } ∷ number_from (suc n) rs

abbrev pub messages_of : MonthDb → List Message
messages_of db = number_from 1 db.messages

abbrev pub earlier : Message → Message → Bool
earlier a b = text_lt a.row.receipt_time b.row.receipt_time

-- SQLite: `none` is its OperationalError for a query that FTS5 cannot read. `ORDER BY receipt_time
-- DESC` returns the rows of the result in descending order.
pub record Sqlite : Type 0 where
  pub fts_match : MonthDb → Text → Option (Message → Bool)
  pub order_rows : MonthDb → List Message → List Message
  pub same_rows : (db : MonthDb) (ms : List Message) → SameElements (order_rows db ms) ms
  pub descending : (db : MonthDb) (ms : List Message) → IsDescending earlier (order_rows db ms)

-- No host is the same as an empty list of hosts.
pub record MessageFilter : Type 0 where
  pub host : List Text
  pub severity : Option ℕ
  pub facility : Option ℕ
  pub start : Option Text
  pub end : Option Text
  pub text : Option Text
  pub malformed_only : Bool

pub record SearchResult : Type 0 where
  pub rows : List Message
  pub has_more : Bool

abbrev is_month_stem : Text × MonthDb → Bool
is_month_stem (stem, db) = length stem == 7

abbrev stem : Text × MonthDb → Text
stem (name, db) = name

-- The newest month first.
unfoldable pub available_month_keys : Dict MonthDb → List Text
available_month_keys index = sort_desc text_lt (map stem (keep is_month_stem index))

-- `filt.start[:7] if filt.start else None`.
abbrev pub bound_key : Option Text → Option Text
bound_key none = none
bound_key (some []) = none
bound_key (some (c ∷ cs)) = some (take 7 (c ∷ cs))

-- A bound that is missing holds.
abbrev pub from_key : Option Text → Text → Bool
from_key none t = true
from_key (some start) t = not (text_lt t start)

abbrev pub to_key : Option Text → Text → Bool
to_key none t = true
to_key (some end) t = not (text_lt end t)

abbrev pub in_range : MessageFilter → Text → Bool
in_range filt key = from_key (bound_key filt.start) key && to_key (bound_key filt.end) key

abbrev ranged : ℕ → Option Text → Option Text → List Text → List Text → List Text
ranged recent none none available within = take recent available
ranged recent none (some end) available within = within
ranged recent (some start) end available within = within

unfoldable pub relevant_month_keys : ℕ → Dict MonthDb → MessageFilter → List Text
relevant_month_keys recent index filt =
    let available = available_month_keys index in
    ranged recent filt.start filt.end available (keep (in_range filt) available)

-- The conditions of the WHERE clause: NULL equals nothing.
abbrev pub host_in : List Text → Option Text → Bool
host_in [] host = true
host_in (h ∷ hs) none = false
host_in (h ∷ hs) (some host) = has (λ x. text_eq x host) (h ∷ hs)

abbrev pub equals : Option ℕ → Option ℕ → Bool
equals none value = true
equals (some n) none = false
equals (some n) (some m) = n == m

-- An empty bound is no bound.
abbrev pub given : Option Text → Option Text
given none = none
given (some []) = none
given (some (c ∷ cs)) = some (c ∷ cs)

unfoldable pub passes : MessageFilter → Message → Bool
passes filt m =
    host_in filt.host m.row.host
    && equals filt.severity m.row.severity
    && equals filt.facility m.row.facility
    && from_key (given filt.start) m.row.receipt_time
    && to_key (given filt.end) m.row.receipt_time
    && (not filt.malformed_only || m.row.malformed)

module _ (sqlite : Sqlite) where
  -- `messages_fts MATCH ?`, if there is a text.
  abbrev pub text_test : MonthDb → Option Text → Option (Message → Bool)
  text_test db none = some (λ m. true)
  text_test db (some []) = some (λ m. true)
  text_test db (some (c ∷ cs)) = sqlite.fts_match db (c ∷ cs)

  -- The rows of one month that the query finds, in their order, without its LIMIT.
  unfoldable pub found_rows : MessageFilter → MonthDb → Option (List Message)
  found_rows filt db = do
    matches ← text_test db filt.text
    some (sqlite.order_rows db (keep (λ m. matches m && passes filt m) (messages_of db)))

  -- The query of `_build_query`, run on one month. SQLite leaves the order of rows with equal times
  -- open; here it is one order, whatever the limit.
  unfoldable pub run_query : MessageFilter → ℕ → MonthDb → Option (List Message)
  run_query filt limit db = do rows ← found_rows filt db; some (take limit rows)

  -- A month with no file, or whose query fails, adds nothing.
  abbrev pub or_no_rows : Option (List Message) → List Message
  or_no_rows none = []
  or_no_rows (some rows) = rows

  unfoldable pub merged_rows : MessageFilter → ℕ → Dict MonthDb → List Text → List Message
  merged_rows filt limit index [] = []
  merged_rows filt limit index (key ∷ keys) =
      or_no_rows (do db ← get key index; run_query filt limit db)
      ++ merged_rows filt limit index keys

  unfoldable pub search_messages : ℕ → Dict MonthDb → MessageFilter → ℕ → ℕ → SearchResult
  search_messages recent index filt offset limit =
      let keys = relevant_month_keys recent index filt in
      let merged = sort_desc earlier (merged_rows filt (offset + limit + 1) index keys) in
      record {
        rows = take limit (drop offset merged);
        has_more = ltb (offset + limit) (length merged);
      }
