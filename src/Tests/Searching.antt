-- ===== src/Tests/Searching.antt =====
-- A search, its pages, and the list of devices (sylo/webapp/queries.py).
use sylo.Base.{
  ℕ, length, Option, ap, ◌≡◌, true, false, inl, inr, List, [], ◌∷◌, none, some, arith, Bool-cases,
}
use sylo.Text.{Text, text_eq, text_eq_iff, text_lt, codes}
use sylo.Text.Order.{text_lt_asym}
use sylo.Schema.{Row, MonthDb}
use sylo.Dict.{Dict, get}
use sylo.Sort.{insert_desc, sort_desc}
use sylo.Sort.Order.{sort_desc-SameElements, sort_desc-IsDescending}
use sylo.Indexer.Flush.{month_rows}
use sylo.Indexer.Partition.{IsPartitioned}
use sylo.Queries.{
  Message, Sqlite, MessageFilter, number_from, earlier, available_month_keys, relevant_month_keys,
  found_rows, passes, search_messages,
}
use sylo.Queries.Paging.{all_found, search_messages-exact}
use sylo.Queries.Months.{search_messages-ranged}
use sylo.Queries.Devices.{DeviceInfo, DeviceRow, row_total, GroupQuery, list_devices}
use sylo.Queries.Totals.{message_total, list_devices-total}

abbrev pub row_at : Text → Text → Row
row_at time message = record {
  receipt_time = time;
  source_ip = codes "10.0.0.9";
  facility = some 4;
  severity = some 2;
  host = some (codes "10.0.0.9");
  tag = none;
  message = message;
  malformed = false;
}

abbrev pub month : Text
month = codes "2024-05"

abbrev pub first_row : Row
first_row = row_at (codes "2024-05-06T01:02:03.000000+00:00") (codes "up")

abbrev pub second_row : Row
second_row = row_at (codes "2024-05-06T01:02:04.000000+00:00") (codes "down")

abbrev pub db : MonthDb
db = record { messages = first_row ∷ second_row ∷ []; messages_fts = [] }

abbrev pub index : Dict MonthDb
index = (month, db) ∷ []

abbrev sqlite : Sqlite
sqlite = record {
  fts_match = λ d t. some (λ m. true);
  order_rows = λ d ms. sort_desc earlier ms;
  same_rows = λ d ms. sort_desc-SameElements earlier ms;
  descending = λ d ms.
      sort_desc-IsDescending earlier (λ a b. text_lt_asym a.row.receipt_time b.row.receipt_time) ms;
}

abbrev since_may : MessageFilter
since_may = record {
  host = codes "10.0.0.9" ∷ [];
  severity = none;
  facility = some 4;
  start = some (codes "2024-05-01T00:00:00.000000+00:00");
  end = none;
  text = some (codes "up OR down");
  malformed_only = false;
}

abbrev newest_first : List Message
newest_first = record { id = 2; row = second_row } ∷ record { id = 1; row = first_row } ∷ []

index-IsPartitioned : IsPartitioned index
unfolding month_rows get
index-IsPartitioned key = elim (Bool-cases (text_eq month key)) [
  | inl same ↦
      let e : month ≡ key = (text_eq_iff month key).0 same in rw (month_rows, same) (e, (e, tt))
  | inr other ↦ rw (month_rows, other) tt
]

search_messages-exact_example :
    search_messages sqlite 3 index since_may 0 1
    ≡ record { rows = record { id = 2; row = second_row } ∷ []; has_more = true }
unfolding sort_desc insert_desc all_found relevant_month_keys available_month_keys text_lt get
    text_eq found_rows number_from passes
search_messages-exact_example = search_messages-exact sqlite since_may index 3 0 1

search_messages-ranged_example :
    (search_messages sqlite 3 index since_may 1 1).rows ≡ record { id = 1; row = first_row } ∷ []
unfolding sort_desc insert_desc all_found relevant_month_keys available_month_keys text_lt get
    text_eq found_rows number_from passes
search_messages-ranged_example =
    search_messages-ranged since_may sqlite index index-IsPartitioned 3 1 1 (inl (λ e. cc e))

abbrev device_seen : ℕ → DeviceInfo
device_seen n = record {
  source_ip = codes "10.0.0.9";
  host = none;
  last_seen = codes "2024-05-06";
  message_count = n;
}

one_group :
    (d : MonthDb) (rows : List DeviceRow)
    → some ((codes "10.0.0.9", device_seen (length d.messages)) ∷ []) ≡ some rows
    → row_total rows ≡ length d.messages
one_group d rows h = omega (arith, ap total h)
  where
    total : Option (List DeviceRow) → ℕ
    total none = 0
    total (some rs) = row_total rs

-- All rows of a month are one device's.
abbrev one_device : GroupQuery
one_device = record {
  device_rows = λ d. some ((codes "10.0.0.9", device_seen (length d.messages)) ∷ []);
  counts_all = one_group;
}

list_devices-total_example : message_total (list_devices one_device 3 index) ≡ 2
unfolding available_month_keys sort_desc insert_desc get text_eq
list_devices-total_example = list_devices-total one_device 3 index
