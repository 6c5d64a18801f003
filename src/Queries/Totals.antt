-- ===== src/Queries/Totals.antt =====
-- The counts of `list_devices` (sylo/webapp/queries.py).
use sylo.Base.{
  ℕ, ◌+◌, ◌≡◌, refl, ap, ◌∙◌, Bool-cases, inl, inr, List, [], ◌∷◌, map, Option, none, some, is_some,
  ◌>>=◌, arith, if◌then◌else◌, if_elim, length, take,
}
use sylo.Text.{Text, text_eq, text_lt}
use sylo.Schema.{MonthDb}
use sylo.Dict.{Dict, get, set}
use sylo.Sort.{insert_desc, sort_desc}
use sylo.Queries.{available_month_keys}
use sylo.Queries.Devices.{
  DeviceInfo, DeviceRow, row_total, GroupQuery, merge_info, merge_found, add_rows, seen_before,
  info_of, add_month, aggregate, list_devices, counted, rows_in,
}

abbrev pub message_total : List DeviceInfo → ℕ
message_total [] = 0
message_total (i ∷ is) = i.message_count + message_total is

total-insert_desc :
    (x : DeviceInfo) (xs : List DeviceInfo)
    → message_total (insert_desc seen_before x xs) ≡ x.message_count + message_total xs
unfolding insert_desc
total-insert_desc x [] = refl
total-insert_desc x (y ∷ ys) =
    if_elim (λ is. message_total is ≡ x.message_count + (y.message_count + message_total ys))
      (seen_before x y) (omega (arith, total-insert_desc x ys)) refl

total-sort_desc :
    (xs : List DeviceInfo) → message_total (sort_desc seen_before xs) ≡ message_total xs
unfolding sort_desc
total-sort_desc [] = refl
total-sort_desc (x ∷ xs) =
    omega (arith, total-insert_desc x (sort_desc seen_before xs), total-sort_desc xs)

total-map : (rows : List DeviceRow) → message_total (map info_of rows) ≡ row_total rows
total-map [] = refl
total-map ((key, info) ∷ rows) = ap (λ n. info.message_count + n) (total-map rows)

merge_info_count :
    (existing row : DeviceInfo)
    → (merge_info existing row).message_count ≡ existing.message_count + row.message_count
merge_info_count existing row =
    if_elim (λ (i : DeviceInfo). i.message_count ≡ existing.message_count + row.message_count)
      (text_lt existing.last_seen row.last_seen) refl refl

-- What a key counts already.
abbrev count_at : Option DeviceInfo → ℕ
count_at none = 0
count_at (some i) = i.message_count

total-set :
    (key : Text) (info : DeviceInfo) (d : Dict DeviceInfo)
    → row_total (set key info d) + count_at (get key d) ≡ row_total d + info.message_count
unfolding set get
total-set key info [] = omega arith
total-set key info ((k, i) ∷ d) = elim (Bool-cases (text_eq k key)) [
  | inl same ↦ rw same (omega arith)
  | inr other ↦ rw other (omega (arith, total-set key info d))
]

total-merge_found :
    (d : Dict DeviceInfo) (key : Text) (info : DeviceInfo) (found : Option DeviceInfo)
    → get key d ≡ found
    → row_total (merge_found d key info found) ≡ row_total d + info.message_count
total-merge_found d key info none h = omega (arith, total-set key info d, ap count_at h)
total-merge_found d key info (some i) h =
    omega (arith, total-set key (merge_info i info) d, ap count_at h, merge_info_count i info)

total-add_rows :
    (rows : List DeviceRow) (d : Dict DeviceInfo)
    → row_total (add_rows d rows) ≡ row_total d + row_total rows
unfolding add_rows
total-add_rows [] d = omega arith
total-add_rows ((key, info) ∷ rows) d = omega (
  arith,
  total-add_rows rows (merge_found d key info (get key d)),
  total-merge_found d key info (get key d) refl,
)

module _ (query : GroupQuery) where
  total-add_month :
      (d : Dict DeviceInfo) (db : Option MonthDb)
      → row_total (add_month query d (db >>= query.device_rows)) ≡ row_total d + counted query db
  total-add_month d none = omega arith
  total-add_month d (some db) = by_rows (query.device_rows db) refl
    where
      by_rows :
          (rows : Option (List DeviceRow))
          → query.device_rows db ≡ rows
          → row_total (add_month query d rows)
            ≡ row_total d + (if is_some rows then length db.messages else 0)
      by_rows none h = omega arith
      by_rows (some rows) h = omega (arith, total-add_rows rows d, query.counts_all db rows h)

  total-aggregate :
      (keys : List Text) (index : Dict MonthDb) (d : Dict DeviceInfo)
      → row_total (aggregate query d index keys) ≡ row_total d + rows_in query index keys
  unfolding aggregate
  total-aggregate [] index d = omega arith
  total-aggregate (key ∷ keys) index d = omega (
    arith,
    total-aggregate keys index (add_month query d (get key index >>= query.device_rows)),
    total-add_month d (get key index),
  )

  -- The list of devices counts every message of the recent months, each once: its counts add up to the
  -- number of the rows in the months whose query succeeds, whatever rows share a device.
  pub list_devices-total :
      (recent : ℕ) (index : Dict MonthDb)
      → message_total (list_devices query recent index)
        ≡ rows_in query index (take recent (available_month_keys index))
  unfolding list_devices
  list_devices-total recent index =
      total-sort_desc (map info_of whole)
      ∙ total-map whole
      ∙ total-aggregate (take recent (available_month_keys index)) index []
      ∙ omega arith
    where
      whole : Dict DeviceInfo
      whole = aggregate query [] index (take recent (available_month_keys index))
