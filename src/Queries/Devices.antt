-- ===== src/Queries/Devices.antt =====
-- `list_devices` (sylo/webapp/queries.py). The GROUP BY of a month is SQLite's: its groups may stand in
-- any order, and which row of a group gives the address and the name is left open.
use sylo.Base.{
  ℕ, ◌+◌, ◌≡◌, Bool, List, [], ◌∷◌, map, Option, none, some, is_some, ◌>>=◌, if◌then◌else◌, length,
  take,
}
use sylo.Text.{Text, text_lt}
use sylo.Schema.{MonthDb}
use sylo.Dict.{Dict, get, set}
use sylo.Sort.{sort_desc}
use sylo.Queries.{available_month_keys}

pub record DeviceInfo : Type 0 where
  pub source_ip : Text
  pub host : Option Text
  pub last_seen : Text
  pub message_count : ℕ

-- A row of the query: the key of the group, and what it says of the device.
abbrev pub DeviceRow : Type 0
DeviceRow = Text × DeviceInfo

abbrev pub row_total : List DeviceRow → ℕ
row_total [] = 0
row_total ((key, info) ∷ rows) = info.message_count + row_total rows

-- The query of a month, `none` on an OperationalError: COUNT(*) counts each row in one group.
pub record GroupQuery : Type 0 where
  pub device_rows : MonthDb → Option (List DeviceRow)
  pub counts_all :
      (db : MonthDb) (rows : List DeviceRow)
      → device_rows db ≡ some rows
      → row_total rows ≡ length db.messages

-- The counts are added, and the more recent month's last row gives the address and the name.
abbrev pub merge_info : DeviceInfo → DeviceInfo → DeviceInfo
merge_info existing row =
    let count = existing.message_count + row.message_count in
    if text_lt existing.last_seen row.last_seen
    then record row { message_count = count }
    else record existing { message_count = count }

abbrev pub merge_found : Dict DeviceInfo → Text → DeviceInfo → Option DeviceInfo → Dict DeviceInfo
merge_found aggregated key info none = set key info aggregated
merge_found aggregated key info (some existing) = set key (merge_info existing info) aggregated

unfoldable pub add_rows : Dict DeviceInfo → List DeviceRow → Dict DeviceInfo
add_rows aggregated [] = aggregated
add_rows aggregated ((key, info) ∷ rows) =
    add_rows (merge_found aggregated key info (get key aggregated)) rows

abbrev pub seen_before : DeviceInfo → DeviceInfo → Bool
seen_before a b = text_lt a.last_seen b.last_seen

abbrev pub info_of : Text × DeviceInfo → DeviceInfo
info_of (key, info) = info

module _ (query : GroupQuery) where
  abbrev pub add_month : Dict DeviceInfo → Option (List DeviceRow) → Dict DeviceInfo
  add_month aggregated none = aggregated
  add_month aggregated (some rows) = add_rows aggregated rows

  unfoldable pub aggregate : Dict DeviceInfo → Dict MonthDb → List Text → Dict DeviceInfo
  aggregate aggregated index [] = aggregated
  aggregate aggregated index (key ∷ keys) =
      aggregate (add_month aggregated (get key index >>= query.device_rows)) index keys

  unfoldable pub list_devices : ℕ → Dict MonthDb → List DeviceInfo
  list_devices recent index =
      sort_desc seen_before
        (map info_of (aggregate [] index (take recent (available_month_keys index))))

  -- The rows of the months whose query succeeds.
  abbrev pub counted : Option MonthDb → ℕ
  counted none = 0
  counted (some db) = if is_some (query.device_rows db) then length db.messages else 0

  abbrev pub rows_in : Dict MonthDb → List Text → ℕ
  rows_in index [] = 0
  rows_in index (key ∷ keys) = counted (get key index) + rows_in index keys
