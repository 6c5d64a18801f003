-- ===== src/Rebuild/Index.antt =====
-- `rebuild_indexer` (sylo/indexer/rebuild.py): the walk over the devices' directories and the logs in
-- them, and the databases of the months, each made anew when the first log of its month comes. An open
-- connection is the name of its month. The operating system refuses no unlinking.
use sylo.Base.{
  ℕ, ◌+◌, Bool, true, false, not, List, [], ◌∷◌, Option, none, some, if◌then◌else◌, take, keep,
}
use sylo.Text.{Bytes, Text, text_lt, codes}
use sylo.Schema.{Row, MonthDb}
use sylo.Dict.{Dict, get, set, pop}
use sylo.Indexer.{or_empty_db}
use sylo.Sort.{sort_desc}
use sylo.Retention.{without_suffix}
use sylo.DeviceWriter.{member}
use sylo.Rebuild.{rebuild_file}

-- Whether `glob("*.log")` finds the name.
abbrev is_some {ℓ} : {A : Type ℓ} → Option A → Bool
is_some none = false
is_some (some a) = true

unfoldable pub is_log : Text → Bool
is_log name = is_some (without_suffix (codes ".log") name)

-- `stem`: a name is never without one.
abbrev stem_or : Text → Option Text → Text
stem_or name none = name
stem_or name (some []) = name
stem_or name (some (c ∷ cs)) = c ∷ cs

unfoldable pub log_stem : Text → Text
log_stem name = stem_or name (without_suffix (codes ".log") name)

abbrev pub month_key_of : Text → Text
month_key_of name = take 7 (log_stem name)

-- `sorted`, on paths of one directory.
unfoldable pub sort_named {ℓ} : {A : Type ℓ} → List (Text × A) → List (Text × A)
sort_named entries = sort_desc (λ a b. text_lt b.0 a.0) entries

-- The entries of the data directory: a directory with its files, or, `none`, a file.
unfoldable pub device_dirs : List (Text × Option (List (Text × Bytes))) → Dict (List (Text × Bytes))
device_dirs [] = []
device_dirs ((name, none) ∷ entries) = device_dirs entries
device_dirs ((name, some files) ∷ entries) = (name, files) ∷ device_dirs entries

-- The local variables, with the databases of the index directory.
pub record Rebuilding : Type 0 where
  pub counts : Dict ℕ
  pub rebuilt_months : List Text
  pub connections : List Text
  pub index : Dict MonthDb

abbrev pub or_zero : Option ℕ → ℕ
or_zero none = 0
or_zero (some n) = n

-- `months is None`, or the month is one of them.
unfoldable pub is_targeted : Option (List Text) → Text → Bool
is_targeted none month_key = true
is_targeted (some months) month_key = member month_key months

-- `conn is None`: the old database goes, and there is a new one.
unfoldable pub open_month : Text → Rebuilding → Rebuilding
open_month month_key s =
    let index =
      if not (member month_key s.rebuilt_months) then pop month_key s.index else s.index in
    record s {
      rebuilt_months = month_key ∷ s.rebuilt_months;
      connections = month_key ∷ s.connections;
      index = set month_key (or_empty_db (get month_key index)) index;
    }

abbrev pub connect_month : Text → Rebuilding → Rebuilding
connect_month month_key s = if member month_key s.connections then s else open_month month_key s

abbrev pub commit_month : Text → Rebuilding → MonthDb × ℕ → Rebuilding
commit_month month_key s (db, inserted) = record s {
  index = set month_key db s.index;
  counts = set month_key (or_zero (get month_key s.counts) + inserted) s.counts;
}

-- `sorted(device_dir.glob("*.log"))`.
abbrev pub logs_of : List (Text × Bytes) → List (Text × Bytes)
logs_of files = sort_named (keep (λ f. is_log f.0) files)

module _ (accepts : Row → Bool) where
  unfoldable pub rebuild_month_log : Text → Text → Bytes → Rebuilding → Rebuilding
  rebuild_month_log source_ip month_key log_file s =
      let s' = connect_month month_key s in
      commit_month month_key s'
        (rebuild_file accepts (or_empty_db (get month_key s'.index)) log_file source_ip)

module _ (accepts : Row → Bool) (months : Option (List Text)) where
  unfoldable pub rebuild_log : Text → Rebuilding → Text × Bytes → Rebuilding
  rebuild_log source_ip s (name, log_file) =
      if not (is_targeted months (month_key_of name))
      then s
      else rebuild_month_log accepts source_ip (month_key_of name) log_file s

  unfoldable pub rebuild_logs : Text → Rebuilding → List (Text × Bytes) → Rebuilding
  rebuild_logs source_ip s [] = s
  rebuild_logs source_ip s (log ∷ logs) = rebuild_logs source_ip (rebuild_log source_ip s log) logs

  unfoldable pub rebuild_devices : Rebuilding → Dict (List (Text × Bytes)) → Rebuilding
  rebuild_devices s [] = s
  rebuild_devices s ((source_ip, files) ∷ dirs) =
      rebuild_devices (rebuild_logs source_ip s (logs_of files)) dirs

  -- The counts are its result; the index is what it leaves.
  unfoldable pub rebuild_indexer :
      List (Text × Option (List (Text × Bytes))) → Dict MonthDb → Dict ℕ × Dict MonthDb
  rebuild_indexer data_dir index =
      let s =
        rebuild_devices
          (record { counts = []; rebuilt_months = []; connections = []; index = index })
          (sort_named (device_dirs data_dir)) in
      (s.counts, s.index)
