-- ===== src/Retention/Run.antt =====
-- `run_retention` (sylo/retention/core.py): one pass.
use sylo.Base.{ℕ, ◌+◌, Bool, List, [], ◌∷◌, ◌++◌, Option, none, some, ◌>>=◌}
use sylo.Text.{Text}
use sylo.AppDb.{AppDb, init_db, get_setting, retention_days_key, default_retention}
use sylo.Retention.Calendar.{Date}
use sylo.Retention.{ℤ, key_of, cutoff, expired_of, available_month_keys}
use sylo.Retention.Delete.{Disk, delete_index_month, delete_raw_month}

pub record RetentionSummary : Type 0 where
  pub dropped_months : List Text
  pub index_files_deleted : ℕ
  pub raw_files_deleted : ℕ

abbrev pub nothing_dropped : RetentionSummary
nothing_dropped = record { dropped_months = []; index_files_deleted = 0; raw_files_deleted = 0 }

abbrev pub month_dropped : Text → ℕ → ℕ → RetentionSummary → RetentionSummary
month_dropped key i r summary = record {
  dropped_months = summary.dropped_months ++ key ∷ [];
  index_files_deleted = summary.index_files_deleted + i;
  raw_files_deleted = summary.raw_files_deleted + r;
}

-- `retention_days`, from the database that `init_db` has set up.
abbrev pub retention_days : (Text → Option ℤ) → AppDb → Option ℤ
retention_days parse_int db =
    parse_int (get_setting (init_db db) retention_days_key default_retention)

module _ (parse_int : Text → Option ℤ) (index_locked : Text → Bool)
    (raw_locked : Text → Text → Bool) where
  -- The body of the loop of `run_retention`.
  abbrev pub after_raw :
      Text → ℕ → RetentionSummary → Disk × Option ℕ → Disk × Option RetentionSummary
  after_raw key i summary (disk, none) = (disk, none)
  after_raw key i summary (disk, some r) = (disk, some (month_dropped key i r summary))

  abbrev pub after_index :
      Text → Date → RetentionSummary → Disk × Option ℕ → Disk × Option RetentionSummary
  after_index key today summary (disk, none) = (disk, none)
  after_index key today summary (disk, some i) =
      after_raw key i summary (delete_raw_month index_locked raw_locked disk key today)

  unfoldable pub drop_month : Date → Disk → RetentionSummary → Text → Disk × Option RetentionSummary
  drop_month today disk summary key =
      after_index key today summary (delete_index_month index_locked raw_locked disk key today)

  -- The loop; an exception ends it.
  unfoldable pub drop_months :
      Date → List Text → Disk × Option RetentionSummary → Disk × Option RetentionSummary
  drop_months today keys (disk, none) = (disk, none)
  drop_months today [] (disk, some summary) = (disk, some summary)
  drop_months today (key ∷ keys) (disk, some summary) =
      drop_months today keys (drop_month today disk summary key)

  -- `_expired_month_keys`.
  unfoldable pub expired_month_keys : Disk → ℤ → Date → Option (List Text)
  expired_month_keys disk days today = do
    limit ← cutoff today days
    expired_of parse_int limit (key_of today) (available_month_keys disk.index_dir)

  abbrev pub drop_expired : Date → Disk → Option (List Text) → Disk × Option RetentionSummary
  drop_expired today disk none = (disk, none)
  drop_expired today disk (some keys) = drop_months today keys (disk, some nothing_dropped)

  unfoldable pub run_retention : AppDb → Disk → Date → AppDb × (Disk × Option RetentionSummary)
  run_retention db disk today = (
    init_db db,
    drop_expired today disk
        (do days ← retention_days parse_int db; expired_month_keys disk days today),
  )
