-- ===== src/Retention/Pass.antt =====
-- A whole pass of sylo/retention/core.py: which months it may drop.
use sylo.Base.{
  ℕ, ◌≡◌, refl, ◌∙◌, Bool, true, false, Bool-cases, inl, inr, List, [], ◌∷◌, Option, none, some,
  arith, length, all,
}
use sylo.Text.{Text, text_eq}
use sylo.AppDb.{AppDb}
use sylo.Retention.Calendar.{Date}
use sylo.Retention.{ℤ, key_of, cutoff, expired_of, available_month_keys}
use sylo.Retention.Delete.{Disk, delete_index_month, delete_raw_month}
use sylo.Retention.Run.{
  RetentionSummary, nothing_dropped, after_raw, after_index, drop_month, drop_months,
  expired_month_keys, drop_expired, retention_days, run_retention,
}
use sylo.Retention.Kept.{month_files, unlink_index-month_files, unlink_raw-month_files}
use sylo.Retention.Expired.{
  other_month, IsLive, all_of, expired_of-IsLive, all-available_month_keys,
}

module _ (index_locked : Text → Bool) (raw_locked : Text → Text → Bool) (today : Date)
    (key : Text) where
  delete_index_month-month_files :
      (disk : Disk) (other : Text)
      → length other ≡ 7
      → text_eq other key ≡ false
      → month_files key (delete_index_month index_locked raw_locked disk other today).0
        ≡ month_files key disk
  unfolding delete_index_month
  delete_index_month-month_files disk other seven differs =
      elim (Bool-cases (text_eq other (key_of today))) [
        | inl same ↦ rw same refl
        | inr distinct ↦ rw distinct (
            unlink_index-month_files index_locked raw_locked key other seven differs disk
              disk.index_dir refl)
      ]

  delete_raw_month-month_files :
      (disk : Disk) (other : Text)
      → length other ≡ 7
      → text_eq other key ≡ false
      → month_files key (delete_raw_month index_locked raw_locked disk other today).0
        ≡ month_files key disk
  unfolding delete_raw_month
  delete_raw_month-month_files disk other seven differs =
      elim (Bool-cases (text_eq other (key_of today))) [
        | inl same ↦ rw same refl
        | inr distinct ↦ rw distinct (
            unlink_raw-month_files index_locked raw_locked key other seven differs disk
              disk.data_dir refl)
      ]

module _ (parse_int : Text → Option ℤ) (index_locked : Text → Bool)
    (raw_locked : Text → Text → Bool) (today : Date) (key : Text) where
  drop_month-month_files :
      (disk : Disk) (summary : RetentionSummary) (other : Text)
      → length other ≡ 7
      → text_eq other key ≡ false
      → month_files key (drop_month parse_int index_locked raw_locked today disk summary other).0
        ≡ month_files key disk
  unfolding drop_month
  drop_month-month_files disk summary other seven differs =
      after (delete_index_month index_locked raw_locked disk other today)
        (delete_index_month-month_files index_locked raw_locked today key disk other seven differs)
    where
      after_files :
          (i : ℕ) (next : Disk × Option ℕ)
          → month_files key (after_raw parse_int index_locked raw_locked other i summary next).0
            ≡ month_files key next.0
      after_files i (next, none) = refl
      after_files i (next, some r) = refl

      after :
          (next : Disk × Option ℕ)
          → month_files key next.0 ≡ month_files key disk
          → month_files key
              (after_index parse_int index_locked raw_locked other today summary next).0
            ≡ month_files key disk
      after (next, none) h = h
      after (next, some i) h =
          after_files i (delete_raw_month index_locked raw_locked next other today)
          ∙ delete_raw_month-month_files index_locked raw_locked today key next other seven differs
          ∙ h

  drop_months-month_files :
      (keys : List Text) (state : Disk × Option RetentionSummary)
      → all (other_month key) keys ≡ true
      → month_files key (drop_months parse_int index_locked raw_locked today keys state).0
        ≡ month_files key state.0
  unfolding drop_months
  drop_months-month_files keys (disk, none) h = refl
  drop_months-month_files [] (disk, some summary) h = refl
  drop_months-month_files (other ∷ keys) (disk, some summary) h =
      drop_months-month_files keys
        (drop_month parse_int index_locked raw_locked today disk summary other) (ground arith)
      ∙ drop_month-month_files disk summary other (ground arith) (ground arith)

  -- However a pass ends, it leaves the files of the current month, and of a month whose last day is
  -- not before today less the days of the setting, as they were: in the index, and in the directory
  -- of every device.
  pub run_retention-month_files :
      (db : AppDb) (disk : Disk) (days : ℤ) (limit : ℕ)
      → retention_days parse_int db ≡ some days
      → cutoff today days ≡ some limit
      → IsLive parse_int limit (key_of today) key
      → month_files key (run_retention parse_int index_locked raw_locked db disk today).1.0
        ≡ month_files key disk
  unfolding run_retention expired_month_keys
  run_retention-month_files db disk days limit set cut live =
      rw (set, cut)
        (go (expired_of parse_int limit (key_of today) (available_month_keys disk.index_dir)) (
          expired_of-IsLive parse_int limit (key_of today) key (available_month_keys disk.index_dir)
            live (all-available_month_keys disk.index_dir)))
    where
      go :
          (expired : Option (List Text))
          → all_of parse_int (other_month key) expired ≡ true
          → month_files key (drop_expired parse_int index_locked raw_locked today disk expired).0
            ≡ month_files key disk
      go none h = refl
      go (some keys) h = drop_months-month_files keys (disk, some nothing_dropped) h
