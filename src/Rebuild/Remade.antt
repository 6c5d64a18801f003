-- ===== src/Rebuild/Remade.antt =====
-- The index that `rebuild_indexer` (sylo/indexer/rebuild.py) leaves, and its counts.
use sylo.Base.{
  ℕ, ◌≡◌, refl, sym, ap, ◌∙◌, inl, inr, Bool-cases, Bool, false, not, List, [], ◌∷◌, Option, none,
  some, if◌then◌else◌, if_elim,
}
use sylo.Text.{Bytes, Text, text_eq_iff}
use sylo.Schema.{Row, MonthDb}
use sylo.Dict.{Dict, get}
use sylo.DeviceWriter.{member}
use sylo.Rebuild.Index.{
  Rebuilding, month_key_of, sort_named, device_dirs, logs_of, is_targeted, rebuild_log,
  rebuild_logs, rebuild_devices, rebuild_indexer,
}
use sylo.Rebuild.Ordered.{InOrder, LogsInOrder, sort_named-InOrder, all-LogsInOrder}
use sylo.Rebuild.Months.{
  in_month, month_logs, remade, Holds, rebuild_devices-Holds, Holds-Agrees,
  rebuild_month_log-Agrees,
}

-- The logs that a rebuild of some months reads for a month.
abbrev pub logs_read :
    Option (List Text) → Text → List (Text × Option (List (Text × Bytes))) → List (Text × Bytes)
logs_read months key data_dir = if is_targeted months key then month_logs key data_dir else []

-- The database of a month with no logs stays as it was.
abbrev pub db_after : Option MonthDb → Option (MonthDb × ℕ) → Option MonthDb
db_after old none = old
db_after old (some (db, n)) = some db

abbrev pub count_of : Option (MonthDb × ℕ) → Option ℕ
count_of none = none
count_of (some (db, n)) = some n

module _ (accepts : Row → Bool) (months : Option (List Text)) where
  -- What each log keeps, the walk keeps.
  module _ (P : Rebuilding → Type 0)
      (keeps : (ip : Text) (s : Rebuilding) (log : Text × Bytes)
        → P s
        → P (rebuild_log accepts months ip s log)) where
    rebuild_logs_keeps :
        (logs : List (Text × Bytes)) (ip : Text) (s : Rebuilding)
        → P s
        → P (rebuild_logs accepts months ip s logs)
    unfolding rebuild_logs
    rebuild_logs_keeps [] ip s h = h
    rebuild_logs_keeps (log ∷ logs) ip s h =
        rebuild_logs_keeps logs ip (rebuild_log accepts months ip s log) (keeps ip s log h)

    rebuild_devices_keeps :
        (dirs : Dict (List (Text × Bytes))) (s : Rebuilding)
        → P s
        → P (rebuild_devices accepts months s dirs)
    unfolding rebuild_devices
    rebuild_devices_keeps [] s h = h
    rebuild_devices_keeps ((ip, files) ∷ dirs) s h =
        rebuild_devices_keeps dirs (rebuild_logs accepts months ip s (logs_of files))
          (rebuild_logs_keeps (logs_of files) ip s h)

  module _ (key : Text) (index : Dict MonthDb) where
    rebuild_log-skipped :
        is_targeted months key ≡ false
        → (ip : Text) (s : Rebuilding) (log : Text × Bytes) → Holds accepts index key none s
        → Holds accepts index key none (rebuild_log accepts months ip s log)
    unfolding rebuild_log
    rebuild_log-skipped skipped ip s (name, f) h = elim (Bool-cases (in_month key (name, f))) [
      | inl same ↦
          let e : month_key_of name ≡ key = (text_eq_iff (month_key_of name) key).0 same in
          rw e (rw skipped h)
      | inr other ↦
          if_elim (Holds accepts index key none) (not (is_targeted months (month_key_of name))) h (
            Holds-Agrees accepts index key none s _
              (rebuild_month_log-Agrees accepts index key (month_key_of name) ip f s other) h)
    ]

    after_walk :
        (data_dir : List (Text × Option (List (Text × Bytes)))) (s : Rebuilding)
        → Holds accepts index key none s
        → Holds accepts index key
            (remade accepts none (logs_read months key data_dir))
            (rebuild_devices accepts months s (sort_named (device_dirs data_dir)))
    unfolding month_logs remade
    after_walk data_dir s h = elim (Bool-cases (is_targeted months key)) [
      | inl targeted ↦ rw targeted (
          rebuild_devices-Holds accepts index key months targeted
            (sort_named (device_dirs data_dir)) none s h)
      | inr skipped ↦ rw skipped (
          rebuild_devices_keeps (Holds accepts index key none) (rebuild_log-skipped skipped)
            (sort_named (device_dirs data_dir)) s h)
    ]

    shown :
        (made : Option (MonthDb × ℕ)) (s : Rebuilding)
        → Holds accepts index key made s
        → (get key s.index ≡ db_after (get key index) made) × (get key s.counts ≡ count_of made)
    shown none s h = (h.2, h.3)
    shown (some (db, n)) s h = (h.1, h.2)

    pub rebuild_indexer_lem :
        (data_dir : List (Text × Option (List (Text × Bytes))))
        → (get key (rebuild_indexer accepts months data_dir index).1
            ≡ db_after (get key index) (remade accepts none (logs_read months key data_dir)))
          × (get key (rebuild_indexer accepts months data_dir index).0
              ≡ count_of (remade accepts none (logs_read months key data_dir)))
          × InOrder (sort_named (device_dirs data_dir)) (device_dirs data_dir)
          × LogsInOrder (device_dirs data_dir)
    unfolding rebuild_indexer member get
    rebuild_indexer_lem data_dir =
        let made = shown (remade accepts none (logs_read months key data_dir)) _ (
          after_walk data_dir
            (record { counts = []; rebuilt_months = []; connections = []; index = index })
            (refl, refl, refl, refl)) in
        (
          made.0,
          made.1,
          sort_named-InOrder (device_dirs data_dir),
          all-LogsInOrder (device_dirs data_dir),
        )

  -- A rebuild after a rebuild changes no database and reports the same numbers.
  pub rebuild_indexer-again :
      (key : Text) (index : Dict MonthDb) (data_dir : List (Text × Option (List (Text × Bytes))))
      → (get key
            (rebuild_indexer accepts months data_dir
              (rebuild_indexer accepts months data_dir index).1).1
          ≡ get key (rebuild_indexer accepts months data_dir index).1)
        × (get key
              (rebuild_indexer accepts months data_dir
                (rebuild_indexer accepts months data_dir index).1).0
            ≡ get key (rebuild_indexer accepts months data_dir index).0)
  rebuild_indexer-again key index data_dir = (
    (again.0 ∙ ap (λ o. db_after o made) once.0) ∙ twice (get key index) made ∙ sym once.0,
    again.1 ∙ sym once.1,
  )
    where
      made : Option (MonthDb × ℕ)
      made = remade accepts none (logs_read months key data_dir)

      once :
          (get key (rebuild_indexer accepts months data_dir index).1
            ≡ db_after (get key index) made)
          × (get key (rebuild_indexer accepts months data_dir index).0 ≡ count_of made)
      once = let h = rebuild_indexer_lem key index data_dir in (h.0, h.1)

      again :
          (get key
              (rebuild_indexer accepts months data_dir
                (rebuild_indexer accepts months data_dir index).1).1
            ≡ db_after (get key (rebuild_indexer accepts months data_dir index).1) made)
          × (get key
                (rebuild_indexer accepts months data_dir
                  (rebuild_indexer accepts months data_dir index).1).0
              ≡ count_of made)
      again =
          let h =
            rebuild_indexer_lem key (rebuild_indexer accepts months data_dir index).1 data_dir in
          (h.0, h.1)

      twice :
          (old : Option MonthDb) (m : Option (MonthDb × ℕ))
          → db_after (db_after old m) m ≡ db_after old m
      twice old none = refl
      twice old (some (db, n)) = refl
