-- ===== src/Retention/Delete.antt =====
-- The deletions of sylo/retention/core.py, on the names of the files.
use sylo.Base.{
  ℕ, ◌+◌, Bool, true, false, not, ◌&&◌, List, [], ◌∷◌, ◌++◌, Option, none, some, ◌>>=◌,
  if◌then◌else◌, length, take, drop, keep,
}
use sylo.Text.{Text, text_eq, codes}
use sylo.Retention.Calendar.{Date}
use sylo.Retention.{key_of, without_suffix}

-- The two directories: the names in the index, `none` where there is no directory, and the entries
-- of the data directory, each a device's directory with its files or, `none`, a file.
pub record Disk : Type 0 where
  pub index_dir : Option (List Text)
  pub data_dir : Option (List (Text × Option (List Text)))

unfoldable pub exists : Text → List Text → Bool
exists name [] = false
exists name (n ∷ ns) = if text_eq n name then true else exists name ns

unfoldable pub unlink : Text → List Text → List Text
unlink name [] = []
unlink name (n ∷ ns) = let rest = unlink name ns in if text_eq n name then rest else n ∷ rest

-- The names are unlinked in turn, those that exist, and counted.
unfoldable pub unlink_each : (Text → Bool) → List Text → List Text → List Text × Option ℕ
unlink_each locked [] files = (files, some 0)
unlink_each locked (name ∷ names) files =
    let (after, deleted) = unlink_each locked names (unlink name files) in
    if not (exists name files)
    then unlink_each locked names files
    else if locked name
    then (files, none)
    else (after, (do k ← deleted; some (k + 1)))

abbrev pub index_names : Text → List Text
index_names key =
    (key ++ codes ".sqlite3") ∷ (key ++ codes ".sqlite3-wal") ∷ (key ++ codes ".sqlite3-shm") ∷ []

-- `f"{month_key}-*.log"` as a pattern.
unfoldable pub is_log_of : Text → Text → Bool
is_log_of key name =
    let prefix = key ++ b'-' ∷ [] in
    text_eq (take (length prefix) name) prefix
    && has_suffix (without_suffix (codes ".log") (drop (length prefix) name))
  where
    has_suffix : Option Text → Bool
    has_suffix none = false
    has_suffix (some t) = true

-- Which unlinking raises an OSError: by the name in the index, and by the device's name and the file.
module _ (index_locked : Text → Bool) (raw_locked : Text → Text → Bool) where
  abbrev on_index : Disk → List Text × Option ℕ → Disk × Option ℕ
  on_index disk (names, deleted) = (record disk { index_dir = some names }, deleted)

  abbrev pub unlink_index : Disk → Text → Option (List Text) → Disk × Option ℕ
  unlink_index disk key none = (disk, some 0)
  unlink_index disk key (some names) =
      on_index disk (unlink_each index_locked (index_names key) names)

  unfoldable pub delete_index_month : Disk → Text → Date → Disk × Option ℕ
  delete_index_month disk key today =
      if text_eq key (key_of today) then (disk, none) else unlink_index disk key disk.index_dir

  -- After the files of one device: an exception ends the loop.
  abbrev pub proceed :
      Text
      → List Text
      → List (Text × Option (List Text))
      → List (Text × Option (List Text))
      → Option ℕ
      → Option ℕ
      → List (Text × Option (List Text)) × Option ℕ
  proceed name left entries after deleted none = ((name, some left) ∷ entries, none)
  proceed name left entries after deleted (some n) =
      ((name, some left) ∷ after, (do k ← deleted; some (n + k)))

  -- The loop over the entries of the data directory.
  unfoldable pub unlink_logs :
      Text → List (Text × Option (List Text)) → List (Text × Option (List Text)) × Option ℕ
  unlink_logs key [] = ([], some 0)
  unlink_logs key ((name, none) ∷ entries) =
      let (after, deleted) = unlink_logs key entries in ((name, none) ∷ after, deleted)
  unlink_logs key ((name, some files) ∷ entries) =
      let (after, deleted) = unlink_logs key entries in
      let (left, count) = unlink_each (raw_locked name) (keep (is_log_of key) files) files in
      proceed name left entries after deleted count

  abbrev on_data : Disk → List (Text × Option (List Text)) × Option ℕ → Disk × Option ℕ
  on_data disk (entries, deleted) = (record disk { data_dir = some entries }, deleted)

  abbrev pub unlink_raw : Disk → Text → Option (List (Text × Option (List Text))) → Disk × Option ℕ
  unlink_raw disk key none = (disk, some 0)
  unlink_raw disk key (some entries) = on_data disk (unlink_logs key entries)

  unfoldable pub delete_raw_month : Disk → Text → Date → Disk × Option ℕ
  delete_raw_month disk key today =
      if text_eq key (key_of today) then (disk, none) else unlink_raw disk key disk.data_dir
