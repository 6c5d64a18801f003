-- ===== src/Retention/Dropped.antt =====
-- The two deletions of a month in sylo/retention/core.py, where nothing prevents them.
use sylo.Base.{
  ℕ, ◌+◌, ◌≡◌, refl, sym, ap, ◌∙◌, Bool, true, false, List, [], ◌∷◌, Option, none, some,
  >>=-eq-some, arith, if◌then◌else◌, if_elim, keep, has,
}
use sylo.Text.{Text, text_eq}
use sylo.Retention.{key_of}
use sylo.Retention.Calendar.{Date}
use sylo.Retention.Delete.{
  Disk, exists, unlink_each, index_names, is_log_of, unlink_index, delete_index_month, proceed,
  unlink_logs, unlink_raw, delete_raw_month,
}
use sylo.Retention.Gone.{has-unlink_each, unlink_each-gone, unlink_each-keep_gone}

-- Is a file of the month left: its database or a file beside it, or a log of a device?
abbrev pub left_in_index : Text → Option (List Text) → Bool
left_in_index key none = false
left_in_index key (some names) = has (λ n. exists n (index_names key)) names

abbrev pub left_in_entries : Text → List (Text × Option (List Text)) → Bool
left_in_entries key [] = false
left_in_entries key ((name, none) ∷ entries) = left_in_entries key entries
left_in_entries key ((name, some files) ∷ entries) =
    if has (is_log_of key) files then true else left_in_entries key entries

abbrev pub left_in_data : Text → Option (List (Text × Option (List Text))) → Bool
left_in_data key none = false
left_in_data key (some entries) = left_in_entries key entries

abbrev pub IsGone : Text → Disk → Type 0
IsGone key disk =
    (left_in_index key disk.index_dir ≡ false) × (left_in_data key disk.data_dir ≡ false)

module _ (index_locked : Text → Bool) (raw_locked : Text → Text → Bool) (today : Date) where
  -- Months that are gone stay gone.
  unlink_logs-left :
      (gone key : Text) (entries : List (Text × Option (List Text)))
      → left_in_entries gone entries ≡ false
      → left_in_entries gone (unlink_logs index_locked raw_locked key entries).0 ≡ false
  unfolding unlink_logs
  unlink_logs-left gone key [] h = refl
  unlink_logs-left gone key ((name, none) ∷ entries) h = unlink_logs-left gone key entries h
  unlink_logs-left gone key ((name, some files) ∷ entries) h =
      by_count (unlink_each (raw_locked name) (keep (is_log_of key) files) files).1
        (unlink_logs-left gone key entries (ground arith))
    where
      rest_gone : left_in_entries gone entries ≡ false
      rest_gone = ground arith

      left : List Text
      left = (unlink_each (raw_locked name) (keep (is_log_of key) files) files).0

      here : has (is_log_of gone) left ≡ false
      here =
          has-unlink_each (is_log_of gone) (raw_locked name) (keep (is_log_of key) files) files
            (ground arith)

      by_count :
          (count : Option ℕ)
          → left_in_entries gone (unlink_logs index_locked raw_locked key entries).0 ≡ false
          → left_in_entries gone
              (proceed index_locked raw_locked name left entries
                (unlink_logs index_locked raw_locked key entries).0
                (unlink_logs index_locked raw_locked key entries).1
                count).0
            ≡ false
      by_count none later = rw here rest_gone
      by_count (some n) later = rw here later

  -- Without an exception, the logs of the month are gone.
  unlink_logs-gone :
      (key : Text) (entries : List (Text × Option (List Text))) (k : ℕ)
      → (unlink_logs index_locked raw_locked key entries).1 ≡ some k
      → left_in_entries key (unlink_logs index_locked raw_locked key entries).0 ≡ false
  unfolding unlink_logs
  unlink_logs-gone key [] k h = refl
  unlink_logs-gone key ((name, none) ∷ entries) k h = unlink_logs-gone key entries k h
  unlink_logs-gone key ((name, some files) ∷ entries) k h =
      by_count (unlink_each (raw_locked name) (keep (is_log_of key) files) files).1
        (unlink_each-keep_gone (raw_locked name) (is_log_of key) files)
        (unlink_logs-gone key entries) h
    where
      left : List Text
      left = (unlink_each (raw_locked name) (keep (is_log_of key) files) files).0

      by_count :
          (count : Option ℕ)
          → ((n : ℕ) → count ≡ some n → has (is_log_of key) left ≡ false)
          → ((n : ℕ)
              → (unlink_logs index_locked raw_locked key entries).1 ≡ some n
              → left_in_entries key (unlink_logs index_locked raw_locked key entries).0 ≡ false)
          → (proceed index_locked raw_locked name left entries
              (unlink_logs index_locked raw_locked key entries).0
              (unlink_logs index_locked raw_locked key entries).1
              count).1
            ≡ some k
          → left_in_entries key
              (proceed index_locked raw_locked name left entries
                (unlink_logs index_locked raw_locked key entries).0
                (unlink_logs index_locked raw_locked key entries).1
                count).0
            ≡ false
      by_count none here later e = cc
      by_count (some n) here later e =
          let (m, counted, f) =
            >>=-eq-some (unlink_logs index_locked raw_locked key entries).1 (λ j. some (n + j)) e in
          rw (here n refl) (later m counted)

  unlink_index-IsGone :
      (gone key : Text) (disk : Disk) (dir : Option (List Text))
      → disk.index_dir ≡ dir
      → IsGone gone disk
      → IsGone gone (unlink_index index_locked raw_locked disk key dir).0
  unlink_index-IsGone gone key disk none e h = h
  unlink_index-IsGone gone key disk (some names) e h = (
    has-unlink_each (λ n. exists n (index_names gone)) index_locked (index_names key) names
        (sym (ap (left_in_index gone) e) ∙ h.0),
    h.1,
  )

  unlink_raw-IsGone :
      (gone key : Text) (disk : Disk) (dir : Option (List (Text × Option (List Text))))
      → disk.data_dir ≡ dir
      → IsGone gone disk
      → IsGone gone (unlink_raw index_locked raw_locked disk key dir).0
  unlink_raw-IsGone gone key disk none e h = h
  unlink_raw-IsGone gone key disk (some entries) e h =
      (h.0, unlink_logs-left gone key entries (sym (ap (left_in_data gone) e) ∙ h.1))

  pub IsGone-delete_index_month :
      (gone key : Text) (disk : Disk)
      → IsGone gone disk
      → IsGone gone (delete_index_month index_locked raw_locked disk key today).0
  unfolding delete_index_month
  IsGone-delete_index_month gone key disk h =
      if_elim (λ (r : Disk × Option ℕ). IsGone gone r.0) (text_eq key (key_of today)) h
        (unlink_index-IsGone gone key disk disk.index_dir refl h)

  pub IsGone-delete_raw_month :
      (gone key : Text) (disk : Disk)
      → IsGone gone disk
      → IsGone gone (delete_raw_month index_locked raw_locked disk key today).0
  unfolding delete_raw_month
  IsGone-delete_raw_month gone key disk h =
      if_elim (λ (r : Disk × Option ℕ). IsGone gone r.0) (text_eq key (key_of today)) h
        (unlink_raw-IsGone gone key disk disk.data_dir refl h)

  pub delete_index_month-gone :
      (key : Text) (disk : Disk) (i : ℕ)
      → (delete_index_month index_locked raw_locked disk key today).1 ≡ some i
      → left_in_index key (delete_index_month index_locked raw_locked disk key today).0.index_dir
        ≡ false
  unfolding delete_index_month
  delete_index_month-gone key disk i h = by_guard (text_eq key (key_of today)) h
    where
      by_dir :
          (dir : Option (List Text))
          → disk.index_dir ≡ dir
          → (unlink_index index_locked raw_locked disk key dir).1 ≡ some i
          → left_in_index key (unlink_index index_locked raw_locked disk key dir).0.index_dir
            ≡ false
      by_dir none e k = ap (left_in_index key) e
      by_dir (some names) e k = unlink_each-gone index_locked (index_names key) names i k

      by_guard :
          (b : Bool)
          → (if b
              then (disk, none)
              else unlink_index index_locked raw_locked disk key disk.index_dir).1
            ≡ some i
          → left_in_index key
              (if b
                then (disk, none)
                else unlink_index index_locked raw_locked disk key disk.index_dir).0.index_dir
            ≡ false
      by_guard true k = cc
      by_guard false k = by_dir disk.index_dir refl k

  pub delete_raw_month-IsGone :
      (key : Text) (disk : Disk) (r : ℕ)
      → left_in_index key disk.index_dir ≡ false
      → (delete_raw_month index_locked raw_locked disk key today).1 ≡ some r
      → IsGone key (delete_raw_month index_locked raw_locked disk key today).0
  unfolding delete_raw_month
  delete_raw_month-IsGone key disk r index h = by_guard (text_eq key (key_of today)) h
    where
      by_dir :
          (dir : Option (List (Text × Option (List Text))))
          → disk.data_dir ≡ dir
          → (unlink_raw index_locked raw_locked disk key dir).1 ≡ some r
          → IsGone key (unlink_raw index_locked raw_locked disk key dir).0
      by_dir none e k = (index, ap (left_in_data key) e)
      by_dir (some entries) e k = (index, unlink_logs-gone key entries r k)

      by_guard :
          (b : Bool)
          → (if b
              then (disk, none)
              else unlink_raw index_locked raw_locked disk key disk.data_dir).1
            ≡ some r
          → IsGone key
              (if b
                then (disk, none)
                else unlink_raw index_locked raw_locked disk key disk.data_dir).0
      by_guard true k = cc
      by_guard false k = by_dir disk.data_dir refl k
