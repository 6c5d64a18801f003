-- ===== src/Retention/Kept.antt =====
-- What a pass of sylo/retention/core.py leaves as it was.
use sylo.Base.{
  ℕ, zero, suc, ◌≤◌, ◌≡◌, refl, sym, ap, ◌∙◌, Bool, true, false, not, Bool-cases, inl, inr, List,
  [], ◌∷◌, ◌++◌, map, Option, none, some, arith, if◌then◌else◌, length, take, keep, all, take-take,
  length-append,
}
use sylo.Text.{Text, text_eq, text_eq_iff, codes}
use sylo.Retention.Delete.{
  Disk, exists, unlink, unlink_each, index_names, is_log_of, unlink_index, proceed, unlink_logs,
  unlink_raw,
}

keep-unlink :
    (p : Text → Bool) (name : Text) (files : List Text)
    → p name ≡ false
    → keep p (unlink name files) ≡ keep p files
unfolding unlink
keep-unlink p name [] h = refl
keep-unlink p name (n ∷ ns) h = elim (Bool-cases (text_eq n name)) [
  | inl same ↦
      let e : n ≡ name = (text_eq_iff n name).0 same in
      let f : p n ≡ false = ap p e ∙ h in rw (same, f) (keep-unlink p name ns h)
  | inr other ↦ rw other (ap (λ rest. if p n then n ∷ rest else rest) (keep-unlink p name ns h))
]

-- Unlinking none of the files that pass a test leaves those.
keep-unlink_each :
    (p : Text → Bool) (locked : Text → Bool) (names files : List Text)
    → all (λ n. not (p n)) names ≡ true
    → keep p (unlink_each locked names files).0 ≡ keep p files
unfolding unlink_each
keep-unlink_each p locked [] files h = refl
keep-unlink_each p locked (name ∷ names) files h = elim (Bool-cases (exists name files)) [
  | inr missing ↦ rw missing (keep-unlink_each p locked names files others)
  | inl there ↦ elim (Bool-cases (locked name)) [
    | inl stuck ↦ rw (there, stuck) refl
    | inr free ↦
        rw (there, free)
          (keep-unlink_each p locked names (unlink name files) others
            ∙ keep-unlink p name files kept)
  ]
]
  where
    others : all (λ n. not (p n)) names ≡ true
    others = ground arith

    kept : p name ≡ false
    kept = ground arith

all-keep :
    (p q : Text → Bool) (names : List Text)
    → ((n : Text) → q n ≡ true → p n ≡ true)
    → all p (keep q names) ≡ true
all-keep p q [] h = refl
all-keep p q (n ∷ ns) h = elim (Bool-cases (q n)) [
  | inl passed ↦ let f : p n ≡ true = h n passed in rw (passed, f) (all-keep p q ns h)
  | inr failed ↦ rw failed (all-keep p q ns h)
]

take-append {ℓ} : {A : Type ℓ} (n : ℕ) (xs ys : List A) → length xs ≡ n → take n (xs ++ ys) ≡ xs
take-append zero [] ys h = refl
take-append zero (x ∷ xs) ys h = absurd (omega (arith, h))
take-append (suc n) [] ys h = absurd (omega (arith, h))
take-append (suc n) (x ∷ xs) ys h = ap (◌∷◌ x) (take-append n xs ys (omega (arith, h)))

-- A file of a month.
abbrev pub of_month : Text → Text → Bool
of_month key name = text_eq (take 7 name) key

of_month-append :
    (key other s : Text)
    → length other ≡ 7
    → text_eq other key ≡ false
    → of_month key (other ++ s) ≡ false
of_month-append key other s h k = rw (take-append 7 other s h) k

is_log_of-of_month :
    (key other name : Text)
    → length other ≡ 7
    → text_eq other key ≡ false
    → is_log_of other name ≡ true
    → not (of_month key name) ≡ true
unfolding is_log_of
is_log_of-of_month key other name h k l = rw (month, k) refl
  where
    prefix : Text
    prefix = other ++ b'-' ∷ []

    begins : take (length prefix) name ≡ prefix
    begins = (text_eq_iff (take (length prefix) name) prefix).0 (ground arith)

    seven : 7 ≤ length prefix
    seven = omega (arith, h, length-append other (b'-' ∷ []))

    month : take 7 name ≡ other
    month =
        sym (take-take 7 (length prefix) name seven)
        ∙ ap (take 7) begins
        ∙ take-append 7 other (b'-' ∷ []) h

abbrev of_device : Text → Text × Option (List Text) → Text × Option (List Text)
of_device key (name, none) = (name, none)
of_device key (name, some files) = (name, some (keep (of_month key) files))

abbrev in_index : Text → Option (List Text) → Option (List Text)
in_index key none = none
in_index key (some names) = some (keep (of_month key) names)

abbrev in_data :
    Text → Option (List (Text × Option (List Text))) → Option (List (Text × Option (List Text)))
in_data key none = none
in_data key (some entries) = some (map (of_device key) entries)

-- The files of a month: in the index, and in the directory of each device.
unfoldable pub month_files :
    Text → Disk → Option (List Text) × Option (List (Text × Option (List Text)))
month_files key disk = (in_index key disk.index_dir, in_data key disk.data_dir)

module _ (index_locked : Text → Bool) (raw_locked : Text → Text → Bool) (key other : Text)
    (seven : length other ≡ 7) (differs : text_eq other key ≡ false) where
  pub unlink_index-month_files :
      (disk : Disk) (dir : Option (List Text))
      → disk.index_dir ≡ dir
      → month_files key (unlink_index index_locked raw_locked disk other dir).0
        ≡ month_files key disk
  unfolding month_files
  unlink_index-month_files disk none e = refl
  unlink_index-month_files disk (some names) e = rw e (
      ap (λ left. (some left, in_data key disk.data_dir))
        (keep-unlink_each (of_month key) index_locked (index_names other) names (
          rw
            (
              of_month-append key other (codes ".sqlite3") seven differs,
              of_month-append key other (codes ".sqlite3-wal") seven differs,
              of_month-append key other (codes ".sqlite3-shm") seven differs,
            )
            refl)))

  unlink_logs-month_files :
      (entries : List (Text × Option (List Text)))
      → map (of_device key) (unlink_logs index_locked raw_locked other entries).0
        ≡ map (of_device key) entries
  unfolding unlink_logs
  unlink_logs-month_files [] = refl
  unlink_logs-month_files ((name, none) ∷ entries) =
      ap (◌∷◌ (name, none)) (unlink_logs-month_files entries)
  unlink_logs-month_files ((name, some files) ∷ entries) =
      proceed_lem (unlink_logs-month_files entries)
        (unlink_each (raw_locked name) (keep (is_log_of other) files) files).1
    where
      left : List Text
      left = (unlink_each (raw_locked name) (keep (is_log_of other) files) files).0

      left_lem : keep (of_month key) left ≡ keep (of_month key) files
      left_lem =
          keep-unlink_each (of_month key) (raw_locked name) (keep (is_log_of other) files) files (
            all-keep (λ n. not (of_month key n)) (is_log_of other) files
              (λ n. is_log_of-of_month key other n seven differs))

      proceed_lem :
          map (of_device key) (unlink_logs index_locked raw_locked other entries).0
            ≡ map (of_device key) entries
          → (count : Option ℕ)
          → map
              (of_device key)
              (proceed index_locked raw_locked name left entries
                (unlink_logs index_locked raw_locked other entries).0
                (unlink_logs index_locked raw_locked other entries).1
                count).0
            ≡ map (of_device key) ((name, some files) ∷ entries)
      proceed_lem rest none = ap (λ ns. (name, some ns) ∷ map (of_device key) entries) left_lem
      proceed_lem rest (some n) = rw (left_lem, rest) refl

  pub unlink_raw-month_files :
      (disk : Disk) (dir : Option (List (Text × Option (List Text))))
      → disk.data_dir ≡ dir
      → month_files key (unlink_raw index_locked raw_locked disk other dir).0 ≡ month_files key disk
  unfolding month_files
  unlink_raw-month_files disk none e = refl
  unlink_raw-month_files disk (some entries) e =
      rw e (ap (λ es. (in_index key disk.index_dir, some es)) (unlink_logs-month_files entries))
