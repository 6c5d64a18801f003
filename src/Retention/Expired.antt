-- ===== src/Retention/Expired.antt =====
-- `_expired_month_keys` (sylo/retention/core.py): which months it leaves out.
use sylo.Base.{
  ℕ, ◌≤◌, ◌≡◌, refl, sym, ap, ◌∙◌, Bool, true, false, not, ◌&&◌, Bool-cases, inl, inr, ◌⊎◌, List,
  [], ◌∷◌, Option, none, some, arith, ◌==◌, ltb, length, all,
}
use sylo.Text.{Text, text_eq, text_eq_iff, codes}
use sylo.Sort.{insert_desc, sort_desc}
use sylo.Retention.{
  ℤ, month_end, check_end, expired_of, without_suffix, add_stem, stems_of, available_month_keys,
}

all-insert_desc {ℓ} :
    {A : Type ℓ} (lt : A → A → Bool) (p : A → Bool) (x : A) (xs : List A)
    → p x ≡ true
    → all p xs ≡ true
    → all p (insert_desc lt x xs) ≡ true
unfolding insert_desc
all-insert_desc lt p x [] h k = ground arith
all-insert_desc lt p x (y ∷ ys) h k = ground (arith, all-insert_desc lt p x ys)

all-sort_desc {ℓ} :
    {A : Type ℓ} (lt : A → A → Bool) (p : A → Bool) (xs : List A)
    → all p xs ≡ true
    → all p (sort_desc lt xs) ≡ true
unfolding sort_desc
all-sort_desc lt p [] h = refl
all-sort_desc lt p (x ∷ xs) h =
    all-insert_desc lt p x (sort_desc lt xs) (ground arith) (all-sort_desc lt p xs (ground arith))

abbrev is_key : Text → Bool
is_key key = length key == 7

all-stems_of : (names : List Text) → all is_key (stems_of names) ≡ true
unfolding stems_of
all-stems_of [] = refl
all-stems_of (name ∷ names) =
    add (without_suffix (codes ".sqlite3") name) (stems_of names) (all-stems_of names)
  where
    add :
        (stem : Option Text) (stems : List Text)
        → all is_key stems ≡ true
        → all is_key (add_stem stem stems) ≡ true
    add none stems h = h
    add (some s) stems h = ground arith

pub all-available_month_keys :
    (dir : Option (List Text)) → all is_key (available_month_keys dir) ≡ true
unfolding available_month_keys
all-available_month_keys none = refl
all-available_month_keys (some names) = all-sort_desc _ is_key (stems_of names) (all-stems_of names)

-- Another month than a key's.
abbrev pub other_month : Text → Text → Bool
other_month key other = length other == 7 && not (text_eq other key)

-- The current month, and one that does not end before the limit, are not among the expired ones.
module _ (parse_int : Text → Option ℤ) where
  abbrev pub IsLive : ℕ → Text → Text → Type 0
  IsLive limit current key =
      (key ≡ current) ⊎ ((n : ℕ) × (month_end parse_int key ≡ some n) × (limit ≤ n))

  abbrev pub all_of : (Text → Bool) → Option (List Text) → Bool
  all_of p none = true
  all_of p (some keys) = all p keys

  not_expired :
      (limit last : ℕ) (current key k : Text)
      → IsLive limit current key
      → month_end parse_int k ≡ some last
      → text_eq k current ≡ false
      → ltb last limit ≡ true
      → text_eq k key ≡ false
  not_expired limit last current key k live e other old = elim (Bool-cases (text_eq k key)) [
    | inr differs ↦ differs
    | inl same ↦ let bad : false ≡ true = clash live ((text_eq_iff k key).0 same) in cc
  ]
    where
      clash : IsLive limit current key → k ≡ key → false ≡ true
      clash (inl now) h = sym other ∙ (text_eq_iff k current).1 (h ∙ now)
      clash (inr (n, ends, le)) h = ground (arith, ap (month_end parse_int) h)

  pub expired_of-IsLive :
      (limit : ℕ) (current key : Text) (keys : List Text)
      → IsLive limit current key
      → all is_key keys ≡ true
      → all_of (other_month key) (expired_of parse_int limit current keys) ≡ true
  unfolding expired_of
  expired_of-IsLive limit current key [] live seven = refl
  expired_of-IsLive limit current key (k ∷ keys) live seven =
      let rest : all_of (other_month key) (expired_of parse_int limit current keys) ≡ true =
        expired_of-IsLive limit current key keys live (ground arith) in
      elim (Bool-cases (text_eq k current)) [
        | inl same ↦ rw same rest
        | inr other ↦ rw other (check (month_end parse_int k) refl other _ rest)
      ]
    where
      check :
          (last : Option ℕ)
          → month_end parse_int k ≡ last
          → text_eq k current ≡ false
          → (later : Option (List Text)) → all_of (other_month key) later ≡ true
          → all_of (other_month key) (check_end parse_int limit k last later) ≡ true
      check none e other later h = refl
      check (some last) e other none h = refl
      check (some last) e other (some ks) h = elim (Bool-cases (ltb last limit)) [
        | inr recent ↦ rw recent h
        | inl old ↦
            let differs : text_eq k key ≡ false =
              not_expired limit last current key k live e other old in
            let long : (length k == 7) ≡ true = ground arith in rw (old, long, differs) h
      ]
