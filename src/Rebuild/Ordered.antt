-- ===== src/Rebuild/Ordered.antt =====
-- The order in which `rebuild_indexer` (sylo/indexer/rebuild.py) walks over directories and logs.
use sylo.Base.{◌≡◌, refl, Bool, false, List, [], ◌∷◌, ◌&&◌, ◌-◌, arith, leb, length, drop, keep}
use sylo.Text.{Bytes, Text, text_eq, text_lt, codes}
use sylo.Text.Order.{text_lt_asym}
use sylo.Dict.{Dict}
use sylo.Sort.{sort_desc}
use sylo.Sort.Merge.{IsDescending}
use sylo.Sort.Order.{SameElements, sort_desc-IsDescending, sort_desc-SameElements}
use sylo.Retention.{without_suffix}
use sylo.Rebuild.Index.{sort_named, is_log, logs_of}

-- Entries by name, and the same ones, as often.
abbrev pub IsAscending {ℓ} : {A : Type ℓ} → List (Text × A) → Type 0
IsAscending [] = Unit
IsAscending (x ∷ []) = Unit
IsAscending (x ∷ y ∷ xs) = (text_lt y.0 x.0 ≡ false) × IsAscending (y ∷ xs)

abbrev pub InOrder {ℓ} : {A : Type ℓ} → List (Text × A) → List (Text × A) → Type ℓ
InOrder xs ys = IsAscending xs × SameElements xs ys

-- The files of each directory whose names end in `.log`.
abbrev pub ends_in_log : Text → Bool
ends_in_log name = leb 4 (length name) && text_eq (drop (length name - 4) name) (codes ".log")

abbrev pub LogsInOrder : Dict (List (Text × Bytes)) → Type 0
LogsInOrder [] = Unit
LogsInOrder ((ip, files) ∷ dirs) =
    InOrder (logs_of files) (keep (λ f. ends_in_log f.0) files) × LogsInOrder dirs

IsDescending-IsAscending {ℓ} :
    {A : Type ℓ} (xs : List (Text × A)) → IsDescending (λ a b. text_lt b.0 a.0) xs → IsAscending xs
IsDescending-IsAscending [] h = tt
IsDescending-IsAscending (x ∷ []) h = tt
IsDescending-IsAscending (x ∷ y ∷ xs) h = (h.0, IsDescending-IsAscending (y ∷ xs) h.1)

pub sort_named-InOrder {ℓ} : {A : Type ℓ} (xs : List (Text × A)) → InOrder (sort_named xs) xs
unfolding sort_named
sort_named-InOrder {A} xs =
    let before : Text × A → Text × A → Bool = λ a b. text_lt b.0 a.0 in
    (
      IsDescending-IsAscending (sort_desc before xs)
          (sort_desc-IsDescending before (λ a b h. text_lt_asym b.0 a.0 h) xs),
      sort_desc-SameElements before xs,
    )

is_log_lem : (name : Text) → is_log name ≡ ends_in_log name
unfolding is_log without_suffix
is_log_lem name = ground arith

keep-is_log :
    (files : List (Text × Bytes)) → keep (λ f. is_log f.0) files ≡ keep (λ f. ends_in_log f.0) files
keep-is_log [] = refl
keep-is_log (f ∷ files) = rw (is_log_lem f.0, keep-is_log files) refl

pub all-LogsInOrder : (dirs : Dict (List (Text × Bytes))) → LogsInOrder dirs
all-LogsInOrder [] = tt
all-LogsInOrder ((ip, files) ∷ dirs) = (
  rw⁻¹ (keep-is_log files) (sort_named-InOrder (keep (λ f. is_log f.0) files)),
  all-LogsInOrder dirs,
)
