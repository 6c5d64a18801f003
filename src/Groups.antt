-- ===== src/Groups.antt =====
-- `d.setdefault(key, []).append(x)` over a list, as the flushes of the receiver and of the indexer
-- group their messages.
pub mod Keyed
use sylo.Base.{
  ◌≡◌, refl, ◌∙◌, Bool, List, [], ◌∷◌, ◌++◌, append-nil, append_assoc, Option, none, some, arith,
  keep, Bool-cases, inl, inr,
}
use sylo.Text.{Text, text_eq, text_eq_iff}
use sylo.Dict.{Dict, get, set, get-set}

abbrev pub or_nil {ℓ} : {A : Type ℓ} → Option (List A) → List A
or_nil none = []
or_nil (some xs) = xs

module _ {ℓ} {A : Type ℓ} (key : A → Text) where
  abbrev pub add_to_group : A → Dict (List A) → Dict (List A)
  add_to_group x d = set (key x) (or_nil (get (key x) d) ++ x ∷ []) d

  unfoldable pub group_from : Dict (List A) → List A → Dict (List A)
  group_from d [] = d
  group_from d (x ∷ xs) = group_from (add_to_group x d) xs

  abbrev pub in_group : Text → A → Bool
  in_group k x = text_eq (key x) k

  -- The group of a key holds, in their order, the elements with that key.
  pub get-group_from :
      (k : Text) (xs : List A) (d : Dict (List A))
      → or_nil (get k (group_from d xs)) ≡ or_nil (get k d) ++ keep (in_group k) xs
  unfolding group_from
  get-group_from k [] d = rw append-nil
  get-group_from k (x ∷ xs) d = get-group_from k xs (add_to_group x d) ∙ grown
    where
      grown :
          or_nil (get k (add_to_group x d)) ++ keep (in_group k) xs
          ≡ or_nil (get k d) ++ keep (in_group k) (x ∷ xs)
      grown = ground (
        arith,
        get-set k (key x) (or_nil (get (key x) d) ++ x ∷ []) d,
        text_eq_iff (key x) k,
        append_assoc (or_nil (get k d)) (x ∷ []) (keep (in_group k) xs),
      )

-- No key stands twice.
abbrev pub Distinct {ℓ} : {V : Type ℓ} → Dict V → Type ℓ
Distinct [] = Unit
Distinct ((k, v) ∷ d) = (get k d ≡ none) × Distinct d

pub Distinct-set {ℓ} :
    {V : Type ℓ} (k : Text) (v : V) (d : Dict V) → Distinct d → Distinct (set k v d)
unfolding set get
Distinct-set k v [] h = (refl, tt)
Distinct-set k v ((j, w) ∷ d) h = elim (Bool-cases (text_eq j k)) [
  | inl here ↦ rw here h
  | inr later ↦ rw later (
    rw (get-set j k v d) (ground (arith, text_eq_iff j k, text_eq_iff k j)),
    Distinct-set k v d h.1,
  )
]

pub Distinct-group_from {ℓ} :
    {A : Type ℓ} (key : A → Text) (xs : List A) (d : Dict (List A))
    → Distinct d
    → Distinct (group_from key d xs)
unfolding group_from
Distinct-group_from key [] d h = h
Distinct-group_from key (x ∷ xs) d h =
    Distinct-group_from key xs (add_to_group key x d) (Distinct-set _ _ d h)
