-- ===== src/Sort/Order.antt =====
-- What the sort returns: the same elements as often, in descending order.
use sylo.Base.{
  suc, ◌≡◌, refl, ap, ◌∙◌, Bool, true, false, List, [], ◌∷◌, arith, count, length, Bool-cases, inl,
  inr,
}
use sylo.Sort.{insert_desc, sort_desc}
use sylo.Sort.Merge.{HeadBelow, IsDescending}

-- Every test is passed as often in both lists.
abbrev pub SameElements {ℓ} : {A : Type ℓ} → List A → List A → Type ℓ
SameElements {A} xs ys = (p : A → Bool) → count p xs ≡ count p ys

module _ {ℓ} {A : Type ℓ} (lt : A → A → Bool) where
  count-insert_desc :
      (x : A) (xs : List A) (p : A → Bool) → count p (insert_desc lt x xs) ≡ count p (x ∷ xs)
  unfolding insert_desc
  count-insert_desc x [] p = refl
  count-insert_desc x (y ∷ ys) p = elim (Bool-cases (lt x y)) [
    | inl less ↦ rw less (omega (arith, count-insert_desc x ys p))
    | inr more ↦ rw more refl
  ]

  pub sort_desc-SameElements : (xs : List A) → SameElements (sort_desc lt xs) xs
  unfolding sort_desc
  sort_desc-SameElements [] p = refl
  sort_desc-SameElements (x ∷ xs) p =
      count-insert_desc x (sort_desc lt xs) p ∙ omega (arith, sort_desc-SameElements xs p)

  length-insert_desc : (x : A) (xs : List A) → length (insert_desc lt x xs) ≡ suc (length xs)
  unfolding insert_desc
  length-insert_desc x [] = refl
  length-insert_desc x (y ∷ ys) = elim (Bool-cases (lt x y)) [
    | inl less ↦ rw less (ap suc (length-insert_desc x ys))
    | inr more ↦ rw more refl
  ]

  pub length-sort_desc : (xs : List A) → length (sort_desc lt xs) ≡ length xs
  unfolding sort_desc
  length-sort_desc [] = refl
  length-sort_desc (x ∷ xs) = length-insert_desc x (sort_desc lt xs) ∙ ap suc (length-sort_desc xs)

  module _ (asym : (x y : A) → lt x y ≡ true → lt y x ≡ false) where
    HeadBelow-insert_desc :
        (z x : A) (xs : List A)
        → lt z x ≡ false
        → HeadBelow lt z xs
        → HeadBelow lt z (insert_desc lt x xs)
    unfolding insert_desc
    HeadBelow-insert_desc z x [] h k = h
    HeadBelow-insert_desc z x (y ∷ ys) h k = elim (Bool-cases (lt x y)) [
      | inl less ↦ rw less k
      | inr more ↦ rw more h
    ]

    insert_desc-IsDescending :
        (x : A) (xs : List A) → IsDescending lt xs → IsDescending lt (insert_desc lt x xs)
    unfolding insert_desc
    insert_desc-IsDescending x [] h = (tt, tt)
    insert_desc-IsDescending x (y ∷ ys) h = elim (Bool-cases (lt x y)) [
      | inl less ↦
          rw less
            (HeadBelow-insert_desc y x ys (asym x y less) h.0, insert_desc-IsDescending x ys h.1)
      | inr more ↦ rw more (more, h)
    ]

    pub sort_desc-IsDescending : (xs : List A) → IsDescending lt (sort_desc lt xs)
    unfolding sort_desc
    sort_desc-IsDescending [] = tt
    sort_desc-IsDescending (x ∷ xs) =
        insert_desc-IsDescending x (sort_desc lt xs) (sort_desc-IsDescending xs)
