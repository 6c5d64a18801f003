-- ===== src/Sort/Merge.antt =====
-- The first elements of a sorted concatenation: no more of each part is needed than of the whole.
use sylo.Base.{
  ℕ, zero, suc, ◌≤◌, ◌≡◌, refl, sym, ap, ◌∙◌, Bool, true, false, List, [], ◌∷◌, ◌++◌, map, arith,
  if◌then◌else◌, take, take-take, Bool-cases, inl, inr,
}
use sylo.Sort.{insert_desc, sort_desc}

abbrev pub concat {ℓ} : {A : Type ℓ} → List (List A) → List A
concat [] = []
concat (xs ∷ xss) = xs ++ concat xss

module _ {ℓ} {A : Type ℓ} (lt : A → A → Bool) where
  -- Each element is no smaller than the next.
  abbrev pub HeadBelow : A → List A → Type 0
  HeadBelow x [] = Unit
  HeadBelow x (y ∷ ys) = lt x y ≡ false

  abbrev pub IsDescending : List A → Type 0
  IsDescending [] = Unit
  IsDescending (x ∷ xs) = HeadBelow x xs × IsDescending xs

  merge : List A → List A → List A
  merge [] bs = bs
  merge (a ∷ as') [] = a ∷ as'
  merge (a ∷ as') (b ∷ bs) =
      let second = b ∷ merge (a ∷ as') bs in
      let first = a ∷ merge as' (b ∷ bs) in if lt a b then second else first

  take-merge :
      (k n m : ℕ) (as' bs : List A)
      → k ≤ n
      → k ≤ m
      → take k (merge (take n as') (take m bs)) ≡ take k (merge as' bs)
  unfolding merge
  take-merge zero n m as' bs h j = refl
  take-merge (suc k) zero m as' bs h j = absurd (omega arith)
  take-merge (suc k) (suc n) zero as' bs h j = absurd (omega arith)
  take-merge (suc k) (suc n) (suc m) [] [] h j = refl
  take-merge (suc k) (suc n) (suc m) [] (b ∷ bs) h j = ap (◌∷◌ b) (take-take k m bs (omega arith))
  take-merge (suc k) (suc n) (suc m) (a ∷ as') [] h j = ap (◌∷◌ a) (take-take k n as' (omega arith))
  take-merge (suc k) (suc n) (suc m) (a ∷ as') (b ∷ bs) h j = elim (Bool-cases (lt a b)) [
    | inl less ↦
        rw less (ap (◌∷◌ b) (take-merge k (suc n) m (a ∷ as') bs (omega arith) (omega arith)))
    | inr more ↦
        rw more (ap (◌∷◌ a) (take-merge k n (suc m) as' (b ∷ bs) (omega arith) (omega arith)))
  ]

  module _ (weak : (x y z : A) → lt x z ≡ false → lt x y ≡ true → lt z y ≡ true) where
    insert_desc-merge :
        (x : A) (as' bs : List A)
        → HeadBelow x as'
        → insert_desc lt x (merge as' bs) ≡ merge (x ∷ as') bs
    unfolding insert_desc merge
    insert_desc-merge x [] [] h = refl
    insert_desc-merge x (a ∷ as') [] h = rw h refl
    insert_desc-merge x [] (b ∷ bs) h = elim (Bool-cases (lt x b)) [
      | inl less ↦ rw less (ap (◌∷◌ b) (insert_desc-merge x [] bs tt))
      | inr more ↦ rw more refl
    ]
    insert_desc-merge x (a ∷ as') (b ∷ bs) h = elim (Bool-cases (lt x b)) [
      | inl less ↦
          rw (less, weak x b a h less) (rw less (ap (◌∷◌ b) (insert_desc-merge x (a ∷ as') bs h)))
      | inr more ↦ elim (Bool-cases (lt a b)) [
        | inl first ↦ rw (more, first) (rw more refl)
        | inr second ↦ rw (more, second) (rw h refl)
      ]
    ]

    -- Sorting a descending list with others behind it merges the two.
    sort_desc-append :
        (as' bs : List A)
        → IsDescending as'
        → sort_desc lt (as' ++ bs) ≡ merge as' (sort_desc lt bs)
    unfolding sort_desc merge
    sort_desc-append [] bs h = refl
    sort_desc-append (a ∷ as') bs h =
        ap (insert_desc lt a) (sort_desc-append as' bs h.1)
        ∙ insert_desc-merge a as' (sort_desc lt bs) h.0

    abbrev pub AllDescending : List (List A) → Type 0
    AllDescending [] = Unit
    AllDescending (xs ∷ xss) = IsDescending xs × AllDescending xss

    IsDescending-take : (n : ℕ) (xs : List A) → IsDescending xs → IsDescending (take n xs)
    IsDescending-take zero xs h = tt
    IsDescending-take (suc n) [] h = tt
    IsDescending-take (suc zero) (x ∷ xs) h = (tt, tt)
    IsDescending-take (suc (suc n)) (x ∷ []) h = (tt, tt)
    IsDescending-take (suc (suc n)) (x ∷ y ∷ xs) h = (h.0, IsDescending-take (suc n) (y ∷ xs) h.1)

    -- The first `k` of descending lists together are those of their first `n`, for any `n` from `k` on.
    pub take-sort_desc :
        (k n : ℕ) (xss : List (List A))
        → k ≤ n
        → AllDescending xss
        → take k (sort_desc lt (concat (map (take n) xss))) ≡ take k (sort_desc lt (concat xss))
    take-sort_desc k n [] h d = refl
    take-sort_desc k n (xs ∷ xss) h d =
        ap (take k) (sort_desc-append (take n xs) _ (IsDescending-take n xs d.0))
        ∙ sym (take-merge k k k (take n xs) _ (omega arith) (omega arith))
        ∙ ap (take k) (
            ap (λ s. merge s (take k (sort_desc lt (concat (map (take n) xss)))))
              (take-take k n xs h)
            ∙ ap (merge (take k xs)) (take-sort_desc k n xss h d.1))
        ∙ take-merge k k k xs _ (omega arith) (omega arith)
        ∙ ap (take k) (sym (sort_desc-append xs (concat xss) d.0))
