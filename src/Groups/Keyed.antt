-- ===== src/Groups/Keyed.antt =====
-- The group of a key holds elements with that key only.
use sylo.Base.{◌≡◌, refl, List, [], ◌∷◌, ◌++◌, Bool-cases, inl, inr}
use sylo.Text.{Text, text_eq, text_eq_iff}
use sylo.Dict.{Dict, get, set}
use sylo.Groups.{group_from, add_to_group, or_nil}

module _ {A : Type 0} (key : A → Text) where
  abbrev pub AllKeyed : Text → List A → Type 0
  AllKeyed k [] = Unit
  AllKeyed k (x ∷ xs) = (key x ≡ k) × AllKeyed k xs

  abbrev pub AreKeyed : Dict (List A) → Type 0
  AreKeyed [] = Unit
  AreKeyed ((k, xs) ∷ d) = AllKeyed k xs × AreKeyed d

  AllKeyed-add :
      (k : Text) (xs : List A) (x : A) → AllKeyed k xs → key x ≡ k → AllKeyed k (xs ++ x ∷ [])
  AllKeyed-add k [] x h e = (e, tt)
  AllKeyed-add k (y ∷ ys) x h e = (h.0, AllKeyed-add k ys x h.1 e)

  get-AllKeyed : (k : Text) (d : Dict (List A)) → AreKeyed d → AllKeyed k (or_nil (get k d))
  unfolding get
  get-AllKeyed k [] h = tt
  get-AllKeyed k ((j, xs) ∷ d) h = elim (Bool-cases (text_eq j k)) [
    | inl same ↦ rw same (rw ((text_eq_iff j k).0 same) at h.0)
    | inr other ↦ rw other (get-AllKeyed k d h.1)
  ]

  set-AreKeyed :
      (k : Text) (xs : List A) (d : Dict (List A))
      → AllKeyed k xs
      → AreKeyed d
      → AreKeyed (set k xs d)
  unfolding set
  set-AreKeyed k xs [] h g = (h, tt)
  set-AreKeyed k xs ((j, ys) ∷ d) h g = elim (Bool-cases (text_eq j k)) [
    | inl same ↦ rw same (rw ((text_eq_iff j k).0 same) (h, g.1))
    | inr other ↦ rw other (g.0, set-AreKeyed k xs d h g.1)
  ]

  group_from_lem : (xs : List A) (d : Dict (List A)) → AreKeyed d → AreKeyed (group_from key d xs)
  unfolding group_from
  group_from_lem [] d h = h
  group_from_lem (x ∷ xs) d h =
      group_from_lem xs (add_to_group key x d)
        (set-AreKeyed (key x) _ d (AllKeyed-add (key x) _ x (get-AllKeyed (key x) d h) refl) h)

  pub group_from-AreKeyed : (xs : List A) → AreKeyed (group_from key [] xs)
  group_from-AreKeyed xs = group_from_lem xs [] tt
