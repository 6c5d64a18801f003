-- ===== src/Sort.antt =====
-- Python's stable sort, on `reverse=True`: the larger keys first, and equal keys in the order they
-- had. `lt x y` says that the key of `x` is the smaller one; `sorted` without `reverse` is the same
-- sort by the turned-round test.
pub mod Merge
pub mod Order
use sylo.Base.{Bool, List, [], ◌∷◌, if◌then◌else◌}

module _ {ℓ} {A : Type ℓ} (lt : A → A → Bool) where
  -- In front of the first element that is not larger.
  unfoldable pub insert_desc : A → List A → List A
  insert_desc x [] = x ∷ []
  insert_desc x (y ∷ ys) = if lt x y then y ∷ insert_desc x ys else x ∷ y ∷ ys

  unfoldable pub sort_desc : List A → List A
  sort_desc [] = []
  sort_desc (x ∷ xs) = insert_desc x (sort_desc xs)
