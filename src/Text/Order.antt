-- ===== src/Text/Order.antt =====
-- The order of `str` is a total order.
use sylo.Base.{ℕ, zero, suc, take, ◌≡◌, refl, true, false, [], ◌∷◌, arith}
use sylo.Text.{Text, text_lt}

pub text_lt_asym : (s t : Text) → text_lt s t ≡ true → text_lt t s ≡ false
unfolding text_lt
text_lt_asym [] [] h = refl
text_lt_asym [] (d ∷ ds) h = refl
text_lt_asym (c ∷ cs) [] h = cc
text_lt_asym (c ∷ cs) (d ∷ ds) h = ground (arith, text_lt_asym cs ds)

-- `s ≥ u` and `s < t` give `u < t`.
pub text_lt_weak : (s t u : Text) → text_lt s u ≡ false → text_lt s t ≡ true → text_lt u t ≡ true
unfolding text_lt
text_lt_weak s [] u h k = cc
text_lt_weak s (d ∷ ds) [] h k = refl
text_lt_weak [] (d ∷ ds) (e ∷ es) h k = cc
text_lt_weak (c ∷ cs) (d ∷ ds) (e ∷ es) h k = ground (arith, text_lt_weak cs ds es)

-- Prefixes of one length do not turn the order round.
pub text_lt-take : (n : ℕ) (s t : Text) → text_lt (take n s) (take n t) ≡ true → text_lt s t ≡ true
unfolding text_lt
text_lt-take zero s t h = cc
text_lt-take (suc n) s [] h = cc
text_lt-take (suc n) [] (d ∷ ds) h = refl
text_lt-take (suc n) (c ∷ cs) (d ∷ ds) h = ground (arith, text_lt-take n cs ds)
