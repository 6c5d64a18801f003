-- ===== src/Rebuild/Lines.antt =====
-- Reading the lines of a text file back (sylo/indexer/rebuild.py).
use sylo.Base.{
  ℕ, ◌≡◌, refl, ap, ◌∙◌, Bool, true, false, not, ◌||◌, List, [], ◌∷◌, ◌++◌, some, arith, ◌==◌,
  if◌then◌else◌, all,
}
use sylo.Text.{Text}
use sylo.Rebuild.{universal_newlines, split_lines, partition_space, push_char}

abbrev pub is_unbroken : ℕ → Bool
is_unbroken c = not (c == b'\n' || c == b'\r')

abbrev pub is_no_space : ℕ → Bool
is_no_space c = not (c == b' ')

-- Lines with a newline behind each.
unfoldable pub join_lines : List Text → Text
join_lines [] = []
join_lines (l ∷ ls) = l ++ b'\n' ∷ join_lines ls

abbrev pub AllUnbroken : List Text → Type 0
AllUnbroken [] = Unit
AllUnbroken (l ∷ ls) = (all is_unbroken l ≡ true) × AllUnbroken ls

universal_newlines-cons :
    (c : ℕ) (cs : Text)
    → (c == b'\r') ≡ false
    → universal_newlines (c ∷ cs) ≡ c ∷ universal_newlines cs
unfolding universal_newlines
universal_newlines-cons c [] h = rw h
universal_newlines-cons c (d ∷ cs) h = rw h

universal_newlines-append :
    (l rest : Text)
    → all is_unbroken l ≡ true
    → universal_newlines (l ++ rest) ≡ l ++ universal_newlines rest
universal_newlines-append [] rest h = refl
universal_newlines-append (c ∷ cs) rest h =
    universal_newlines-cons c (cs ++ rest) (ground arith)
    ∙ ap (◌∷◌ c) (universal_newlines-append cs rest (ground arith))

pub universal_newlines-join_lines :
    (ls : List Text) → AllUnbroken ls → universal_newlines (join_lines ls) ≡ join_lines ls
unfolding join_lines
universal_newlines-join_lines [] h = unfold universal_newlines in refl
universal_newlines-join_lines (l ∷ ls) h =
    universal_newlines-append l (b'\n' ∷ join_lines ls) h.0
    ∙ ap (λ t. l ++ t)
        (universal_newlines-cons b'\n' (join_lines ls) refl
          ∙ ap (◌∷◌ b'\n') (universal_newlines-join_lines ls h.1))

split_lines-append :
    (l rest : Text)
    → all is_unbroken l ≡ true
    → split_lines (l ++ b'\n' ∷ rest) ≡ l ∷ split_lines rest
unfolding split_lines
split_lines-append [] rest h = refl
split_lines-append (c ∷ cs) rest h =
    ap (λ ls. if c == b'\n' then [] ∷ ls else push_char c ls)
      (split_lines-append cs rest (ground arith))
    ∙ ground arith

pub split_lines-join_lines : (ls : List Text) → AllUnbroken ls → split_lines (join_lines ls) ≡ ls
unfolding join_lines
split_lines-join_lines [] h = unfold split_lines in refl
split_lines-join_lines (l ∷ ls) h =
    split_lines-append l (join_lines ls) h.0 ∙ ap (◌∷◌ l) (split_lines-join_lines ls h.1)

pub partition_space-append :
    (a b : Text) → all is_no_space a ≡ true → partition_space (a ++ b' ' ∷ b) ≡ some (a, b)
unfolding partition_space
partition_space-append [] b h = refl
partition_space-append (c ∷ cs) b h = ground (arith, partition_space-append cs b)
