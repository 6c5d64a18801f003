-- ===== src/Server/Newlines.antt =====
-- Newlines in the buffer of a reader (sylo/receiver/server.py), and the lines of the bytes.
use sylo.Base.{
  ℕ, suc, ◌≤◌, ◌<◌, ◌≡◌, refl, sym, ap, ◌∙◌, Bool-cases, inl, inr, List, [], ◌∷◌, ◌++◌, Option,
  none, some, arith, ◌==◌, length,
}
use sylo.Text.{Bytes}
use sylo.Rebuild.{split_lines, push_char}
use sylo.Server.{push_unless_break, rstrip_breaks, push_before, find_newline}

-- Stripping a line of its newline too.
pub rstrip_breaks-append : (l : Bytes) → rstrip_breaks (l ++ b'\n' ∷ []) ≡ rstrip_breaks l
unfolding rstrip_breaks
rstrip_breaks-append [] = refl
rstrip_breaks-append (c ∷ cs) = ap (push_unless_break c) (rstrip_breaks-append cs)

abbrev found_at : Bytes → Bytes → Option (Bytes × Bytes)
found_at before after = some (before, after)

pub find_newline-split_lines :
    (buffer l rest future : Bytes)
    → find_newline buffer ≡ some (l, rest)
    → (split_lines (buffer ++ future) ≡ l ∷ split_lines (rest ++ future))
      × (length rest < length buffer)
unfolding find_newline split_lines
find_newline-split_lines [] l rest future h = cc
find_newline-split_lines (c ∷ cs) l rest future h = elim (Bool-cases (c == b'\n')) [
  | inl ends ↦
      let e : found_at [] cs ≡ found_at l rest = sym (rw ends refl) ∙ h in
      let first : [] ≡ l = cc in
      let later : cs ≡ rest = cc in rw (ends, sym first, sym later) (refl, omega arith)
  | inr inside ↦
      let e : push_before c (find_newline cs) ≡ some (l, rest) = sym (rw inside refl) ∙ h in
      rw inside (go (find_newline cs) (λ a. find_newline-split_lines cs a rest future) e)
]
  where
    go :
        (found : Option (Bytes × Bytes))
        → ((a : Bytes)
            → found ≡ some (a, rest)
            → (split_lines (cs ++ future) ≡ a ∷ split_lines (rest ++ future))
              × (length rest < length cs))
        → push_before c found ≡ some (l, rest)
        → (push_char c (split_lines (cs ++ future)) ≡ l ∷ split_lines (rest ++ future))
          × (length rest < suc (length cs))
    go none ih e = cc
    go (some (a, b)) ih e =
        let same : b ≡ rest = cc in
        let first : c ∷ a ≡ l = cc in
        let (split, less) = ih a (ap (λ r. some (a, r)) same) in
        (rw split (ap (λ x. x ∷ split_lines (rest ++ future)) first), omega arith)

no_push : (c : ℕ) (found : Option (Bytes × Bytes)) → push_before c found ≡ none → found ≡ none
no_push c none h = refl
no_push c (some (a, b)) h = cc

abbrev pub head_of : List Bytes → Bytes
head_of [] = []
head_of (l ∷ ls) = l

pub find_newline-prefix :
    (buffer future : Bytes)
    → find_newline buffer ≡ none
    → length buffer ≤ length (head_of (split_lines (buffer ++ future)))
unfolding find_newline split_lines
find_newline-prefix [] future h = omega arith
find_newline-prefix (c ∷ cs) future h = elim (Bool-cases (c == b'\n')) [
  | inl ends ↦ let e : found_at [] cs ≡ none = sym (rw ends refl) ∙ h in cc
  | inr inside ↦
      let e : push_before c (find_newline cs) ≡ none = sym (rw inside refl) ∙ h in
      rw inside (
        longer (split_lines (cs ++ future))
          (find_newline-prefix cs future (no_push c (find_newline cs) e)))
]
  where
    longer :
        (ls : List Bytes)
        → length cs ≤ length (head_of ls)
        → suc (length cs) ≤ length (head_of (push_char c ls))
    longer [] k = omega (arith, k)
    longer (l ∷ ls) k = omega (arith, k)

-- The one line of a buffer without a newline.
abbrev pub last_line : Bytes → List Bytes
last_line [] = []
last_line (c ∷ cs) = (c ∷ cs) ∷ []

pub split_lines-last :
    (buffer : Bytes) → find_newline buffer ≡ none → split_lines buffer ≡ last_line buffer
unfolding find_newline split_lines
split_lines-last [] h = refl
split_lines-last (c ∷ cs) h = elim (Bool-cases (c == b'\n')) [
  | inl ends ↦ let e : found_at [] cs ≡ none = sym (rw ends refl) ∙ h in cc
  | inr inside ↦
      let e : push_before c (find_newline cs) ≡ none = sym (rw inside refl) ∙ h in
      rw (inside, split_lines-last cs (no_push c (find_newline cs) e)) (longer cs)
]
  where
    longer : (bs : Bytes) → push_char c (last_line bs) ≡ (c ∷ bs) ∷ []
    longer [] = refl
    longer (b ∷ bs) = refl
