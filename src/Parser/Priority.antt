-- ===== src/Parser/Priority.antt =====
-- `_split_pri` of sylo/parser.py: the priority in angle brackets.
use sylo.Base.{
  ℕ, zero, suc, ◌+◌, ◌-◌, ◌*◌, ◌/◌, ◌%◌, ◌≤◌, ◌<◌, ◌≡◌, ◌≢◌, refl, ap, ◌∙◌, inl, inr, Bool, true,
  [], ◌∷◌, ◌++◌, append_assoc, Option, none, some, arith, ltb, if◌then◌else◌, all, length,
  Bool-cases,
}
use sylo.Text.{Bytes}
use sylo.Parser.Patterns.{is_digit, span_max, match_pri}
use sylo.Parser.{Pri, no_pri, matched, int_digits, split_pri}

-- A number below 1000 in decimal.
abbrev pub decimal : ℕ → Bytes
decimal n =
    if ltb n 10
    then (48 + n) ∷ []
    else if ltb n 100
    then (48 + n / 10) ∷ (48 + n % 10) ∷ []
    else (48 + n / 100) ∷ (48 + n / 10 % 10) ∷ (48 + n % 10) ∷ []

-- The priority of a message as RFC 3164 and RFC 5424 write it.
unfoldable pub render_pri : ℕ → ℕ → Bytes
render_pri facility severity = b'<' ∷ (decimal (facility * 8 + severity) ++ b'>' ∷ [])

-- Digits are matched and read back.
match_pri-decimal :
    (n : ℕ) (rest : Bytes)
    → n < 1000
    → match_pri (b'<' ∷ (decimal n ++ b'>' ∷ rest)) ≡ some (decimal n, rest)
unfolding match_pri
match_pri-decimal n rest h = ground arith

int_digits-decimal : (n : ℕ) → n < 1000 → int_digits 0 (decimal n) ≡ some n
unfolding int_digits
int_digits-decimal n h = ground arith

-- A facility up to 23 and a severity up to 7, rendered with any bytes behind them, are split off
-- again, and the bytes are the rest.
pub split_pri-render :
    (facility severity : ℕ) (rest : Bytes)
    → facility ≤ 23
    → severity ≤ 7
    → split_pri (render_pri facility severity ++ rest)
      ≡ some (record { facility = some facility; severity = some severity; rest = rest })
unfolding split_pri render_pri
split_pri-render f s rest hf hs = ground (
  arith,
  append_assoc (decimal (f * 8 + s)) (b'>' ∷ []) rest,
  match_pri-decimal (f * 8 + s) rest,
  int_digits-decimal (f * 8 + s),
)

module _ (p : ℕ → Bool) where
  span_max-splits :
      (n : ℕ) (cs : Bytes)
      → (cs ≡ (span_max p n cs).0 ++ (span_max p n cs).1)
        × (all p (span_max p n cs).0 ≡ true)
        × (length (span_max p n cs).0 ≤ n)
  unfolding span_max
  span_max-splits zero cs = (refl, refl, omega arith)
  span_max-splits (suc n) [] = (refl, refl, omega arith)
  span_max-splits (suc n) (c ∷ cs) = ground (arith, span_max-splits n cs)

-- What a match of `_PRI_RE` says of the bytes.
match_pri_sound :
    (raw digits rest : Bytes)
    → match_pri raw ≡ some (digits, rest)
    → (raw ≡ b'<' ∷ (digits ++ b'>' ∷ rest))
      × (all is_digit digits ≡ true)
      × (digits ≢ [])
      × (length digits ≤ 3)
unfolding match_pri
match_pri_sound [] digits rest h = cc
match_pri_sound (c ∷ cs) digits rest h = ground (arith, span_max-splits is_digit 3 cs)

int_digits_total :
    (n : ℕ) (digits : Bytes) → all is_digit digits ≡ true → (v : ℕ) × (int_digits n digits ≡ some v)
unfolding int_digits
int_digits_total n [] h = (n, refl)
int_digits_total n (c ∷ cs) h = ground (arith, int_digits_total (n * 10 + (c - b'0')) cs)

-- How a split can end: the bytes begin with a priority in range, or nothing is split off.
pub data Splits (raw : Bytes) (p : Pri) : Type 0 where
  split :
      (digits rest : Bytes) (facility severity : ℕ)
      → raw ≡ b'<' ∷ (digits ++ b'>' ∷ rest)
      → all is_digit digits ≡ true
      → length digits ≤ 3
      → int_digits 0 digits ≡ some (facility * 8 + severity)
      → facility ≤ 23
      → severity ≤ 7
      → p ≡ record { facility = some facility; severity = some severity; rest = rest }
      → Splits raw p
  whole : p ≡ no_pri raw → Splits raw p

matched-Splits :
    (raw : Bytes) (m : Option (Bytes × Bytes))
    → match_pri raw ≡ m
    → (p : Pri) × (matched raw m ≡ some p) × Splits raw p
matched-Splits raw none e = (no_pri raw, refl, whole refl)
matched-Splits raw (some (digits, rest)) e = in_range-Splits (int_digits_total 0 digits sound.1)
  where
    sound :
        (raw ≡ b'<' ∷ (digits ++ b'>' ∷ rest))
        × (all is_digit digits ≡ true)
        × (digits ≢ [])
        × (length digits ≤ 3)
    sound = match_pri_sound raw digits rest e

    in_range-Splits :
        ((v : ℕ) × (int_digits 0 digits ≡ some v))
        → (p : Pri) × (matched raw (some (digits, rest)) ≡ some p) × Splits raw p
    in_range-Splits (v, read) = elim (Bool-cases (ltb 191 v)) [
      | inl large ↦ (no_pri raw, rw (read, large), whole refl)
      | inr fits ↦ (
        record { facility = some (v / 8); severity = some (v % 8); rest = rest },
        rw (read, fits),
        split digits rest (v / 8) (v % 8) sound.0 sound.1 sound.3 (read ∙ ap some (omega arith))
            (ground arith) (omega arith) refl,
      )
    ]

-- `_split_pri` raises for no bytes; it splits off a priority of one to three digits that is at most
-- 191, as facility up to 23 and severity up to 7, or returns the bytes whole with neither.
pub split_pri-Splits : (raw : Bytes) → (p : Pri) × (split_pri raw ≡ some p) × Splits raw p
unfolding split_pri
split_pri-Splits raw = matched-Splits raw (match_pri raw) refl
