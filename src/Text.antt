-- ===== src/Text.antt =====
-- Python's `bytes` and `str` as lists of numbers: bytes below 256, code points below 0x110000.
pub mod Order
pub mod Utf8
use Prim.Native.Char.{code}
use Prim.Native.String.{String}
use sylo.Base.{
  ℕ, ◌≡◌, ◌↔◌, Bool, true, false, ◌&&◌, ◌||◌, List, [], ◌∷◌, arith, ◌==◌, ltb, leb, if◌then◌else◌,
}

abbrev pub Bytes : Type 0
Bytes = List ℕ

abbrev pub Text : Type 0
Text = List ℕ

-- The code points of a literal: its bytes too, where it is ASCII.
abbrev pub codes : String → Text
codes String.[] = []
codes (String.◌∷◌ c s) = code c ∷ codes s

-- `==` on `str` and `bytes`.
unfoldable pub text_eq : Text → Text → Bool
text_eq [] [] = true
text_eq [] (d ∷ ds) = false
text_eq (c ∷ cs) [] = false
text_eq (c ∷ cs) (d ∷ ds) = c == d && text_eq cs ds

pub text_eq_iff : (s t : Text) → (text_eq s t ≡ true) ↔ (s ≡ t)
unfolding text_eq
text_eq_iff [] [] = ground arith
text_eq_iff [] (d ∷ ds) = ground arith
text_eq_iff (c ∷ cs) [] = ground arith
text_eq_iff (c ∷ cs) (d ∷ ds) = ground (arith, text_eq_iff cs ds)

-- `<` on `str`: by code points.
unfoldable pub text_lt : Text → Text → Bool
text_lt s [] = false
text_lt [] (d ∷ ds) = true
text_lt (c ∷ cs) (d ∷ ds) = ltb c d || (c == d && text_lt cs ds)

-- `str.isspace` for one code point.
unfoldable pub is_whitespace : ℕ → Bool
is_whitespace c =
    (leb 9 c && leb c 13)
    || (leb 28 c && leb c 32)
    || c == 0x85
    || c == 0xa0
    || c == 0x1680
    || (leb 0x2000 c && leb c 0x200a)
    || c == 0x2028
    || c == 0x2029
    || c == 0x202f
    || c == 0x205f
    || c == 0x3000

unfoldable pub lstrip : Text → Text
unfolding is_whitespace
lstrip [] = []
lstrip (c ∷ cs) = if is_whitespace c then lstrip cs else c ∷ cs

-- Drops the whitespace at the right end.
unfoldable pub rstrip : Text → Text
unfolding is_whitespace
rstrip [] = []
rstrip (c ∷ cs) = rstrip_cons c (rstrip cs)
  where
    rstrip_cons : ℕ → Text → Text
    rstrip_cons c [] = if is_whitespace c then [] else c ∷ []
    rstrip_cons c (d ∷ ds) = c ∷ d ∷ ds

-- `str.strip()`.
unfoldable pub strip : Text → Text
unfolding lstrip rstrip
strip s = rstrip (lstrip s)
