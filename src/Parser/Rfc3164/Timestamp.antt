-- ===== src/Parser/Rfc3164/Timestamp.antt =====
-- The time stamp of `_3164_HEADER_RE` of sylo/parser.py.
use sylo.Base.{
  ℕ, ◌+◌, ◌/◌, ◌%◌, ◌<◌, ◌≡◌, Bool, true, false, ◌&&◌, ◌∷◌, some, arith, ltb, if◌then◌else◌,
}
use sylo.Text.{Bytes}
use sylo.Parser.Patterns.{is_space, is_word, skip_timestamp, skip_month, skip_day, skip_two}

-- The time stamp of RFC 3164, `Mmm dd hh:mm:ss`, with the day padded by a space.
pub record Stamp : Type 0 where
  pub month : ℕ × ℕ × ℕ
  pub day : ℕ
  pub hour : ℕ
  pub minute : ℕ
  pub second : ℕ

pub record IsStamp (t : Stamp) : Type 0 where
  pub letters : (is_word t.month.0 ≡ true) × (is_word t.month.1 ≡ true) × (is_word t.month.2 ≡ true)
  pub day : t.day < 32
  pub hour : t.hour < 24
  pub minute : t.minute < 60
  pub second : t.second < 60

-- Two digits, the first a space where `pad` is set and it would be 0; with bytes behind them.
abbrev two_digits : Bool → ℕ → Bytes → Bytes
two_digits pad n rest = (if pad && ltb n 10 then b' ' else 48 + n / 10) ∷ (48 + n % 10) ∷ rest

unfoldable pub render_stamp : Stamp → Bytes → Bytes
render_stamp t rest =
    t.month.0
    ∷ t.month.1
    ∷ t.month.2
    ∷ b' '
    ∷ two_digits true t.day (
        b' '
        ∷ two_digits false t.hour
            (b':' ∷ two_digits false t.minute (b':' ∷ two_digits false t.second rest)))

skip_month-letters :
    (a b c : ℕ) (rest : Bytes)
    → is_word a ≡ true
    → is_word b ≡ true
    → is_word c ≡ true
    → skip_month (a ∷ b ∷ c ∷ rest) ≡ some rest
unfolding skip_month
skip_month-letters a b c rest h k l = rw (h, k, l)

skip_day-render :
    (d : ℕ) (rest : Bytes)
    → d < 32
    → skip_day (b' ' ∷ two_digits true d (b' ' ∷ rest)) ≡ some (b' ' ∷ rest)
unfolding skip_day
skip_day-render d rest h = ground arith

skip_two-render : (n : ℕ) (rest : Bytes) → n < 60 → skip_two (two_digits false n rest) ≡ some rest
unfolding skip_two
skip_two-render n rest h = ground arith

pub skip_timestamp-render :
    (t : Stamp) (rest : Bytes) → IsStamp t → skip_timestamp (render_stamp t rest) ≡ some rest
unfolding skip_timestamp render_stamp is_space
skip_timestamp-render t rest h = rw (
  skip_month-letters _ _ _ _ h.letters.0 h.letters.1 h.letters.2,
  skip_day-render t.day _ h.day,
  skip_two-render t.hour _ (omega (arith, h.hour)),
  skip_two-render t.minute _ h.minute,
  skip_two-render t.second _ h.second,
)
