-- ===== src/Timeutil/Order.antt =====
-- The order of formatted receipt times (sylo/timeutil.py) is that of the times.
use sylo.Base.{
  ℕ, ◌≤◌, ◌/◌, ◌%◌, ◌≡◌, refl, ap, ◌∙◌, Bool, false, ◌&&◌, ◌||◌, [], ◌∷◌, arith, ◌==◌, ltb, length,
  take,
}
use sylo.Text.{Text, text_lt, codes}
use sylo.Timeutil.{Datetime, IsDatetime, two, four, six, month_key, format_receipt_time}

-- A field in front of a comparison.
abbrev pub then_by : ℕ → ℕ → Bool → Bool
then_by a b rest = ltb a b || (a == b && rest)

text_lt-two :
    (a b : ℕ) (s t : Text)
    → a ≤ 99
    → b ≤ 99
    → text_lt (two a s) (two b t) ≡ then_by a b (text_lt s t)
unfolding text_lt
text_lt-two a b s t h k = ground arith

text_lt-same : (c : ℕ) (s t : Text) → text_lt (c ∷ s) (c ∷ t) ≡ text_lt s t
unfolding text_lt
text_lt-same c s t = ground arith

then_by-four :
    (a b : ℕ) (rest : Bool)
    → then_by (a / 100) (b / 100) (then_by (a % 100) (b % 100) rest) ≡ then_by a b rest
then_by-four a b rest = ground arith

then_by-six :
    (a b : ℕ) (rest : Bool)
    → then_by
        (a / 10000)
        (b / 10000)
        (then_by (a / 100 % 100) (b / 100 % 100) (then_by (a % 100) (b % 100) rest))
      ≡ then_by a b rest
then_by-six a b rest = ground arith

text_lt-four :
    (a b : ℕ) (s t : Text)
    → a ≤ 9999
    → b ≤ 9999
    → text_lt (four a s) (four b t) ≡ then_by a b (text_lt s t)
text_lt-four a b s t h k =
    text_lt-two (a / 100) (b / 100) _ _ (omega arith) (omega arith)
    ∙ ap (then_by (a / 100) (b / 100))
        (text_lt-two (a % 100) (b % 100) s t (omega arith) (omega arith))
    ∙ then_by-four a b (text_lt s t)

text_lt-six :
    (a b : ℕ) (s t : Text)
    → a ≤ 999999
    → b ≤ 999999
    → text_lt (six a s) (six b t) ≡ then_by a b (text_lt s t)
text_lt-six a b s t h k =
    text_lt-two (a / 10000) (b / 10000) _ _ (omega arith) (omega arith)
    ∙ ap (then_by (a / 10000) (b / 10000)) (
        text_lt-two (a / 100 % 100) (b / 100 % 100) _ _ (omega arith) (omega arith)
        ∙ ap (then_by (a / 100 % 100) (b / 100 % 100))
            (text_lt-two (a % 100) (b % 100) s t (omega arith) (omega arith)))
    ∙ then_by-six a b (text_lt s t)

-- One time is before another: by the year, then the month, and so on.
unfoldable pub before : Datetime → Datetime → Bool
before a b = then_by a.year b.year (
    then_by a.month b.month (
      then_by a.day b.day (
        then_by a.hour b.hour (
          then_by a.minute b.minute
            (then_by a.second b.second (then_by a.microsecond b.microsecond false))))))

text_lt-dash_two :
    (c a b : ℕ) (s t : Text)
    → a ≤ 99
    → b ≤ 99
    → text_lt (c ∷ two a s) (c ∷ two b t) ≡ then_by a b (text_lt s t)
text_lt-dash_two c a b s t h k = text_lt-same c (two a s) (two b t) ∙ text_lt-two a b s t h k

text_lt_irrefl : (s : Text) → text_lt s s ≡ false
unfolding text_lt
text_lt_irrefl [] = refl
text_lt_irrefl (c ∷ cs) = ground (arith, text_lt_irrefl cs)

-- Formatted receipt times of the years 1000 to 9999 compare, as texts, as the times do.
pub text_lt-format_receipt_time :
    (a b : Datetime)
    → IsDatetime a
    → IsDatetime b
    → text_lt (format_receipt_time a) (format_receipt_time b) ≡ before a b
unfolding format_receipt_time before
text_lt-format_receipt_time a b h k =
    text_lt-four a.year b.year _ _ h.year_to k.year_to
    ∙ ap (then_by a.year b.year) (
        text_lt-dash_two b'-' a.month b.month _ _ (omega (arith, h.month_to))
          (omega (arith, k.month_to))
        ∙ ap (then_by a.month b.month) (
            text_lt-dash_two b'-' a.day b.day _ _ (omega (arith, h.day_to))
              (omega (arith, k.day_to))
            ∙ ap (then_by a.day b.day) (
                text_lt-dash_two b'T' a.hour b.hour _ _ (omega (arith, h.hour_to))
                  (omega (arith, k.hour_to))
                ∙ ap (then_by a.hour b.hour) (
                    text_lt-dash_two b':' a.minute b.minute _ _ (omega (arith, h.minute_to))
                      (omega (arith, k.minute_to))
                    ∙ ap (then_by a.minute b.minute) (
                        text_lt-dash_two b':' a.second b.second _ _ (omega (arith, h.second_to))
                          (omega (arith, k.second_to))
                        ∙ ap (then_by a.second b.second) (
                            text_lt-same b'.' _ _
                            ∙ text_lt-six a.microsecond b.microsecond _ _ h.microsecond_to
                                k.microsecond_to
                            ∙ ap (then_by a.microsecond b.microsecond)
                                (text_lt_irrefl (codes "+00:00"))))))))

-- Every formatted time has the same width, and begins with the month's key.
pub take-format_receipt_time :
    (dt : Datetime)
    → (length (format_receipt_time dt) ≡ 32) × (take 7 (format_receipt_time dt) ≡ month_key dt)
unfolding format_receipt_time month_key
take-format_receipt_time dt = (refl, refl)
