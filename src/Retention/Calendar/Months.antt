-- ===== src/Retention/Calendar/Months.antt =====
-- The days of a month and its last day (`_month_end` of sylo/retention/core.py).
use sylo.Base.{
  ℕ, zero, suc, ◌+◌, ◌-◌, ◌≤◌, ◌≡◌, refl, sym, ap, ◌∙◌, true, Bool-cases, inl, inr, [], ◌∷◌, Option,
  some, >>=-eq-some, arith, ◌==◌, if◌then◌else◌,
}
use sylo.Text.{Text}
use sylo.Retention.Calendar.{Date, plain_days, days_in_month, days_of_months, ordinal, date}
use sylo.Retention.{ℤ, pos, split_dash, month_end, day_before, december_end, earlier_end, end_of}

abbrev on : ℕ → ℕ → ℕ → Date
on y m d = record { year = y; month = m; day = d }

-- The first day of the next month follows the last day of a month.
next_month :
    (y k : ℕ)
    → ordinal (on y (suc k + 1) 1) ≡ suc (ordinal (on y (suc k) (days_in_month y (suc k))))
unfolding ordinal days_in_month plain_days days_of_months
next_month y zero = ground arith
next_month y (suc zero) = ground arith
next_month y (suc (suc k)) =
    let e : suc (suc (suc k)) + 1 - 1 ≡ suc (suc (suc k)) = omega arith in
    let f : suc (suc (suc k)) - 1 ≡ suc (suc k) = omega arith in rw (e, f) (ground arith)

-- A day of a month is no later than its last day.
date_le :
    (y m d : ℕ) (t : Date)
    → date y m d ≡ some t
    → (t ≡ on y m d) × ((1 ≤ m) × ((m ≤ 12) × (d ≤ days_in_month y m)))
unfolding date
date_le y m d t h = ground arith

ordinal_mono : (y m d e : ℕ) → d ≤ e → ordinal (on y m d) ≤ ordinal (on y m e)
unfolding ordinal
ordinal_mono y m d e h = omega (arith, h)

december_end_lem : (y n : ℕ) → december_end y ≡ some n → n ≡ ordinal (on y 12 31)
december_end_lem y n h =
    let (t, made, e) = >>=-eq-some (date y 12 31) (λ t. some (ordinal t)) h in
    some_inj e ∙ ap ordinal (date_le y 12 31 t made).0
  where
    some_inj : {a b : ℕ} → some a ≡ some b → b ≡ a
    some_inj h = cc

earlier_end_lem : (y m n : ℕ) → earlier_end y m ≡ some n → suc n ≡ ordinal (on y (m + 1) 1)
earlier_end_lem y m n h =
    let (t, made, e) = >>=-eq-some (date y (m + 1) 1) day_before h in
    day_before_lem t e ∙ ap ordinal (date_le y (m + 1) 1 t made).0
  where
    day_before_lem : (t : Date) → day_before t ≡ some n → suc n ≡ ordinal t
    day_before_lem t h = ground arith

end_of_lem :
    (y m n : ℕ) → 1 ≤ m → m ≤ 12 → end_of y m ≡ some n → n ≡ ordinal (on y m (days_in_month y m))
unfolding days_in_month plain_days ordinal
end_of_lem y zero n from to k = absurd (omega arith)
end_of_lem y (suc m) n from to k = elim (Bool-cases (suc m == 12)) [
  | inl december ↦
      december_end_lem y n
        (sym (ap (λ b. if b then december_end y else earlier_end y (suc m)) december) ∙ k)
      ∙ rw (is_eleven december) refl
  | inr earlier ↦ omega (
    arith,
    next_month y m,
    earlier_end_lem y (suc m) n
        (sym (ap (λ b. if b then december_end y else earlier_end y (suc m)) earlier) ∙ k),
  )
]
  where
    is_eleven : (suc m == 12) ≡ true → m ≡ 11
    is_eleven h = ground arith

end_of-covers : (y m d n : ℕ) (t : Date) → date y m d ≡ some t → end_of y m ≡ some n → ordinal t ≤ n
end_of-covers y m d n t h k =
    let (e, (from, (to, le))) = date_le y m d t h in
    rw (e, end_of_lem y m n from to k) (ordinal_mono y m d (days_in_month y m) le)

-- The date that `_month_end` finds for the key of a year and a month is no earlier than any day of the
-- month: a month that is dropped because its end is too old has no younger day.
pub month_end-covers :
    (parse_int : Text → Option ℤ) (key ys ms : Text) (y m d n : ℕ) (t : Date)
    → split_dash key ≡ ys ∷ ms ∷ []
    → parse_int ys ≡ some (pos y)
    → parse_int ms ≡ some (pos m)
    → date y m d ≡ some t
    → month_end parse_int key ≡ some n
    → ordinal t ≤ n
unfolding month_end
month_end-covers parse_int key ys ms y m d n t split year month made h =
    end_of-covers y m d n t made (sym (rw (split, year, month) refl) ∙ h)
