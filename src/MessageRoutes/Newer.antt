-- ===== src/MessageRoutes/Newer.antt =====
-- `_poll_new_rows` (sylo/webapp/routes/messages.py): the ids of the rows are their positions.
use sylo.Base.{
  ℕ, zero, suc, ◌+◌, ◌<◌, ◌≡◌, refl, sym, ap, ◌∙◌, Bool, true, false, List, [], ◌∷◌, ◌++◌, some,
  arith, ltb, length, take, drop, keep,
}
use sylo.Schema.{Row, MonthDb}
use sylo.Queries.{Message, number_from, messages_of}
use sylo.MessageRoutes.{poll_limit, last_id_of, poll_new_rows}

abbrev newer : ℕ → Message → Bool
newer n m = ltb n m.id

keep-newer_all :
    (n m : ℕ) (rs : List Row) → n < m → keep (newer n) (number_from m rs) ≡ number_from m rs
unfolding number_from
keep-newer_all n m [] h = refl
keep-newer_all n m (r ∷ rs) h =
    rw (is_newer)
      (ap (λ ms. record { id = m; row = r } ∷ ms) (keep-newer_all n (suc m) rs (omega arith)))
  where
    is_newer : ltb n m ≡ true
    is_newer = ground arith

keep-newer :
    (n k m : ℕ) (rs : List Row)
    → suc n ≡ m + k
    → keep (newer n) (number_from m rs) ≡ drop k (number_from m rs)
unfolding number_from
keep-newer n zero m [] h = refl
keep-newer n (suc k) m [] h = refl
keep-newer n zero m (r ∷ rs) h = keep-newer_all n m (r ∷ rs) (omega (arith, h))
keep-newer n (suc k) m (r ∷ rs) h = rw (is_old) (keep-newer n k (suc m) rs (omega (arith, h)))
  where
    is_old : ltb n m ≡ false
    is_old = ground (arith, h)

drop-number_from :
    (k m : ℕ) (rs : List Row) → drop k (number_from m rs) ≡ number_from (m + k) (drop k rs)
unfolding number_from
drop-number_from zero m rs = ap (λ i. number_from i rs) (omega arith)
drop-number_from (suc k) m [] = refl
drop-number_from (suc k) m (r ∷ rs) =
    drop-number_from k (suc m) rs ∙ ap (λ i. number_from i (drop k rs)) (omega arith)

pub number_from-append :
    (m : ℕ) (rs more : List Row)
    → number_from m (rs ++ more) ≡ number_from m rs ++ number_from (m + length rs) more
unfolding number_from
number_from-append m [] more = ap (λ i. number_from i more) (omega arith)
number_from-append m (r ∷ rs) more =
    ap (λ ms. record { id = m; row = r } ∷ ms)
      (number_from-append (suc m) rs more
        ∙ ap (λ i. number_from (suc m) rs ++ number_from i more) (omega arith))

last_id_of-number_from :
    (k n : ℕ) (rs : List Row)
    → last_id_of n (take k (number_from (suc n) rs)) ≡ n + length (take k (number_from (suc n) rs))
unfolding last_id_of number_from
last_id_of-number_from zero n rs = omega arith
last_id_of-number_from (suc k) n [] = omega arith
last_id_of-number_from (suc k) n (r ∷ rs) = last_id_of-number_from k (suc n) rs ∙ omega arith

pub drop-append {ℓ} : {A : Type ℓ} (xs ys : List A) → drop (length xs) (xs ++ ys) ≡ ys
drop-append [] ys = refl
drop-append (x ∷ xs) ys = drop-append xs ys

-- A poll after `old` yields the next rows of what remains, and remembers the last of them.
pub poll_new_rows_lem :
    (db : MonthDb) (old rest : List Message)
    → messages_of db ≡ old ++ rest
    → poll_new_rows db (some (length old))
      ≡ (take poll_limit rest, length old + length (take poll_limit rest))
unfolding poll_new_rows
poll_new_rows_lem db old rest h =
    rw (keep-newer (length old) (length old) 1 db.messages (omega arith), remaining)
      (ap (λ i. (take poll_limit rest, i)) last_id)
  where
    remaining : drop (length old) (number_from 1 db.messages) ≡ rest
    remaining = ap (drop (length old)) h ∙ drop-append old rest

    ids : rest ≡ number_from (suc (length old)) (drop (length old) db.messages)
    ids =
        sym remaining
        ∙ drop-number_from (length old) 1 db.messages
        ∙ ap (λ i. number_from i (drop (length old) db.messages)) (omega arith)

    last_id :
        last_id_of (length old) (take poll_limit rest) ≡ length old + length (take poll_limit rest)
    last_id =
        ap (λ ms. last_id_of (length old) (take poll_limit ms)) ids
        ∙ last_id_of-number_from poll_limit (length old) (drop (length old) db.messages)
        ∙ ap (λ ms. length old + length (take poll_limit ms)) (sym ids)

pub length-number_from : (m : ℕ) (rs : List Row) → length (number_from m rs) ≡ length rs
unfolding number_from
length-number_from m [] = refl
length-number_from m (r ∷ rs) = ap suc (length-number_from (suc m) rs)
