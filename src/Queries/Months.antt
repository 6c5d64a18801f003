-- ===== src/Queries/Months.antt =====
-- Leaving months out of a search with a time range (sylo/webapp/queries.py) loses no row.
use sylo.Base.{
  ℕ, suc, ◌≡◌, refl, ap, subst, ◌≢◌, ◌⊎◌, ◌∙◌, Bool, true, false, not, ◌&&◌, List, [], ◌∷◌, ◌++◌,
  Option, none, some, ◌>>=◌, arith, take, drop, keep, count, Bool-cases, inl, inr,
}
use sylo.Text.{Text, text_lt}
use sylo.Text.Order.{text_lt-take}
use sylo.Schema.{Row, MonthDb}
use sylo.Dict.{Dict, get}
use sylo.Sort.{sort_desc}
use sylo.Indexer.{or_empty_db}
use sylo.Indexer.Flush.{month_rows}
use sylo.Indexer.Partition.{InMonth, IsPartitioned}
use sylo.Queries.{
  number_from, Message, Sqlite, MessageFilter, SearchResult, earlier, relevant_month_keys,
  available_month_keys, in_range, ranged, from_key, to_key, bound_key, given, passes, found_rows,
  or_no_rows, text_test, messages_of, search_messages,
}
use sylo.Queries.Paging.{found_in, all_found, search_messages-exact}

not-false : (b : Bool) → not b ≡ false → b ≡ true
not-false true h = refl
not-false false h = cc

from_key-month :
    (start : Option Text) (key t : Text)
    → take 7 t ≡ key
    → from_key (bound_key start) key ≡ false
    → from_key (given start) t ≡ false
from_key-month none key t e h = cc
from_key-month (some []) key t e h = cc
from_key-month (some (c ∷ cs)) key t e h =
    let less : text_lt (take 7 t) (take 7 (c ∷ cs)) ≡ true = rw e (not-false _ h) in
    rw (text_lt-take 7 t (c ∷ cs) less) refl

to_key-month :
    (end : Option Text) (key t : Text)
    → take 7 t ≡ key
    → to_key (bound_key end) key ≡ false
    → to_key (given end) t ≡ false
to_key-month none key t e h = cc
to_key-month (some []) key t e h = cc
to_key-month (some (c ∷ cs)) key t e h =
    let less : text_lt (take 7 (c ∷ cs)) (take 7 t) ≡ true = rw e (not-false _ h) in
    rw (text_lt-take 7 (c ∷ cs) t less) refl

ranged-bounded :
    (recent : ℕ) (start end : Option Text) (available within : List Text)
    → (start ≢ none) ⊎ (end ≢ none)
    → ranged recent start end available within ≡ within
ranged-bounded recent none none available within (inl h) = absurd (h refl)
ranged-bounded recent none none available within (inr h) = absurd (h refl)
ranged-bounded recent none (some end) available within h = refl
ranged-bounded recent (some start) end available within h = refl

get-InMonth :
    (key : Text) (index : Dict MonthDb) (db : MonthDb)
    → IsPartitioned index
    → get key index ≡ some db
    → InMonth key db.messages
unfolding month_rows
get-InMonth key index db h e =
    subst (λ (o : Option MonthDb). InMonth key (or_empty_db o).messages) e (h key)

module _ (filt : MessageFilter) where
  passes-month :
      (key : Text) (m : Message)
      → take 7 m.row.receipt_time ≡ key
      → in_range filt key ≡ false
      → passes filt m ≡ false
  unfolding passes
  passes-month key m e h = ground (
    arith,
    from_key-month filt.start key m.row.receipt_time e,
    to_key-month filt.end key m.row.receipt_time e,
  )

  keep_none :
      (key : Text) (matches : Message → Bool) (rs : List Row) (n : ℕ)
      → InMonth key rs
      → in_range filt key ≡ false
      → keep (λ m. matches m && passes filt m) (number_from n rs) ≡ []
  unfolding number_from
  keep_none key matches [] n h out = refl
  keep_none key matches (r ∷ rs) n h out = ground (
    arith,
    passes-month key (record { id = n; row = r }) h.0 out,
    keep_none key matches rs (suc n) h.1 out,
  )

  module _ (sqlite : Sqlite) (index : Dict MonthDb) (parted : IsPartitioned index) where
    order_rows-nil : (db : MonthDb) → sqlite.order_rows db [] ≡ []
    order_rows-nil db = nothing (sqlite.order_rows db []) (sqlite.same_rows db [] (λ m. true))
      where
        nothing : (ms : List Message) → count (λ m. true) ms ≡ 0 → ms ≡ []
        nothing [] e = refl
        nothing (m ∷ ms) e = absurd (omega arith)

    found_in-out : (key : Text) → in_range filt key ≡ false → found_in sqlite filt index key ≡ []
    unfolding found_rows
    found_in-out key out = by_month (get key index) refl
      where
        by_text :
            (db : MonthDb) (o : Option (Message → Bool))
            → InMonth key db.messages
            → or_no_rows sqlite (do
              matches ← o
              some (sqlite.order_rows db (keep (λ m. matches m && passes filt m) (messages_of db))))
              ≡ []
        by_text db none h = refl
        by_text db (some matches) h =
            ap (sqlite.order_rows db) (keep_none key matches db.messages 1 h out)
            ∙ order_rows-nil db

        by_month :
            (o : Option MonthDb)
            → get key index ≡ o
            → or_no_rows sqlite (do db ← o; found_rows sqlite filt db) ≡ []
        by_month none e = refl
        by_month (some db) e =
            by_text db (text_test sqlite db filt.text) (get-InMonth key index db parted e)

    all_found-in_range :
        (keys : List Text)
        → all_found sqlite filt index (keep (in_range filt) keys) ≡ all_found sqlite filt index keys
    unfolding all_found
    all_found-in_range [] = refl
    all_found-in_range (key ∷ keys) = elim (Bool-cases (in_range filt key)) [
      | inl within ↦
          rw within (ap (λ ms. found_in sqlite filt index key ++ ms) (all_found-in_range keys))
      | inr out ↦ rw (out, found_in-out key out) (all_found-in_range keys)
    ]

    -- Where every row stands in the database of its month, a search with a start or an end returns the
    -- slice of what the filter finds in all the months there are: leaving out those outside the range
    -- loses nothing.
    pub search_messages-ranged :
        (recent offset limit : ℕ)
        → (filt.start ≢ none) ⊎ (filt.end ≢ none)
        → (search_messages sqlite recent index filt offset limit).rows
          ≡ take limit (
              drop offset
                (sort_desc earlier (all_found sqlite filt index (available_month_keys index))))
    search_messages-ranged recent offset limit given_bound =
        ap (λ (r : SearchResult). r.rows)
          (search_messages-exact sqlite filt index recent offset limit)
        ∙ ap (λ ms. take limit (drop offset (sort_desc earlier ms)))
            (ap (all_found sqlite filt index) relevant
              ∙ all_found-in_range (available_month_keys index))
      where
        relevant :
            relevant_month_keys recent index filt
            ≡ keep (in_range filt) (available_month_keys index)
        relevant =
            unfold relevant_month_keys in ranged-bounded recent filt.start filt.end _ _ given_bound
