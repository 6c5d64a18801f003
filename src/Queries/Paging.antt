-- ===== src/Queries/Paging.antt =====
-- The pages of `search_messages` (sylo/webapp/queries.py) are exact, although each month is asked for
-- no more rows than the page needs.
use sylo.Base.{
  ℕ, ◌+◌, ◌≤◌, ◌≡◌, refl, sym, ap, ◌∙◌, Bool, true, false, List, [], ◌∷◌, ◌++◌, map, Option, none,
  some, ◌>>=◌, arith, ltb, length, length-append, length-take, take, drop, take-drop, take-nil,
  keep, ◌&&◌,
}
use sylo.Text.{Text}
use sylo.Text.Order.{text_lt_weak}
use sylo.Schema.{MonthDb}
use sylo.Dict.{Dict, get}
use sylo.Sort.{sort_desc}
use sylo.Sort.Merge.{concat, IsDescending, AllDescending, take-sort_desc}
use sylo.Sort.Order.{length-sort_desc}
use sylo.Queries.{
  passes, messages_of, Message, Sqlite, MessageFilter, SearchResult, earlier, relevant_month_keys,
  found_rows, run_query, or_no_rows, merged_rows, search_messages, text_test,
}

earlier_weak : (a b c : Message) → earlier a c ≡ false → earlier a b ≡ true → earlier c b ≡ true
earlier_weak a b c h k = text_lt_weak a.row.receipt_time b.row.receipt_time c.row.receipt_time h k

module _ (sqlite : Sqlite) (filt : MessageFilter) (index : Dict MonthDb) where
  -- The rows of each month, whole.
  abbrev pub found_in : Text → List Message
  found_in key = or_no_rows sqlite (do db ← get key index; found_rows sqlite filt db)

  -- Every row that the filter finds in some months.
  unfoldable pub all_found : List Text → List Message
  all_found keys = concat (map found_in keys)

  limited :
      (limit : ℕ) (o : Option MonthDb)
      → or_no_rows sqlite (do db ← o; run_query sqlite filt limit db)
        ≡ take limit (or_no_rows sqlite (do db ← o; found_rows sqlite filt db))
  unfolding run_query
  limited limit none = sym (take-nil limit)
  limited limit (some db) = by_result (found_rows sqlite filt db)
    where
      by_result :
          (o : Option (List Message))
          → or_no_rows sqlite (do rows ← o; some (take limit rows))
            ≡ take limit (or_no_rows sqlite o)
      by_result none = sym (take-nil limit)
      by_result (some rows) = refl

  merged_rows-eq :
      (limit : ℕ) (keys : List Text)
      → merged_rows sqlite filt limit index keys ≡ concat (map (take limit) (map found_in keys))
  unfolding merged_rows
  merged_rows-eq limit [] = refl
  merged_rows-eq limit (key ∷ keys) =
      ap (λ xs. xs ++ merged_rows sqlite filt limit index keys) (limited limit (get key index))
      ∙ ap (λ xs. take limit (found_in key) ++ xs) (merged_rows-eq limit keys)

  rows-IsDescending :
      (o : Option MonthDb)
      → IsDescending earlier (or_no_rows sqlite (do db ← o; found_rows sqlite filt db))
  unfolding found_rows
  rows-IsDescending none = tt
  rows-IsDescending (some db) = by_text (text_test sqlite db filt.text)
    where
      by_text :
          (o : Option (Message → Bool))
          → IsDescending earlier (
              or_no_rows sqlite (do
                matches ← o
                some (
                    sqlite.order_rows db
                      (keep (λ m. matches m && passes filt m) (messages_of db)))))
      by_text none = tt
      by_text (some matches) = sqlite.descending db _

  all_descending : (keys : List Text) → AllDescending earlier earlier_weak (map found_in keys)
  all_descending [] = tt
  all_descending (key ∷ keys) = (rows-IsDescending (get key index), all_descending keys)

  taken_le :
      (k : ℕ) (xss : List (List Message)) → length (concat (map (take k) xss)) ≤ length (concat xss)
  taken_le k [] = omega arith
  taken_le k (xs ∷ xss) = omega (
    arith,
    taken_le k xss,
    length-take k xs,
    length-append (take k xs) (concat (map (take k) xss)),
    length-append xs (concat xss),
  )

  taken_all :
      (k : ℕ) (xss : List (List Message))
      → length (concat (map (take (k + 1)) xss)) ≤ k
      → length (concat (map (take (k + 1)) xss)) ≡ length (concat xss)
  taken_all k [] h = refl
  taken_all k (xs ∷ xss) h =
      let front = length-append (take (k + 1) xs) (concat (map (take (k + 1)) xss)) in
      omega (
        arith,
        taken_all k xss (omega (arith, front)),
        front,
        length-take (k + 1) xs,
        length-append xs (concat xss),
      )

  -- Limiting each part to one more than `k` keeps the test of whether there are more than `k`.
  more_than :
      (k : ℕ) (xss : List (List Message))
      → ltb k (length (concat (map (take (k + 1)) xss))) ≡ ltb k (length (concat xss))
  more_than k xss = ground (arith, taken_le (k + 1) xss, taken_all k xss)

  abbrev result : List Message → Bool → SearchResult
  result rows has_more = record { rows = rows; has_more = has_more }

  -- The page is the slice of all the rows that the filter finds in the relevant months, sorted by
  -- their receipt times, the newest first, and `has_more` tells whether rows follow it: that each
  -- month is asked for `offset + limit + 1` rows only loses nothing.
  pub search_messages-exact :
      (recent offset limit : ℕ)
      → search_messages sqlite recent index filt offset limit ≡ record {
        rows =
            take limit
              (drop offset (sort_desc earlier (all_found (relevant_month_keys recent index filt))));
        has_more =
            ltb (offset + limit) (length (all_found (relevant_month_keys recent index filt)));
      }
  unfolding search_messages all_found
  search_messages-exact recent offset limit =
      ap (λ rows. result rows (ltb (offset + limit) (length merged))) page
      ∙ ap (result (take limit (drop offset (sort_desc earlier whole)))) more
    where
      keys : List Text
      keys = relevant_month_keys recent index filt

      whole : List Message
      whole = concat (map found_in keys)

      merged : List Message
      merged = sort_desc earlier (merged_rows sqlite filt (offset + limit + 1) index keys)

      page : take limit (drop offset merged) ≡ take limit (drop offset (sort_desc earlier whole))
      page =
          take-drop limit offset merged
          ∙ ap (drop offset) (
              ap (λ rows. take (offset + limit) (sort_desc earlier rows))
                (merged_rows-eq (offset + limit + 1) keys)
              ∙ take-sort_desc earlier earlier_weak (offset + limit) (offset + limit + 1)
                  (map found_in keys) (omega arith) (all_descending keys))
          ∙ sym (take-drop limit offset (sort_desc earlier whole))

      more : ltb (offset + limit) (length merged) ≡ ltb (offset + limit) (length whole)
      more =
          ap (ltb (offset + limit))
            (length-sort_desc earlier _ ∙ ap length (merged_rows-eq (offset + limit + 1) keys))
          ∙ more_than (offset + limit) (map found_in keys)
