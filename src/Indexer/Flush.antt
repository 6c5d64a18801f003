-- ===== src/Indexer/Flush.antt =====
-- What a flush of sylo/indexer/core.py writes: the rows of the buffer, behind those of their months.
use sylo.Base.{
  ℕ, suc, ◌≡◌, ◌⊎◌, refl, sym, ap, ◌∙◌, Bool, true, false, List, [], ◌∷◌, ◌++◌, append-nil,
  append_assoc, map, some, arith, if◌then◌else◌, keep, Bool-cases, inl, inr,
}
use sylo.Text.{Text, text_eq, text_eq_iff}
use sylo.Envelope.{MessageEnvelope}
use sylo.Schema.{Row, MonthDb, insert_message}
use sylo.Dict.{Dict, get, get-set}
use sylo.Groups.{group_from, get-group_from, in_group, or_nil, Distinct, Distinct-group_from}
use sylo.Indexer.{
  Indexer, row_of, month_of, or_empty_db, insert_rows, insert_batch, flush_month, flush_months,
  flush,
}

-- The rows in the database of a month.
unfoldable pub month_rows : Dict MonthDb → Text → List Row
month_rows index month = (or_empty_db (get month index)).messages

module _ (accepts : Row → Bool) where
  -- The rows that some envelopes make in a month.
  unfoldable pub rows_for : Text → List MessageEnvelope → List Row
  rows_for month es = keep accepts (map row_of (keep (in_group month_of month) es))

  pub rows_for-append :
      (m : Text) (xs ys : List MessageEnvelope)
      → rows_for m (xs ++ ys) ≡ rows_for m xs ++ rows_for m ys
  unfolding rows_for
  rows_for-append m [] ys = refl
  rows_for-append m (x ∷ xs) ys = ground (arith, rows_for-append m xs ys)

  pub messages-insert_rows :
      (rs : List Row) (db : MonthDb) (n : ℕ)
      → (insert_rows accepts (db, n) rs).0.messages ≡ db.messages ++ keep accepts rs
  unfolding insert_rows
  messages-insert_rows [] db n = rw append-nil
  messages-insert_rows (r ∷ rs) db n = elim (Bool-cases (accepts r)) [
    | inl yes_row ↦ rw yes_row (
        messages-insert_rows rs (insert_message db r) (suc n)
        ∙ unfold insert_message in append_assoc db.messages (r ∷ []) (keep accepts rs))
    | inr no_row ↦ rw no_row (messages-insert_rows rs db n)
  ]

  pub month_rows-insert_batch :
      (index : Dict MonthDb) (month m : Text) (es : List MessageEnvelope)
      → month_rows (insert_batch accepts index month es).0 m ≡ (
          if text_eq month m
          then month_rows index month ++ keep accepts (map row_of es)
          else month_rows index m)
  unfolding month_rows insert_batch
  month_rows-insert_batch index month m es =
      ap (λ o. (or_empty_db o).messages) (get-set m month batch.0 index)
      ∙ by_month (text_eq month m)
    where
      batch : MonthDb × ℕ
      batch = insert_rows accepts (or_empty_db (get month index), 0) (map row_of es)

      by_month :
          (same : Bool)
          → (or_empty_db (if same then some batch.0 else get m index)).messages ≡ (
              if same
              then (or_empty_db (get month index)).messages ++ keep accepts (map row_of es)
              else (or_empty_db (get m index)).messages)
      by_month true = messages-insert_rows (map row_of es) (or_empty_db (get month index)) 0
      by_month false = refl

  -- No batch fails as a whole.
  module _ (batch_ok : Text → Bool) (ok : (month : Text) → batch_ok month ≡ true) where
    month_rows-flush_month :
        (ix : Indexer) (month m : Text) (es : List MessageEnvelope)
        → month_rows (flush_month accepts batch_ok ix month es).index m ≡ (
            if text_eq month m
            then month_rows ix.index month ++ keep accepts (map row_of es)
            else month_rows ix.index m)
    unfolding flush_month
    month_rows-flush_month ix month m es =
        rw (ok month) (month_rows-insert_batch ix.index month m es)

    month_rows-flush_months :
        (d : Dict (List MessageEnvelope)) (ix : Indexer) (m : Text)
        → Distinct d
        → month_rows (flush_months accepts batch_ok ix d).index m
          ≡ month_rows ix.index m ++ keep accepts (map row_of (or_nil (get m d)))
    unfolding flush_months get
    month_rows-flush_months [] ix m h = rw append-nil
    month_rows-flush_months ((month, es) ∷ d) ix m h =
        month_rows-flush_months d (flush_month accepts batch_ok ix month es) m h.1
        ∙ rw (month_rows-flush_month ix month m es) (by_month (Bool-cases (text_eq month m)))
      where
        by_month :
            ((text_eq month m ≡ true) ⊎ (text_eq month m ≡ false))
            → (if text_eq month m
                  then month_rows ix.index month ++ keep accepts (map row_of es)
                  else month_rows ix.index m)
                ++ keep accepts (map row_of (or_nil (get m d)))
              ≡ month_rows ix.index m
                ++ keep accepts (map row_of (or_nil (if text_eq month m then some es else get m d)))
        by_month (inl same) =
            let e : month ≡ m = (text_eq_iff month m).0 same in
            rw same (
              ap
                (λ o.
                  (month_rows ix.index month ++ keep accepts (map row_of es))
                  ++ keep accepts (map row_of (or_nil o)))
                (ap (λ k. get k d) (sym e) ∙ h.0)
              ∙ append-nil _
              ∙ ap (λ k. month_rows ix.index k ++ keep accepts (map row_of es)) e)
        by_month (inr other) = rw other

    -- A flush writes the rows of the buffer behind those of their months.
    pub month_rows-flush :
        (ix : Indexer) (m : Text)
        → month_rows (flush accepts batch_ok ix).index m
          ≡ month_rows ix.index m ++ rows_for m ix.buffer
    unfolding flush rows_for get
    month_rows-flush ix m =
        month_rows-flush_months (group_from month_of [] ix.buffer) ix m
          (Distinct-group_from month_of ix.buffer [] tt)
        ∙ ap (λ es. month_rows ix.index m ++ keep accepts (map row_of es))
            (get-group_from month_of m ix.buffer [])

    queue-flush_months :
        (d : Dict (List MessageEnvelope)) (ix : Indexer)
        → (flush_months accepts batch_ok ix d).queue ≡ ix.queue
    unfolding flush_months flush_month
    queue-flush_months [] ix = refl
    queue-flush_months ((month, es) ∷ d) ix =
        queue-flush_months d (flush_month accepts batch_ok ix month es) ∙ rw (ok month)

    pub queue-flush : (ix : Indexer) → (flush accepts batch_ok ix).queue ≡ ix.queue
    unfolding flush
    queue-flush ix = queue-flush_months (group_from month_of [] ix.buffer) ix

    pub buffer-flush : (ix : Indexer) → (flush accepts batch_ok ix).buffer ≡ []
    unfolding flush
    buffer-flush ix = refl
