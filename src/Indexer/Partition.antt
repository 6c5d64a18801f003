-- ===== src/Indexer/Partition.antt =====
-- Every row that the indexer of sylo/indexer/core.py writes stands in the database of its month.
use sylo.Base.{
  ◌≡◌, sym, subst, ◌⊎◌, if_elim, ◌∙◌, Bool, true, false, List, [], ◌∷◌, ◌++◌, map, if◌then◌else◌,
  take, keep, Bool-cases, inl, inr, length, leb,
}
use sylo.Text.{Text, text_eq, text_eq_iff}
use sylo.Timeutil.Order.{take-format_receipt_time}
use sylo.Envelope.{MessageEnvelope}
use sylo.Schema.{Row, MonthDb}
use sylo.Dict.{Dict}
use sylo.Groups.{group_from}
use sylo.Groups.Keyed.{AllKeyed, AreKeyed, group_from-AreKeyed}
use sylo.Indexer.{
  Indexer, Event, arrives, turns, stops, is_full, enqueue, row_of, month_of, insert_batch,
  flush_month, flush_months, flush, flush_if_any, receive, drain, turn, step, run,
}
use sylo.Indexer.Flush.{month_rows, month_rows-insert_batch}

-- Rows whose receipt times begin with the month's key.
abbrev pub InMonth : Text → List Row → Type 0
InMonth key [] = Unit
InMonth key (r ∷ rs) = (take 7 r.receipt_time ≡ key) × InMonth key rs

abbrev pub IsPartitioned : Dict MonthDb → Type 0
IsPartitioned index = (key : Text) → InMonth key (month_rows index key)

InMonth-append :
    (key : Text) (rs ss : List Row) → InMonth key rs → InMonth key ss → InMonth key (rs ++ ss)
InMonth-append key [] ss h k = k
InMonth-append key (r ∷ rs) ss h k = (h.0, InMonth-append key rs ss h.1 k)

module _ (accepts : Row → Bool) where
  rows-InMonth :
      (key : Text) (es : List MessageEnvelope)
      → AllKeyed month_of key es
      → InMonth key (keep accepts (map row_of es))
  unfolding row_of
  rows-InMonth key [] h = tt
  rows-InMonth key (e ∷ es) h = elim (Bool-cases (accepts (row_of e))) [
    | inl yes_row ↦
        rw yes_row ((take-format_receipt_time e.receipt_time).1 ∙ h.0, rows-InMonth key es h.1)
    | inr no_row ↦ rw no_row (rows-InMonth key es h.1)
  ]

  insert_batch-IsPartitioned :
      (index : Dict MonthDb) (month : Text) (es : List MessageEnvelope)
      → AllKeyed month_of month es
      → IsPartitioned index
      → IsPartitioned (insert_batch accepts index month es).0
  insert_batch-IsPartitioned index month es h p key =
      subst (InMonth key) (sym (month_rows-insert_batch accepts index month key es))
        (by_month (Bool-cases (text_eq month key)))
    where
      by_month :
          ((text_eq month key ≡ true) ⊎ (text_eq month key ≡ false))
          → InMonth key (
              if text_eq month key
              then month_rows index month ++ keep accepts (map row_of es)
              else month_rows index key)
      by_month (inl same) =
          let e : month ≡ key = (text_eq_iff month key).0 same in
          rw same (
            subst (λ k. InMonth k (month_rows index month ++ keep accepts (map row_of es))) e
              (InMonth-append month (month_rows index month) _ (p month) (rows-InMonth month es h)))
      by_month (inr other) = rw other (p key)

  module _ (batch_ok : Text → Bool) where
    flush_month-IsPartitioned :
        (ix : Indexer) (month : Text) (es : List MessageEnvelope)
        → AllKeyed month_of month es
        → IsPartitioned ix.index
        → IsPartitioned (flush_month accepts batch_ok ix month es).index
    unfolding flush_month
    flush_month-IsPartitioned ix month es h p = elim (Bool-cases (batch_ok month)) [
      | inl fine ↦ rw fine (insert_batch-IsPartitioned ix.index month es h p)
      | inr failed ↦ rw failed p
    ]

    flush_months-IsPartitioned :
        (d : Dict (List MessageEnvelope)) (ix : Indexer)
        → AreKeyed month_of d
        → IsPartitioned ix.index
        → IsPartitioned (flush_months accepts batch_ok ix d).index
    unfolding flush_months
    flush_months-IsPartitioned [] ix h p = p
    flush_months-IsPartitioned ((month, es) ∷ d) ix h p =
        flush_months-IsPartitioned d (flush_month accepts batch_ok ix month es) h.1
          (flush_month-IsPartitioned ix month es h.0 p)

    flush_if_any-IsPartitioned :
        (ix : Indexer) (es : List MessageEnvelope)
        → IsPartitioned ix.index
        → IsPartitioned (flush_if_any accepts batch_ok ix es).index
    unfolding flush
    flush_if_any-IsPartitioned ix [] p = p
    flush_if_any-IsPartitioned ix (e ∷ es) p =
        flush_months-IsPartitioned (group_from month_of [] ix.buffer) ix
          (group_from-AreKeyed month_of ix.buffer) p

    receive-IsPartitioned :
        (ix : Indexer) (q : List MessageEnvelope)
        → IsPartitioned ix.index
        → IsPartitioned (receive accepts batch_ok ix q).index
    unfolding receive
    receive-IsPartitioned ix [] p = flush_if_any-IsPartitioned ix ix.buffer p
    receive-IsPartitioned ix (e ∷ rest) p =
        elim (Bool-cases (leb ix.config.flush_max_rows (length (ix.buffer ++ e ∷ [])))) [
          | inl full ↦ rw full (flush_if_any-IsPartitioned _ (e ∷ []) p)
          | inr room ↦ rw room p
        ]

    turn-IsPartitioned :
        (ix : Indexer) → IsPartitioned ix.index → IsPartitioned (turn accepts batch_ok ix).index
    unfolding turn drain
    turn-IsPartitioned ix p =
        if_elim (λ (j : Indexer). IsPartitioned j.index) ix.stopping
          (flush_if_any-IsPartitioned _ _ p) (receive-IsPartitioned ix ix.queue p)

    enqueue-IsPartitioned :
        (ix : Indexer) (e : MessageEnvelope)
        → IsPartitioned ix.index
        → IsPartitioned (enqueue ix e).index
    unfolding enqueue
    enqueue-IsPartitioned ix e p =
        if_elim (λ (j : Indexer). IsPartitioned j.index)
          (is_full ix.config.queue_hard_limit (length ix.queue)) p p

    -- Whatever arrives and whatever SQLite refuses, every row is in the database of the month with
    -- which its receipt time begins, if that holds at the start.
    pub run-IsPartitioned :
        (es : List Event) (ix : Indexer)
        → IsPartitioned ix.index
        → IsPartitioned (run accepts batch_ok ix es).index
    unfolding run step
    run-IsPartitioned [] ix p = p
    run-IsPartitioned (arrives e ∷ es) ix p =
        run-IsPartitioned es (enqueue ix e) (enqueue-IsPartitioned ix e p)
    run-IsPartitioned (turns ∷ es) ix p =
        run-IsPartitioned es (turn accepts batch_ok ix) (turn-IsPartitioned ix p)
    run-IsPartitioned (stops ∷ es) ix p = run-IsPartitioned es (record ix { stopping = true }) p
