-- ===== src/Indexer/Delivery.antt =====
-- What reaches the databases of sylo/indexer/core.py: every envelope that the queue admits, once, in
-- its month and in order.
use sylo.Base.{
  ◌≡◌, refl, sym, ap, ◌∙◌, Bool, true, false, List, [], ◌∷◌, ◌++◌, append-nil, append_assoc, leb,
  if◌then◌else◌, length,
}
use sylo.Text.{Text}
use sylo.Envelope.{MessageEnvelope}
use sylo.Schema.{Row}
use sylo.Indexer.{
  Indexer, Event, arrives, turns, stops, is_full, admit, enqueue, flush, flush_if_any, receive,
  drain, turn, step, run,
}
use sylo.Indexer.Flush.{
  month_rows, rows_for, rows_for-append, month_rows-flush, queue-flush, buffer-flush,
}

module _ (accepts : Row → Bool) where
  -- No batch fails as a whole.
  module _ (batch_ok : Text → Bool) (ok : (month : Text) → batch_ok month ≡ true) where
    -- The rows of a month that are written, with those that are still to be written.
    unfoldable pub delivered : Indexer → Text → List Row
    delivered ix m = month_rows ix.index m ++ rows_for accepts m (ix.buffer ++ ix.queue)

    delivered-flush :
        (ix : Indexer) (m : Text) → delivered (flush accepts batch_ok ix) m ≡ delivered ix m
    unfolding delivered
    delivered-flush ix m =
        rw
          (
            buffer-flush accepts batch_ok ok ix,
            queue-flush accepts batch_ok ok ix,
            month_rows-flush accepts batch_ok ok ix m,
            rows_for-append accepts m ix.buffer ix.queue,
          )
          (append_assoc (month_rows ix.index m) (rows_for accepts m ix.buffer)
            (rows_for accepts m ix.queue))

    delivered-flush_if_any :
        (ix : Indexer) (es : List MessageEnvelope) (m : Text)
        → delivered (flush_if_any accepts batch_ok ix es) m ≡ delivered ix m
    delivered-flush_if_any ix [] m = refl
    delivered-flush_if_any ix (e ∷ es) m = delivered-flush ix m

    -- Moving envelopes from the queue to the buffer delivers none and loses none.
    delivered-drain :
        (ix : Indexer) (m : Text) → delivered (drain accepts batch_ok ix) m ≡ delivered ix m
    unfolding drain
    delivered-drain ix m =
        delivered-flush_if_any (record ix { buffer = ix.buffer ++ ix.queue; queue = [] }) _ m
        ∙ unfold delivered in
          ap (λ es. month_rows ix.index m ++ rows_for accepts m es)
            (append-nil (ix.buffer ++ ix.queue))

    delivered-receive :
        (ix : Indexer) (q : List MessageEnvelope) (m : Text)
        → ix.queue ≡ q
        → delivered (receive accepts batch_ok ix q) m ≡ delivered ix m
    unfolding receive
    delivered-receive ix [] m h = delivered-flush_if_any ix ix.buffer m
    delivered-receive ix (e ∷ rest) m h =
        by_size (leb ix.config.flush_max_rows (length (ix.buffer ++ e ∷ []))) ∙ moved
      where
        ix' : Indexer
        ix' = record ix {
          queue = rest;
          buffer = ix.buffer ++ e ∷ [];
          stats = record ix.stats { queued = length rest };
        }

        by_size :
            (b : Bool)
            → delivered (if b then flush accepts batch_ok ix' else ix') m ≡ delivered ix' m
        by_size true = delivered-flush ix' m
        by_size false = refl

        moved : delivered ix' m ≡ delivered ix m
        moved =
            unfold delivered in
            ap (λ es. month_rows ix.index m ++ rows_for accepts m es)
              (append_assoc ix.buffer (e ∷ []) rest ∙ ap (λ es. ix.buffer ++ es) (sym h))

    -- The envelope of an event that the queue admits.
    unfoldable pub admitted : Indexer → Event → List MessageEnvelope
    admitted ix (arrives e) =
        if is_full ix.config.queue_hard_limit (length ix.queue) then [] else e ∷ []
    admitted ix turns = []
    admitted ix stops = []

    delivered-enqueue :
        (ix : Indexer) (e : MessageEnvelope) (m : Text)
        → delivered (enqueue ix e) m
          ≡ delivered ix m ++ rows_for accepts m (admitted ix (arrives e))
    unfolding enqueue admitted
    delivered-enqueue ix e m = by_room (is_full ix.config.queue_hard_limit (length ix.queue))
      where
        by_room :
            (full : Bool)
            → delivered (admit ix e full) m
              ≡ delivered ix m ++ rows_for accepts m (if full then [] else e ∷ [])
        by_room true = unfold delivered rows_for in sym (append-nil _)
        by_room false =
            unfold delivered in
            ap (λ es. month_rows ix.index m ++ rows_for accepts m es)
              (sym (append_assoc ix.buffer ix.queue (e ∷ [])))
            ∙ ap (λ rs. month_rows ix.index m ++ rs)
                (rows_for-append accepts m (ix.buffer ++ ix.queue) (e ∷ []))
            ∙ sym (append_assoc (month_rows ix.index m) _ _)

    delivered-turn :
        (ix : Indexer) (m : Text) → delivered (turn accepts batch_ok ix) m ≡ delivered ix m
    unfolding turn
    delivered-turn ix m = by_flag ix.stopping
      where
        by_flag :
            (b : Bool)
            → delivered
                (if b then drain accepts batch_ok ix else receive accepts batch_ok ix ix.queue)
                m
              ≡ delivered ix m
        by_flag true = delivered-drain ix m
        by_flag false = delivered-receive ix ix.queue m refl

    delivered-step :
        (ix : Indexer) (e : Event) (m : Text)
        → delivered (step accepts batch_ok ix e) m
          ≡ delivered ix m ++ rows_for accepts m (admitted ix e)
    unfolding step admitted rows_for
    delivered-step ix (arrives e) m = delivered-enqueue ix e m
    delivered-step ix turns m = delivered-turn ix m ∙ sym (append-nil (delivered ix m))
    delivered-step ix stops m = unfold delivered in sym (append-nil _)

    -- Every envelope that the queue admits in the course of some events.
    unfoldable pub admitted_all : Indexer → List Event → List MessageEnvelope
    admitted_all ix [] = []
    admitted_all ix (e ∷ es) = admitted ix e ++ admitted_all (step accepts batch_ok ix e) es

    -- If no batch fails as a whole, then in any course of arrivals and turns, with or without a stop,
    -- the rows of a month that are written or still to be written are those at the start, followed by
    -- exactly one row for each admitted envelope of the month whose row SQLite accepts, in the order
    -- of arrival.
    pub delivered-run :
        (ix : Indexer) (es : List Event) (m : Text)
        → delivered (run accepts batch_ok ix es) m
          ≡ delivered ix m ++ rows_for accepts m (admitted_all ix es)
    unfolding run admitted_all
    delivered-run ix [] m = unfold rows_for in sym (append-nil _)
    delivered-run ix (e ∷ es) m =
        delivered-run (step accepts batch_ok ix e) es m
        ∙ rw
            (
              delivered-step ix e m,
              rows_for-append accepts m (admitted ix e)
                  (admitted_all (step accepts batch_ok ix e) es),
            )
            (append_assoc (delivered ix m) _ _)

    drained :
        (ix : Indexer) (es : List MessageEnvelope)
        → ix.buffer ≡ es
        → ix.queue ≡ []
        → ((flush_if_any accepts batch_ok ix es).buffer ≡ [])
          × ((flush_if_any accepts batch_ok ix es).queue ≡ [])
    drained ix [] h k = (h, k)
    drained ix (e ∷ es) h k =
        (buffer-flush accepts batch_ok ok ix, queue-flush accepts batch_ok ok ix ∙ k)

    at_rest :
        (ix : Indexer) (m : Text)
        → (ix.buffer ≡ []) × (ix.queue ≡ [])
        → delivered ix m ≡ month_rows ix.index m
    unfolding delivered rows_for
    at_rest ix m (b, q) = rw (b, q) (append-nil _)

    -- The last turn writes all that was still to be written.
    pub month_rows-drain :
        (ix : Indexer) (m : Text) → month_rows (drain accepts batch_ok ix).index m ≡ delivered ix m
    month_rows-drain ix m =
        sym (
          at_rest (drain accepts batch_ok ix) m (
            unfold drain in
            drained (record ix { buffer = ix.buffer ++ ix.queue; queue = [] }) _ refl refl))
        ∙ delivered-drain ix m

    -- If no batch fails as a whole, and queue and buffer are empty at the start, the last turn after
    -- any course of events leaves nothing behind: each month then has, behind its earlier rows,
    -- exactly the accepted rows of the envelopes that the queue admitted, once each and in order.
    pub month_rows-stop :
        (ix : Indexer) (es : List Event) (m : Text)
        → ix.buffer ≡ []
        → ix.queue ≡ []
        → let stopped = run accepts batch_ok ix es in
          month_rows (drain accepts batch_ok stopped).index m
          ≡ month_rows ix.index m ++ rows_for accepts m (admitted_all ix es)
    month_rows-stop ix es m hb hq =
        month_rows-drain (run accepts batch_ok ix es) m
        ∙ delivered-run ix es m
        ∙ ap (λ rs. rs ++ rows_for accepts m (admitted_all ix es)) (at_rest ix m (hb, hq))
