-- ===== src/Indexer/Bounds.antt =====
-- The queue of sylo/indexer/core.py stays within its hard limit.
use sylo.Base.{
  ◌+◌, ◌≤◌, ◌<◌, ◌≡◌, refl, ap, ◌∙◌, Bool, true, false, List, [], ◌∷◌, ◌++◌, arith, leb,
  if◌then◌else◌, length, length-append,
}
use sylo.Text.{Text}
use sylo.Envelope.{MessageEnvelope}
use sylo.Schema.{Row}
use sylo.Dict.{Dict}
use sylo.Groups.{group_from}
use sylo.Indexer.{
  Indexer, Event, arrives, turns, stops, is_full, admit, enqueue, insert_batch, month_of,
  flush_month, flush_months, flush, flush_if_any, receive, drain, turn, step, run,
}

-- A limit of 0 is none.
pub record IsBounded (ix : Indexer) : Type 0 where
  pub within : 0 < ix.config.queue_hard_limit → length ix.queue ≤ ix.config.queue_hard_limit

-- An indexer with the same configuration and no more in its queue.
abbrev pub Shrinks : Indexer → Indexer → Type 0
Shrinks ix j = (j.config ≡ ix.config) × (length j.queue ≤ length ix.queue)

Shrinks-IsBounded : (ix j : Indexer) → Shrinks ix j → IsBounded ix → IsBounded j
Shrinks-IsBounded ix j s b = record { within = λ h. grind (arith, b.within, s.0, s.1, h) }

enqueue-IsBounded : (ix : Indexer) (e : MessageEnvelope) → IsBounded ix → IsBounded (enqueue ix e)
unfolding enqueue
enqueue-IsBounded ix e b = record {
  within = by_room (is_full ix.config.queue_hard_limit (length ix.queue)) refl;
}
  where
    by_room :
        (full : Bool)
        → is_full ix.config.queue_hard_limit (length ix.queue) ≡ full
        → 0 < (admit ix e full).config.queue_hard_limit
        → length (admit ix e full).queue ≤ (admit ix e full).config.queue_hard_limit
    by_room true f h = b.within h
    by_room false f h = ground (arith, length-append ix.queue (e ∷ []))

module _ (accepts : Row → Bool) (batch_ok : Text → Bool) where
  flush_month-Shrinks :
      (ix : Indexer) (month : Text) (es : List MessageEnvelope)
      → Shrinks ix (flush_month accepts batch_ok ix month es)
  unfolding flush_month
  flush_month-Shrinks ix month es = by_batch (batch_ok month)
    where
      ok : Indexer
      ok = record ix {
        index = (insert_batch accepts ix.index month es).0;
        stats = record ix.stats {
          written = ix.stats.written + (insert_batch accepts ix.index month es).1;
        };
      }

      failed : Indexer
      failed = record ix { stats = record ix.stats { dropped = ix.stats.dropped + length es } }

      by_batch : (b : Bool) → Shrinks ix (if b then ok else failed)
      by_batch true = (refl, omega arith)
      by_batch false = (refl, omega arith)

  flush_months-Shrinks :
      (d : Dict (List MessageEnvelope)) (ix : Indexer)
      → Shrinks ix (flush_months accepts batch_ok ix d)
  unfolding flush_months
  flush_months-Shrinks [] ix = (refl, omega arith)
  flush_months-Shrinks ((month, es) ∷ d) ix =
      let one = flush_month-Shrinks ix month es in
      let more = flush_months-Shrinks d (flush_month accepts batch_ok ix month es) in
      (more.0 ∙ one.0, omega arith)

  flush_if_any-Shrinks :
      (ix : Indexer) (es : List MessageEnvelope) → Shrinks ix (flush_if_any accepts batch_ok ix es)
  unfolding flush
  flush_if_any-Shrinks ix [] = (refl, omega arith)
  flush_if_any-Shrinks ix (e ∷ es) = flush_months-Shrinks (group_from month_of [] ix.buffer) ix

  receive-Shrinks :
      (ix : Indexer) (q : List MessageEnvelope)
      → ix.queue ≡ q
      → Shrinks ix (receive accepts batch_ok ix q)
  unfolding receive
  receive-Shrinks ix [] h = flush_if_any-Shrinks ix ix.buffer
  receive-Shrinks ix (e ∷ rest) h =
      by_size (leb ix.config.flush_max_rows (length (ix.buffer ++ e ∷ [])))
    where
      ix' : Indexer
      ix' = record ix {
        queue = rest;
        buffer = ix.buffer ++ e ∷ [];
        stats = record ix.stats { queued = length rest };
      }

      by_size : (b : Bool) → Shrinks ix (if b then flush accepts batch_ok ix' else ix')
      by_size true =
          let s = flush_if_any-Shrinks ix' (e ∷ []) in (s.0, omega (arith, s.1, ap length h))
      by_size false = (refl, omega (arith, ap length h))

  pub turn-Shrinks : (ix : Indexer) → Shrinks ix (turn accepts batch_ok ix)
  unfolding turn
  turn-Shrinks ix = by_flag ix.stopping
    where
      by_flag :
          (b : Bool)
          → Shrinks ix
              (if b then drain accepts batch_ok ix else receive accepts batch_ok ix ix.queue)
      by_flag true =
          unfold drain in
          let s =
            flush_if_any-Shrinks (record ix { buffer = ix.buffer ++ ix.queue; queue = [] }) _ in
          (s.0, omega (arith, s.1))
      by_flag false = receive-Shrinks ix ix.queue refl

  -- Whatever arrives, however fast, and whatever SQLite refuses, the queue never holds more than the
  -- hard limit, if there is one and it did not at the start.
  pub run-IsBounded :
      (es : List Event) (ix : Indexer) → IsBounded ix → IsBounded (run accepts batch_ok ix es)
  unfolding run step
  run-IsBounded [] ix b = b
  run-IsBounded (arrives e ∷ es) ix b = run-IsBounded es (enqueue ix e) (enqueue-IsBounded ix e b)
  run-IsBounded (turns ∷ es) ix b =
      run-IsBounded es (turn accepts batch_ok ix) (Shrinks-IsBounded ix _ (turn-Shrinks ix) b)
  run-IsBounded (stops ∷ es) ix b =
      run-IsBounded es (record ix { stopping = true }) (record { within = b.within })
