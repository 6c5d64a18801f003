-- ===== src/Receiver/Shutdown.antt =====
-- What a shutdown of sylo/receiver/server.py keeps: the writers drain into the files and into the queue
-- of the indexer, and then the indexer drains into the databases.
use sylo.Base.{
  ℕ, ◌≡◌, refl, sym, ap, ◌∙◌, inl, inr, Bool-cases, Bool, true, List, [], ◌∷◌, ◌++◌, map, Option,
  none, some,
}
use sylo.Text.{Text, text_eq, text_eq_iff}
use sylo.Envelope.{RawMessage, from_raw}
use sylo.Schema.{Row}
use sylo.Dict.{Dict, get}
use sylo.Indexer.{Indexer, Event, arrives, enqueue, run, turn, step, drain}
use sylo.Indexer.Flush.{month_rows, rows_for}
use sylo.Indexer.Delivery.{delivered, delivered-run, admitted_all, month_rows-drain}
use sylo.DeviceWriter.{DeviceWriter, step_writer, turn_writer, drain_raw, offer_all}
use sylo.DeviceWriter.Recorded.{day_text}
use sylo.DeviceWriter.Delivered.{recorded}
use sylo.DeviceWriter.Rebuilt.{stop_writer, day_text-stop_writer}
use sylo.DeviceWriter.Registry.{DeviceRegistry}
use sylo.Receiver.{SyslogServer, stop_all, stop_registry, stop_indexer, stop_server}

-- What the writers have in their queues, in the order in which they drain.
unfoldable pub queued_in : Dict DeviceWriter → List RawMessage
queued_in [] = []
queued_in ((key, w) ∷ ws) = w.queue ++ queued_in ws

-- The envelopes that arrive at the indexer.
unfoldable pub arrivals : List RawMessage → List Event
arrivals ms = map (λ m. arrives (from_raw m)) ms

pub arrivals-append : (xs ys : List RawMessage) → arrivals (xs ++ ys) ≡ arrivals xs ++ arrivals ys
unfolding arrivals
arrivals-append [] ys = refl
arrivals-append (x ∷ xs) ys = ap (◌∷◌ (arrives (from_raw x))) (arrivals-append xs ys)

module _ (accepts : Row → Bool) (batch_ok : Text → Bool) where
  pub run-append :
      (ix : Indexer) (es fs : List Event)
      → run accepts batch_ok ix (es ++ fs) ≡ run accepts batch_ok (run accepts batch_ok ix es) fs
  unfolding run
  run-append ix [] fs = refl
  run-append ix (e ∷ es) fs = run-append (step accepts batch_ok ix e) es fs

  module _ (disk_ok : Text → Bool) (clock : Text → ℕ × ℕ) where
    pub offer_all-run :
        (ms : List RawMessage) (ix : Indexer)
        → offer_all disk_ok (some ix) ms ≡ some (run accepts batch_ok ix (arrivals ms))
    unfolding run step arrivals
    offer_all-run [] ix = refl
    offer_all-run (m ∷ ms) ix = offer_all-run ms (enqueue ix (from_raw m))

    stop_all-offers :
        (ws : Dict DeviceWriter) (ix : Indexer)
        → (stop_all disk_ok clock ws (some ix)).1
          ≡ some (run accepts batch_ok ix (arrivals (queued_in ws)))
    unfolding stop_all queued_in turn_writer step_writer drain_raw run
    stop_all-offers [] ix = unfold arrivals in refl
    stop_all-offers ((key, w) ∷ ws) ix =
        ap (λ o. (stop_all disk_ok clock ws o).1) (offer_all-run w.queue ix)
        ∙ stop_all-offers ws (run accepts batch_ok ix (arrivals w.queue))
        ∙ ap some (
            sym (run-append ix (arrivals w.queue) (arrivals (queued_in ws)))
            ∙ ap (run accepts batch_ok ix) (sym (arrivals-append w.queue (queued_in ws))))

    -- A writer by its device, after `stop_all`.
    abbrev pub stopped_writer : Text → DeviceWriter → DeviceWriter
    stopped_writer key w = (stop_writer disk_ok (w, none) (clock key).0 (clock key).1).0

    abbrev pub if_there : Text → Option DeviceWriter → Option DeviceWriter
    if_there key none = none
    if_there key (some w) = some (stopped_writer key w)

    pub get-stop_all :
        (key : Text) (ws : Dict DeviceWriter) (ix : Option Indexer)
        → get key (stop_all disk_ok clock ws ix).0 ≡ if_there key (get key ws)
    unfolding stop_all get turn_writer step_writer drain_raw
    get-stop_all key [] ix = refl
    get-stop_all key ((k, w) ∷ ws) ix = elim (Bool-cases (text_eq k key)) [
      | inl same ↦ rw same (ap (λ j. some (stopped_writer j w)) ((text_eq_iff k key).0 same))
      | inr other ↦ rw other (get-stop_all key ws (offer_all disk_ok ix w.queue))
    ]

  -- The indexer and the writers of a receiver, with the rows and the text that are written or still
  -- to be written.
  module _ (s : SyslogServer) (registry : DeviceRegistry) (ix : Indexer)
      (has_registry : s.registry ≡ some registry) (has_indexer : s.indexer ≡ some ix)
      (disk_ok : Text → Bool) (clock : Text → ℕ × ℕ) where
    -- If no batch fails as a whole, a shutdown leaves each month with the rows of the indexer that
    -- were written or still to be written, and behind them the accepted rows of the messages in the
    -- queues of the writers, as far as the queue of the indexer admits them, in order.
    pub month_rows-stop_server :
        (ok : (month : Text) → batch_ok month ≡ true) (m : Text)
        → (ix' : Indexer) × ((stop_server accepts batch_ok disk_ok clock s).indexer ≡ some ix')
          × (month_rows ix'.index m
              ≡ delivered accepts batch_ok ok ix m
                ++ rows_for accepts m
                    (admitted_all accepts batch_ok ok ix (arrivals (queued_in registry.writers))))
    unfolding stop_server turn step
    month_rows-stop_server ok m = (
      drain accepts batch_ok (record offered { stopping = true }),
      ap (λ r. stop_indexer accepts batch_ok (stop_registry disk_ok clock r s.indexer).1)
            has_registry
          ∙ ap (λ i. stop_indexer accepts batch_ok (stop_all disk_ok clock registry.writers i).1)
              has_indexer
          ∙ ap (stop_indexer accepts batch_ok) (stop_all-offers disk_ok clock registry.writers ix),
      month_rows-drain accepts batch_ok ok (record offered { stopping = true }) m
          ∙ unfold delivered in
            delivered-run accepts batch_ok ok ix (arrivals (queued_in registry.writers)) m,
    )
      where
        offered : Indexer
        offered = run accepts batch_ok ix (arrivals (queued_in registry.writers))

    -- If the disk refuses no write, a shutdown leaves the writer of a device with the text of a day
    -- that was written or still to be written.
    pub day_text-stop_server :
        (ok : (path : Text) → disk_ok path ≡ true) (key day : Text) (w : DeviceWriter)
        → get key registry.writers ≡ some w
        → (ws : Dict DeviceWriter) × (w' : DeviceWriter) × ((stop_server accepts batch_ok disk_ok
              clock s).registry
            ≡ some (record registry { writers = ws }))
          × (get key ws ≡ some w')
          × (day_text w' day ≡ recorded w day)
    unfolding stop_server
    day_text-stop_server ok key day w h = (
      (stop_all disk_ok clock registry.writers s.indexer).0,
      stopped_writer disk_ok clock key w,
      ap (λ r. (stop_registry disk_ok clock r s.indexer).0) has_registry,
      get-stop_all disk_ok clock key registry.writers s.indexer ∙ ap (if_there disk_ok clock key) h,
      day_text-stop_writer disk_ok ok w none (clock key).0 (clock key).1 day,
    )
