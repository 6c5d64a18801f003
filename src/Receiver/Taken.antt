-- ===== src/Receiver/Taken.antt =====
-- What a writer of sylo/receiver/device_writer.py hands to the indexer: the messages of its queue, each
-- once and in order.
use sylo.Base.{
  ℕ, ◌≡◌, refl, sym, ap, ◌∙◌, Bool, true, false, List, [], ◌∷◌, ◌++◌, append-nil, append_assoc, map,
  Option, none, some, if◌then◌else◌, leb, length,
}
use sylo.Text.{Text}
use sylo.Envelope.{RawMessage, MessageEnvelope, from_raw}
use sylo.Schema.{Row}
use sylo.Indexer.{Indexer, is_full, run, step}
use sylo.Groups.{group_from}
use sylo.DeviceWriter.{
  DeviceWriter, WriterEvent, ingests, takes, halts, admit_raw, enqueue_raw, offer_all, day_of,
  flush_lines, flush_lines_if_any, receive_raw, drain_raw, turn_writer, step_writer, run_writer,
}
use sylo.DeviceWriter.Cleaned.{queue-write_days}
use sylo.DeviceWriter.Delivered.{admitted_raw, admitted_raws}
use sylo.Receiver.Shutdown.{arrivals, offer_all-run}

abbrev pub first_of : List RawMessage → List RawMessage
first_of [] = []
first_of (m ∷ ms) = m ∷ []

-- The messages that a turn takes from the queue.
unfoldable pub taken : DeviceWriter → List RawMessage
taken w = if w.stopping then w.queue else first_of w.queue

unfoldable pub taken_in : DeviceWriter → WriterEvent → List RawMessage
taken_in w (ingests m) = []
taken_in w (takes now later) = taken w
taken_in w halts = []

module _ (disk_ok : Text → Bool) where
  -- The writer after an event, without its indexer.
  abbrev pub after_event : DeviceWriter → WriterEvent → DeviceWriter
  after_event w e = (step_writer disk_ok (w, none) e).0

  unfoldable pub taken_all : DeviceWriter → List WriterEvent → List RawMessage
  taken_all w [] = []
  taken_all w (e ∷ es) = taken_in w e ++ taken_all (after_event w e) es

  queue-flush_lines_if_any :
      (w : DeviceWriter) (es : List MessageEnvelope) (force : Bool) (now later : ℕ)
      → (flush_lines_if_any disk_ok w es force now later).queue ≡ w.queue
  unfolding flush_lines
  queue-flush_lines_if_any w [] force now later = refl
  queue-flush_lines_if_any w (e ∷ es) force now later =
      queue-write_days disk_ok (group_from day_of [] w.buffer) w

  -- A turn moves messages to the indexer, and loses none.
  taken-turn_writer :
      (w : DeviceWriter) (now later : ℕ)
      → taken w ++ (turn_writer disk_ok (w, none) now later).0.queue ≡ w.queue
  unfolding taken turn_writer drain_raw
  taken-turn_writer w now later = by_flag w.stopping
    where
      by_queue :
          (q : List RawMessage)
          → w.queue ≡ q
          → first_of q ++ (receive_raw disk_ok w none q now later).0.queue ≡ q
      by_queue [] h = unfold receive_raw in queue-flush_lines_if_any w w.buffer false now later ∙ h
      by_queue (m ∷ rest) h =
          unfold receive_raw in
          ap (λ q. m ∷ q)
            (by_size (leb w.config.flush_max_messages (length (w.buffer ++ from_raw m ∷ []))))
        where
          w' : DeviceWriter
          w' = record w {
            queue = rest;
            buffer = w.buffer ++ from_raw m ∷ [];
            stats = record w.stats { queued = length rest };
          }

          by_size :
              (full : Bool)
              → (if full then flush_lines disk_ok w' false now later else w').queue ≡ rest
          by_size true = queue-flush_lines_if_any w' (from_raw m ∷ []) false now later
          by_size false = refl

      by_flag :
          (stopping : Bool)
          → (if stopping then w.queue else first_of w.queue)
              ++ (if stopping
                  then drain_raw disk_ok w none now later
                  else receive_raw disk_ok w none w.queue now later).0.queue
            ≡ w.queue
      by_flag true =
          ap (λ q. w.queue ++ q)
            (queue-flush_lines_if_any _ (w.buffer ++ map from_raw w.queue) true now later)
          ∙ append-nil w.queue
      by_flag false = by_queue w.queue refl

  taken-step_writer :
      (w : DeviceWriter) (e : WriterEvent)
      → taken_in w e ++ (after_event w e).queue ≡ w.queue ++ admitted_raw w e
  unfolding taken_in step_writer admitted_raw enqueue_raw
  taken-step_writer w (ingests m) = by_room (is_full w.config.queue_hard_limit (length w.queue))
    where
      by_room :
          (full : Bool) → (admit_raw w m full).queue ≡ w.queue ++ (if full then [] else m ∷ [])
      by_room true = sym (append-nil w.queue)
      by_room false = refl
  taken-step_writer w (takes now later) = taken-turn_writer w now later ∙ sym (append-nil w.queue)
  taken-step_writer w halts = sym (append-nil w.queue)

  -- What the indexer gets in a turn.
  pub turn_writer-offers :
      (accepts : Row → Bool) (batch_ok : Text → Bool) (w : DeviceWriter) (ix : Indexer)
      (now later : ℕ)
      → (turn_writer disk_ok (w, some ix) now later).1
        ≡ some (run accepts batch_ok ix (arrivals (taken w)))
  unfolding turn_writer taken drain_raw
  turn_writer-offers accepts batch_ok w ix now later = by_flag w.stopping
    where
      by_queue :
          (q : List RawMessage)
          → (receive_raw disk_ok w (some ix) q now later).1
            ≡ some (run accepts batch_ok ix (arrivals (first_of q)))
      by_queue [] = unfold receive_raw arrivals run in refl
      by_queue (m ∷ rest) = unfold receive_raw arrivals run step in refl

      by_flag :
          (stopping : Bool)
          → (if stopping
              then drain_raw disk_ok w (some ix) now later
              else receive_raw disk_ok w (some ix) w.queue now later).1
            ≡ some (
                run accepts batch_ok ix (arrivals (if stopping then w.queue else first_of w.queue)))
      by_flag true = offer_all-run accepts batch_ok disk_ok (λ k. (0, 0)) w.queue ix
      by_flag false = by_queue w.queue

  offer_all-none : (ms : List RawMessage) → offer_all disk_ok none ms ≡ none
  offer_all-none [] = refl
  offer_all-none (m ∷ ms) = offer_all-none ms

  -- A writer without an indexer stays without.
  pub step_writer-none :
      (w : DeviceWriter) (e : WriterEvent)
      → step_writer disk_ok (w, none) e ≡ (after_event w e, none)
  unfolding step_writer turn_writer drain_raw
  step_writer-none w (ingests m) = refl
  step_writer-none w (takes now later) =
      ap (λ (o : Option Indexer). (after_event w (takes now later), o)) (by_flag w.stopping)
    where
      by_queue : (q : List RawMessage) → (receive_raw disk_ok w none q now later).1 ≡ none
      by_queue [] = unfold receive_raw in refl
      by_queue (m ∷ rest) = unfold receive_raw in refl

      by_flag :
          (stopping : Bool)
          → (if stopping
              then drain_raw disk_ok w none now later
              else receive_raw disk_ok w none w.queue now later).1
            ≡ none
      by_flag true = offer_all-none w.queue
      by_flag false = by_queue w.queue
  step_writer-none w halts = refl

  -- With a disk that refuses no write, what is taken and what is left is what was there and what was
  -- admitted.
  module _ (ok : (path : Text) → disk_ok path ≡ true) where
    pub taken_all-admitted :
        (es : List WriterEvent) (w : DeviceWriter)
        → taken_all w es ++ (run_writer disk_ok (w, none) es).0.queue
          ≡ w.queue ++ admitted_raws disk_ok ok (w, none) es
    unfolding taken_all run_writer admitted_raws
    taken_all-admitted [] w = sym (append-nil w.queue)
    taken_all-admitted (e ∷ es) w =
        append_assoc (taken_in w e) (taken_all w' es)
          (run_writer disk_ok (step_writer disk_ok (w, none) e) es).0.queue
        ∙ ap (λ s. taken_in w e ++ (taken_all w' es ++ (run_writer disk_ok s es).0.queue))
            (step_writer-none w e)
        ∙ ap (λ q. taken_in w e ++ q) (taken_all-admitted es w')
        ∙ sym (append_assoc (taken_in w e) w'.queue (admitted_raws disk_ok ok (w', none) es))
        ∙ ap (λ q. q ++ admitted_raws disk_ok ok (w', none) es) (taken-step_writer w e)
        ∙ append_assoc w.queue (admitted_raw w e) (admitted_raws disk_ok ok (w', none) es)
        ∙ ap (λ s. w.queue ++ (admitted_raw w e ++ admitted_raws disk_ok ok s es))
            (sym (step_writer-none w e))
      where
        w' : DeviceWriter
        w' = after_event w e
