-- ===== src/DeviceWriter/Delivered.antt =====
-- What reaches the files of sylo/receiver/device_writer.py: the line of every message that the queue
-- admits, once, in the file of its day and in order.
use sylo.Base.{
  ℕ, ◌≡◌, refl, sym, ap, ◌∙◌, Bool, true, false, List, [], ◌∷◌, ◌++◌, append-nil, append_assoc, map,
  Option, leb, length, if◌then◌else◌, if_elim,
}
use sylo.Text.{Bytes, Text}
use sylo.Envelope.{RawMessage, MessageEnvelope, from_raw}
use sylo.Groups.{group_from}
use sylo.Indexer.{Indexer, is_full}
use sylo.DeviceWriter.{
  DeviceWriter, admit_raw, enqueue_raw, WriterEvent, ingests, takes, halts, flush_lines,
  flush_lines_if_any, day_of, receive_raw, drain_raw, turn_writer, step_writer, run_writer,
}
use sylo.DeviceWriter.Cleaned.{
  queue-write_days, clean_text, lines_for, lines_for-append, written, written-append, written-nil,
}
use sylo.DeviceWriter.Recorded.{day_text, day_text-flush_lines}

pub map-append {ℓ κ} :
    {A : Type ℓ} {B : Type κ} (f : A → B) (xs ys : List A) → map f (xs ++ ys) ≡ map f xs ++ map f ys
map-append f [] ys = refl
map-append f (x ∷ xs) ys = ap (◌∷◌ (f x)) (map-append f xs ys)

-- The text of a day that is written, with the lines that are still to be written.
unfoldable pub recorded : DeviceWriter → Text → Bytes
recorded w day = day_text w day ++ written (lines_for day (w.buffer ++ map from_raw w.queue))

-- The message of an event that the queue admits.
unfoldable pub admitted_raw : DeviceWriter → WriterEvent → List RawMessage
admitted_raw w (ingests m) =
    if is_full w.config.queue_hard_limit (length w.queue) then [] else m ∷ []
admitted_raw w (takes now later) = []
admitted_raw w halts = []

-- More messages behind those that are to be written.
recorded_more :
    (before : Bytes) (day : Text) (es fs : List MessageEnvelope)
    → before ++ written (lines_for day (es ++ fs))
      ≡ (before ++ written (lines_for day es)) ++ written (lines_for day fs)
recorded_more before day es fs =
    ap (λ ls. before ++ written ls) (lines_for-append day es fs)
    ∙ ap (λ u. before ++ u) (written-append (lines_for day es) (lines_for day fs))
    ∙ sym (append_assoc before (written (lines_for day es)) (written (lines_for day fs)))

nothing_more : (t : Bytes) (day : Text) → t ≡ t ++ written (lines_for day [])
unfolding lines_for
nothing_more t day = sym (append-nil t) ∙ ap (λ u. t ++ u) (sym written-nil)

-- The disk refuses no write.
module _ (disk_ok : Text → Bool) (ok : (path : Text) → disk_ok path ≡ true) where
  pub queue-flush_lines :
      (w : DeviceWriter) (force : Bool) (now later : ℕ)
      → (flush_lines disk_ok w force now later).queue ≡ w.queue
  unfolding flush_lines
  queue-flush_lines w force now later = queue-write_days disk_ok (group_from day_of [] w.buffer) w

  buffer-flush_lines :
      (w : DeviceWriter) (force : Bool) (now later : ℕ)
      → (flush_lines disk_ok w force now later).buffer ≡ []
  unfolding flush_lines
  buffer-flush_lines w force now later = refl

  recorded-flush_lines :
      (w : DeviceWriter) (force : Bool) (now later : ℕ) (day : Text)
      → recorded (flush_lines disk_ok w force now later) day ≡ recorded w day
  unfolding recorded
  recorded-flush_lines w force now later day =
      ap (λ t. t ++ written (lines_for day (flushed.buffer ++ map from_raw flushed.queue)))
        (day_text-flush_lines disk_ok ok w force now later day)
      ∙ ap
          (λ b.
            (day_text w day ++ written (lines_for day w.buffer))
            ++ written (lines_for day (b ++ map from_raw flushed.queue)))
          (buffer-flush_lines w force now later)
      ∙ ap
          (λ q.
            (day_text w day ++ written (lines_for day w.buffer))
            ++ written (lines_for day (map from_raw q)))
          (queue-flush_lines w force now later)
      ∙ sym (recorded_more (day_text w day) day w.buffer (map from_raw w.queue))
    where
      flushed : DeviceWriter
      flushed = flush_lines disk_ok w force now later

  recorded-flush_lines_if_any :
      (w : DeviceWriter) (es : List MessageEnvelope) (force : Bool) (now later : ℕ) (day : Text)
      → recorded (flush_lines_if_any disk_ok w es force now later) day ≡ recorded w day
  recorded-flush_lines_if_any w [] force now later day = refl
  recorded-flush_lines_if_any w (e ∷ es) force now later day =
      recorded-flush_lines w force now later day

  recorded-receive_raw :
      (w : DeviceWriter) (ix : Option Indexer) (q : List RawMessage) (now later : ℕ) (day : Text)
      → w.queue ≡ q
      → recorded (receive_raw disk_ok w ix q now later).0 day ≡ recorded w day
  unfolding receive_raw
  recorded-receive_raw w ix [] now later day h =
      recorded-flush_lines_if_any w w.buffer false now later day
  recorded-receive_raw w ix (m ∷ rest) now later day h =
      if_elim (λ (v : DeviceWriter). recorded v day ≡ recorded w' day)
        (leb w.config.flush_max_messages (length (w.buffer ++ from_raw m ∷ [])))
        (recorded-flush_lines w' false now later day) refl
      ∙ moved
    where
      w' : DeviceWriter
      w' = record w {
        queue = rest;
        buffer = w.buffer ++ from_raw m ∷ [];
        stats = record w.stats { queued = length rest };
      }

      moved : recorded w' day ≡ recorded w day
      moved =
          unfold recorded clean_text in
          ap (λ es. day_text w day ++ written (lines_for day es))
            (append_assoc w.buffer (from_raw m ∷ []) (map from_raw rest)
              ∙ ap (λ ms. w.buffer ++ map from_raw ms) (sym h))

  pub recorded-drain_raw :
      (w : DeviceWriter) (ix : Option Indexer) (now later : ℕ) (day : Text)
      → recorded (drain_raw disk_ok w ix now later).0 day ≡ recorded w day
  unfolding drain_raw
  recorded-drain_raw w ix now later day =
      recorded-flush_lines_if_any
        (record w { buffer = w.buffer ++ map from_raw w.queue; queue = [] })
        (w.buffer ++ map from_raw w.queue) true now later day
      ∙ unfold recorded clean_text in
        ap (λ es. day_text w day ++ written (lines_for day es))
          (append-nil (w.buffer ++ map from_raw w.queue))

  recorded-enqueue_raw :
      (w : DeviceWriter) (m : RawMessage) (day : Text)
      → recorded (enqueue_raw w m) day
        ≡ recorded w day ++ written (lines_for day (map from_raw (admitted_raw w (ingests m))))
  unfolding enqueue_raw admitted_raw
  recorded-enqueue_raw w m day = by_room (is_full w.config.queue_hard_limit (length w.queue))
    where
      by_room :
          (full : Bool)
          → recorded (admit_raw w m full) day
            ≡ recorded w day ++ written (lines_for day (map from_raw (if full then [] else m ∷ [])))
      by_room true = unfold recorded clean_text in nothing_more (recorded w day) day
      by_room false =
          unfold recorded clean_text in
          ap (λ es. day_text w day ++ written (lines_for day (w.buffer ++ es)))
            (map-append from_raw w.queue (m ∷ []))
          ∙ ap (λ es. day_text w day ++ written (lines_for day es))
              (sym (append_assoc w.buffer (map from_raw w.queue) (from_raw m ∷ [])))
          ∙ recorded_more (day_text w day) day (w.buffer ++ map from_raw w.queue) (from_raw m ∷ [])

  recorded-step_writer :
      (w : DeviceWriter) (ix : Option Indexer) (e : WriterEvent) (day : Text)
      → recorded (step_writer disk_ok (w, ix) e).0 day
        ≡ recorded w day ++ written (lines_for day (map from_raw (admitted_raw w e)))
  unfolding step_writer turn_writer
  recorded-step_writer w ix (ingests m) day = recorded-enqueue_raw w m day
  recorded-step_writer w ix (takes now later) day =
      if_elim (λ (s : DeviceWriter × Option Indexer). recorded s.0 day ≡ recorded w day) w.stopping
        (recorded-drain_raw w ix now later day)
        (recorded-receive_raw w ix w.queue now later day refl)
      ∙ unfold admitted_raw in nothing_more (recorded w day) day
  recorded-step_writer w ix halts day =
      unfold recorded clean_text admitted_raw in nothing_more (recorded w day) day

  -- Every message that the queue admits in the course of some events.
  unfoldable pub admitted_raws : DeviceWriter × Option Indexer → List WriterEvent → List RawMessage
  admitted_raws s [] = []
  admitted_raws s (e ∷ es) = admitted_raw s.0 e ++ admitted_raws (step_writer disk_ok s e) es

  -- If the disk refuses no write, then in any course of arrivals and turns, with or without a stop,
  -- the text of a day that is written or still to be written is that at the start, followed by one
  -- line for each admitted message of the day, in the order of arrival.
  pub recorded-run_writer :
      (es : List WriterEvent) (w : DeviceWriter) (ix : Option Indexer) (day : Text)
      → recorded (run_writer disk_ok (w, ix) es).0 day
        ≡ recorded w day ++ written (lines_for day (map from_raw (admitted_raws (w, ix) es)))
  unfolding run_writer admitted_raws
  recorded-run_writer [] w ix day = nothing_more (recorded w day) day
  recorded-run_writer (e ∷ es) w ix day =
      recorded-run_writer es (step_writer disk_ok (w, ix) e).0 (step_writer disk_ok (w, ix) e).1 day
      ∙ ap (λ t. t ++ written (lines_for day (map from_raw later)))
          (recorded-step_writer w ix e day)
      ∙ sym (
          recorded_more (recorded w day) day (map from_raw (admitted_raw w e)) (map from_raw later))
      ∙ ap (λ fs. recorded w day ++ written (lines_for day fs))
          (sym (map-append from_raw (admitted_raw w e) later))
    where
      later : List RawMessage
      later = admitted_raws (step_writer disk_ok (w, ix) e) es
