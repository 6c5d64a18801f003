-- ===== src/DeviceWriter/Rebuilt.antt =====
-- From the socket to the rebuilt index: what sylo/indexer/rebuild.py reads back from the file that
-- sylo/receiver/device_writer.py has written for a day.
use sylo.Base.{
  append-nil, ℕ, ◌≡◌, refl, sym, ap, ◌∙◌, Bool, true, false, not, ◌||◌, List, [], ◌∷◌, ◌++◌, map,
  Option, none, some, arith, if◌then◌else◌, keep, Bool-cases, inl, inr,
}
use sylo.Text.{Bytes, Text, text_eq}
use sylo.Text.Utf8.{encode}
use sylo.Timeutil.{date_text}
use sylo.Envelope.{RawMessage, MessageEnvelope, from_raw}
use sylo.Dict.{Dict, get, set, get-set}
use sylo.Schema.{Row, MonthDb}
use sylo.Indexer.{Indexer, insert_rows}
use sylo.Rebuild.{rebuild_file}
use sylo.Rebuild.Lines.{join_lines}
use sylo.Rebuild.Live.{AllPlain, live_row, file_lines, rebuild_file-live}
use sylo.DeviceWriter.{
  DeviceWriter, ensure_clean_tail, ends_line, sanitize_device_key, or_empty, path_for, member,
  WriterEvent, takes, halts, drain_raw, turn_writer, step_writer, run_writer, flush_lines,
  flush_lines_if_any, write_sync,
}
use sylo.DeviceWriter.Steps.{run_writer-Holds}
use sylo.DeviceWriter.Cleaned.{clean_text, lines_for, written, written-nil}
use sylo.DeviceWriter.Recorded.{day_text}
use sylo.DeviceWriter.Delivered.{
  recorded, admitted_raws, recorded-run_writer, recorded-drain_raw, queue-flush_lines,
}

-- A message of a day.
abbrev pub of_day : Text → RawMessage → Bool
of_day day m = text_eq (date_text m.receipt_time) day

lines_for-from_raw :
    (day : Text) (ms : List RawMessage)
    → lines_for day (map from_raw ms) ≡ file_lines (keep (of_day day) ms)
unfolding lines_for from_raw
lines_for-from_raw day [] = refl
lines_for-from_raw day (m ∷ ms) = ground (arith, lines_for-from_raw day ms)

-- The device of a writer is `key`, and the file at `p` is not there before the writer has written it.
abbrev IsFresh : Text → Text → Text → List Text → Dict Bytes → Type 0
IsFresh key p device paths files = (device ≡ key) × (member p paths ≡ false → get p files ≡ none)

write_path-IsFresh :
    (disk_ok : Text → Bool) (key p : Text) (w : DeviceWriter) (path : Text) (lines : List Text)
    → IsFresh key p w.device_key w.sanitized_paths w.files
    → IsFresh key p w.device_key (path ∷ w.sanitized_paths) (
        set path
          (write_sync (or_empty (get path w.files)) lines (not (member path w.sanitized_paths)))
          w.files)
unfolding member
write_path-IsFresh disk_ok key p w path lines h =
    (h.0, λ k. get-set p path _ w.files ∙ by_path (text_eq path p) k)
  where
    by_path :
        (same : Bool)
        → (same || member p w.sanitized_paths) ≡ false
        → (if same
            then some (
                write_sync
                  (or_empty (get path w.files))
                  lines
                  (not (member path w.sanitized_paths)))
            else get p w.files)
          ≡ none
    by_path true k = cc
    by_path false k = h.1 k

-- A file that is not there, or that the writer has written, is clean.
clean_text-IsFresh :
    (key p : Text) (w : DeviceWriter)
    → IsFresh key p w.device_key w.sanitized_paths w.files
    → clean_text w p ≡ or_empty (get p w.files)
unfolding clean_text
clean_text-IsFresh key p w h = elim (Bool-cases (member p w.sanitized_paths)) [
  | inl known ↦ rw known refl
  | inr new ↦ rw new (rw (h.1 new) (unfold ensure_clean_tail ends_line in refl))
]

-- `stop`, and the turn in which the task drains its queue and ends.
abbrev pub stop_writer :
    (Text → Bool) → DeviceWriter × Option Indexer → ℕ → ℕ → DeviceWriter × Option Indexer
stop_writer disk_ok s now later = turn_writer disk_ok (step_writer disk_ok s halts) now later

recorded-nothing :
    (w : DeviceWriter) (day : Text) → w.buffer ≡ [] → w.queue ≡ [] → recorded w day ≡ day_text w day
unfolding recorded lines_for
recorded-nothing w day h k =
    ap (λ es. day_text w day ++ written (lines_for day (es ++ map from_raw w.queue))) h
    ∙ ap (λ ms. day_text w day ++ written (lines_for day (map from_raw ms))) k
    ∙ ap (λ u. day_text w day ++ u) written-nil
    ∙ append-nil (day_text w day)

module _ (disk_ok : Text → Bool) (ok : (path : Text) → disk_ok path ≡ true) where
  emptied :
      (w : DeviceWriter) (es : List MessageEnvelope) (now later : ℕ)
      → w.buffer ≡ es
      → w.queue ≡ []
      → ((flush_lines_if_any disk_ok w es true now later).buffer ≡ [])
        × ((flush_lines_if_any disk_ok w es true now later).queue ≡ [])
  emptied w [] now later h k = (h, k)
  emptied w (e ∷ es) now later h k =
      (unfold flush_lines in refl, queue-flush_lines disk_ok ok w true now later ∙ k)

  pub day_text-stop_writer :
      (w : DeviceWriter) (ix : Option Indexer) (now later : ℕ) (day : Text)
      → day_text (stop_writer disk_ok (w, ix) now later).0 day ≡ recorded w day
  unfolding turn_writer step_writer drain_raw
  day_text-stop_writer w ix now later day =
      sym (recorded-nothing (drain_raw disk_ok halted ix now later).0 day none_left.0 none_left.1)
      ∙ recorded-drain_raw disk_ok ok halted ix now later day
      ∙ unfold recorded clean_text in refl
    where
      halted : DeviceWriter
      halted = record w { stopping = true }

      none_left :
          ((drain_raw disk_ok halted ix now later).0.buffer ≡ [])
          × ((drain_raw disk_ok halted ix now later).0.queue ≡ [])
      none_left =
          emptied (record halted { buffer = w.buffer ++ map from_raw w.queue; queue = [] })
            (w.buffer ++ map from_raw w.queue) now later refl refl

  stop_writer-IsFresh :
      (key p : Text) (es : List WriterEvent) (w : DeviceWriter) (ix : Option Indexer)
      (now later : ℕ)
      → IsFresh key p w.device_key w.sanitized_paths w.files
      → IsFresh key p
          (stop_writer disk_ok (run_writer disk_ok (w, ix) es) now later).0.device_key
          (stop_writer disk_ok (run_writer disk_ok (w, ix) es) now later).0.sanitized_paths
          (stop_writer disk_ok (run_writer disk_ok (w, ix) es) now later).0.files
  unfolding run_writer step_writer
  stop_writer-IsFresh key p es w ix now later h =
      run_writer-Holds disk_ok ok (IsFresh key p) (write_path-IsFresh disk_ok key p)
        (halts ∷ takes now later ∷ []) (run_writer disk_ok (w, ix) es).0
        (run_writer disk_ok (w, ix) es).1
        (run_writer-Holds disk_ok ok (IsFresh key p) (write_path-IsFresh disk_ok key p) es w ix h)

  -- If the disk refuses no write, and a writer starts with nothing in its queue and its buffer and
  -- without a file of the day, then after any course of arrivals and turns, and a stop, the file of
  -- the day holds one line for each message of the day that the queue admitted, in order of arrival.
  pub files-stop_writer :
      (es : List WriterEvent) (w : DeviceWriter) (ix : Option Indexer) (now later : ℕ) (day : Text)
      → w.queue ≡ []
      → w.buffer ≡ []
      → get (path_for w.device_key day) w.files ≡ none
      → or_empty (
          get
            (path_for w.device_key day)
            (stop_writer disk_ok (run_writer disk_ok (w, ix) es) now later).0.files)
        ≡ encode (join_lines (file_lines (keep (of_day day) (admitted_raws disk_ok ok (w, ix) es))))
  files-stop_writer es w ix now later day hq hb hf =
      sym (clean_text-IsFresh w.device_key path stopped fresh)
      ∙ ap (λ k. clean_text stopped (path_for k day)) (sym fresh.0)
      ∙ day_text-stop_writer ran.0 ran.1 now later day
      ∙ recorded-run_writer disk_ok ok es w ix day
      ∙ ap (λ t. t ++ written (lines_for day (map from_raw admitted)))
          (recorded-nothing w day hb hq ∙ nothing_there)
      ∙ unfold written in ap (λ ls. encode (join_lines ls)) (lines_for-from_raw day admitted)
    where
      path : Text
      path = path_for w.device_key day

      ran : DeviceWriter × Option Indexer
      ran = run_writer disk_ok (w, ix) es

      stopped : DeviceWriter
      stopped = (stop_writer disk_ok (run_writer disk_ok (w, ix) es) now later).0

      admitted : List RawMessage
      admitted = admitted_raws disk_ok ok (w, ix) es

      fresh : IsFresh w.device_key path stopped.device_key stopped.sanitized_paths stopped.files
      fresh = stop_writer-IsFresh w.device_key path es w ix now later (refl, λ _. hf)

      nothing_there : day_text w day ≡ []
      nothing_there = clean_text-IsFresh w.device_key path w (refl, λ _. hf) ∙ ap or_empty hf

  -- If the disk refuses no write, and a writer starts with nothing in its queue and its buffer and
  -- without a file of the day, then after any course of arrivals and turns, and a stop, the rebuild
  -- of the day's file inserts, under the name of the device's directory, the rows that the live
  -- indexer inserts for the messages of the day that the queue admitted, in order and with the same
  -- count, if the bytes of these are the UTF-8 form of texts without line breaks and their times are
  -- in range.
  pub rebuild_file-stop_writer :
      (accepts : Row → Bool) (db : MonthDb) (es : List WriterEvent) (w : DeviceWriter)
      (ix : Option Indexer) (now later : ℕ) (day : Text)
      → w.queue ≡ []
      → w.buffer ≡ []
      → get (path_for w.device_key day) w.files ≡ none
      → AllPlain (keep (of_day day) (admitted_raws disk_ok ok (w, ix) es))
      → rebuild_file accepts db
          (or_empty (
            get
              (path_for w.device_key day)
              (stop_writer disk_ok (run_writer disk_ok (w, ix) es) now later).0.files))
          (sanitize_device_key w.device_key)
        ≡ insert_rows accepts
            (db, 0)
            (map
              (live_row (sanitize_device_key w.device_key))
              (keep (of_day day) (admitted_raws disk_ok ok (w, ix) es)))
  rebuild_file-stop_writer accepts db es w ix now later day hq hb hf plain =
      ap (λ f. rebuild_file accepts db f (sanitize_device_key w.device_key))
        (files-stop_writer es w ix now later day hq hb hf)
      ∙ rebuild_file-live accepts (sanitize_device_key w.device_key) db
          (keep (of_day day) (admitted_raws disk_ok ok (w, ix) es)) plain
