-- ===== src/DeviceWriter/Steps.antt =====
-- What holds of the files of sylo/receiver/device_writer.py through a run.
use sylo.Base.{
  ℕ, ◌≡◌, Bool, true, false, List, [], ◌∷◌, ◌++◌, map, Option, leb, length, if◌then◌else◌,
}
use sylo.Text.{Bytes, Text}
use sylo.Envelope.{RawMessage, MessageEnvelope, from_raw, to_line}
use sylo.Dict.{Dict}
use sylo.Groups.{group_from}
use sylo.Indexer.{Indexer, is_full}
use sylo.DeviceWriter.{
  DeviceWriter, admit_raw, enqueue_raw, path_for, WriterEvent, ingests, takes, halts, write_path,
  write_day, write_days, flush_lines, flush_lines_if_any, receive_raw, drain_raw, turn_writer,
  step_writer, run_writer, day_of,
}

-- What is said of the device, of the paths that the process has written to and of the files.
-- The disk refuses no write.
module _ (disk_ok : Text → Bool) (ok : (path : Text) → disk_ok path ≡ true)
    (P : Text → List Text → Dict Bytes → Type 0)
    (keeps : (w : DeviceWriter) (path : Text) (lines : List Text)
      → P w.device_key w.sanitized_paths w.files
      → P w.device_key
          (write_path disk_ok w path lines).sanitized_paths
          (write_path disk_ok w path lines).files) where
  abbrev Holds : DeviceWriter → Type 0
  Holds w = P w.device_key w.sanitized_paths w.files

  write_day-Holds :
      (w : DeviceWriter) (day : Text) (es : List MessageEnvelope)
      → Holds w
      → Holds (write_day disk_ok w day es)
  unfolding write_day
  write_day-Holds w day es h =
      rw (ok (path_for w.device_key day)) (keeps w (path_for w.device_key day) (map to_line es) h)

  write_days-Holds :
      (d : Dict (List MessageEnvelope)) (w : DeviceWriter)
      → Holds w
      → Holds (write_days disk_ok w d)
  unfolding write_days
  write_days-Holds [] w h = h
  write_days-Holds ((day, es) ∷ d) w h =
      write_days-Holds d (write_day disk_ok w day es) (write_day-Holds w day es h)

  flush_lines_if_any-Holds :
      (w : DeviceWriter) (es : List MessageEnvelope) (force : Bool) (now later : ℕ)
      → Holds w
      → Holds (flush_lines_if_any disk_ok w es force now later)
  unfolding flush_lines
  flush_lines_if_any-Holds w [] force now later h = h
  flush_lines_if_any-Holds w (e ∷ es) force now later h =
      write_days-Holds (group_from day_of [] w.buffer) w h

  receive_raw-Holds :
      (w : DeviceWriter) (ix : Option Indexer) (q : List RawMessage) (now later : ℕ)
      → Holds w
      → Holds (receive_raw disk_ok w ix q now later).0
  unfolding receive_raw
  receive_raw-Holds w ix [] now later h = flush_lines_if_any-Holds w w.buffer false now later h
  receive_raw-Holds w ix (m ∷ rest) now later h =
      by_size (leb w.config.flush_max_messages (length (w.buffer ++ from_raw m ∷ [])))
    where
      w' : DeviceWriter
      w' = record w {
        queue = rest;
        buffer = w.buffer ++ from_raw m ∷ [];
        stats = record w.stats { queued = length rest };
      }

      by_size : (full : Bool) → Holds (if full then flush_lines disk_ok w' false now later else w')
      by_size true = flush_lines_if_any-Holds w' (from_raw m ∷ []) false now later h
      by_size false = h

  turn_writer-Holds :
      (w : DeviceWriter) (ix : Option Indexer) (now later : ℕ)
      → Holds w
      → Holds (turn_writer disk_ok (w, ix) now later).0
  unfolding turn_writer
  turn_writer-Holds w ix now later h = by_flag w.stopping
    where
      by_flag :
          (stopping : Bool)
          → Holds
              (if stopping
                then drain_raw disk_ok w ix now later
                else receive_raw disk_ok w ix w.queue now later).0
      by_flag true =
          unfold drain_raw in
          flush_lines_if_any-Holds
            (record w { buffer = w.buffer ++ map from_raw w.queue; queue = [] })
            (w.buffer ++ map from_raw w.queue) true now later h
      by_flag false = receive_raw-Holds w ix w.queue now later h

  enqueue_raw-Holds : (w : DeviceWriter) (m : RawMessage) → Holds w → Holds (enqueue_raw w m)
  unfolding enqueue_raw
  enqueue_raw-Holds w m h = by_room (is_full w.config.queue_hard_limit (length w.queue))
    where
      by_room : (full : Bool) → Holds (admit_raw w m full)
      by_room true = h
      by_room false = h

  -- What a write keeps, every course of events keeps.
  pub run_writer-Holds :
      (es : List WriterEvent) (w : DeviceWriter) (ix : Option Indexer)
      → Holds w
      → Holds (run_writer disk_ok (w, ix) es).0
  unfolding run_writer step_writer
  run_writer-Holds [] w ix h = h
  run_writer-Holds (ingests m ∷ es) w ix h =
      run_writer-Holds es (enqueue_raw w m) ix (enqueue_raw-Holds w m h)
  run_writer-Holds (takes now later ∷ es) w ix h =
      run_writer-Holds es (turn_writer disk_ok (w, ix) now later).0
        (turn_writer disk_ok (w, ix) now later).1 (turn_writer-Holds w ix now later h)
  run_writer-Holds (halts ∷ es) w ix h = run_writer-Holds es (record w { stopping = true }) ix h
