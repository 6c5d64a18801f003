-- ===== src/DeviceWriter.antt =====
-- sylo/receiver/device_writer.py: the queue of one device, the loop of its task and the files it
-- appends to. Python's `time.monotonic()` is an argument of a turn, read before and after the
-- writes; the files whose writes never fail are the argument `disk_ok`, and what a write to another
-- file comes to is the operating system's, part of the lines written included. The indexer is shared with other devices, so it stands beside the writer.
pub mod Steps
pub mod Whole
pub mod Registry
pub mod Cleaned
pub mod Recorded
pub mod Delivered
pub mod Rebuilt
use sylo.Base.{
  ℕ, suc, ◌+◌, Bool, true, false, not, ◌&&◌, ◌||◌, List, [], ◌∷◌, ◌++◌, map, Option, none, some,
  ltb, leb, ◌==◌, if◌then◌else◌, length,
}
use sylo.Text.{Bytes, Text, text_eq, codes}
use sylo.Text.Utf8.{encode}
use sylo.Timeutil.{date_text}
use sylo.Envelope.{RawMessage, MessageEnvelope, from_raw, to_line}
use sylo.Dict.{Dict, get, set}
use sylo.Stats.{QueueStats}
use sylo.Groups.{group_from}
use sylo.Indexer.{Indexer, is_full, enqueue}

-- What the operating system makes of a write: it completes it, or it raises OSError, before the file
-- is touched, or with these bytes in it, of which a part of the lines may be the end.
pub data WriteOutcome : Type 0 where
  completes : WriteOutcome
  leaves_untouched : WriteOutcome
  leaves : Bytes → WriteOutcome

-- The fields of `ReceiverConfig` that a writer reads, and the operating system under its files: what a
-- write of these lines to the file at the path with these bytes comes to.
pub record WriterConfig : Type 0 where
  pub queue_soft_limit : ℕ
  pub queue_hard_limit : ℕ
  pub flush_max_messages : ℕ
  pub fsync_interval_seconds : ℕ
  pub outcome : Text → Bytes → List Text → WriteOutcome

-- The object, with the local `buffer` of its task and the files below the data directory.
pub record DeviceWriter : Type 0 where
  pub device_key : Text
  pub config : WriterConfig
  pub stats : QueueStats
  pub queue : List RawMessage
  pub buffer : List MessageEnvelope
  pub last_fsync : ℕ
  pub stopping : Bool
  pub sanitized_paths : List Text
  pub files : Dict Bytes

abbrev sanitize_byte : ℕ → ℕ
sanitize_byte c = if c == b':' then b'_' else c

unfoldable pub sanitize_device_key : Text → Text
sanitize_device_key ip = map sanitize_byte ip

-- The last byte is a newline, or there is none.
unfoldable pub ends_line : Bytes → Bool
ends_line [] = true
ends_line (c ∷ []) = c == b'\n'
ends_line (c ∷ d ∷ cs) = ends_line (d ∷ cs)

-- `_ensure_clean_tail`.
unfoldable pub ensure_clean_tail : Bytes → Bytes
ensure_clean_tail f = if ends_line f then f else f ++ b'\n' ∷ []

-- `"\n".join(lines)`.
unfoldable pub join_newline : List Text → Text
join_newline [] = []
join_newline (l ∷ []) = l
join_newline (l ∷ k ∷ ls) = l ++ b'\n' ∷ join_newline (k ∷ ls)

-- A file that is not there is made empty.
abbrev pub or_empty : Option Bytes → Bytes
or_empty none = []
or_empty (some f) = f

-- `_write_sync`, on what the file holds.
unfoldable pub write_sync : Bytes → List Text → Bool → Bytes
write_sync f lines sanitize_tail =
    (if sanitize_tail then ensure_clean_tail f else f) ++ encode (join_newline lines ++ b'\n' ∷ [])

-- `put_nowait` and its handler.
abbrev pub admit_raw : DeviceWriter → RawMessage → Bool → DeviceWriter
admit_raw w m full =
    let qsize = length w.queue in
    let stats =
      if leb w.config.queue_soft_limit qsize
      then record w.stats { lag_warnings = w.stats.lag_warnings + 1 }
      else w.stats in
    if full
    then record w { stats = record stats { dropped = stats.dropped + 1 } }
    else record w { stats = record stats { queued = qsize + 1 }; queue = w.queue ++ m ∷ [] }

unfoldable pub enqueue_raw : DeviceWriter → RawMessage → DeviceWriter
enqueue_raw w m = admit_raw w m (is_full w.config.queue_hard_limit (length w.queue))

-- `_path_for`, below the data directory.
unfoldable pub path_for : Text → Text → Text
path_for device_key day = sanitize_device_key device_key ++ b'/' ∷ day ++ codes ".log"

abbrev pub day_of : MessageEnvelope → Text
day_of e = date_text e.receipt_time

-- `path in self._sanitized_paths`.
unfoldable pub member : Text → List Text → Bool
member p [] = false
member p (q ∷ qs) = text_eq q p || member p qs

abbrev pub offer : Option Indexer → MessageEnvelope → Option Indexer
offer none e = none
offer (some ix) e = some (enqueue ix e)

-- What happens on the event loop: an arrival, a turn of the task with the clock before and after the
-- writes, and `stop`.
pub data WriterEvent : Type 0 where
  ingests : RawMessage → WriterEvent
  takes : ℕ → ℕ → WriterEvent
  halts : WriterEvent

module _ (disk_ok : Text → Bool) where
  abbrev pub write_path : DeviceWriter → Text → List Text → DeviceWriter
  write_path w path lines = record w {
    files =
        set path
          (write_sync (or_empty (get path w.files)) lines (not (member path w.sanitized_paths)))
          w.files;
    sanitized_paths = path ∷ w.sanitized_paths;
    stats = record w.stats { written = w.stats.written + length lines };
  }

  abbrev pub on_outcome : DeviceWriter → Text → List Text → WriteOutcome → DeviceWriter
  on_outcome w path lines completes = write_path w path lines
  on_outcome w path lines leaves_untouched = w
  on_outcome w path lines (leaves rest) = record w { files = set path rest w.files }

  -- One day of the flush, with the handler of `OSError`. Of a path in `disk_ok` no write is refused;
  -- of another, each write comes to what the operating system makes of it.
  unfoldable pub write_day : DeviceWriter → Text → List MessageEnvelope → DeviceWriter
  write_day w day es =
      let path = path_for w.device_key day in
      if disk_ok path
      then write_path w path (map to_line es)
      else on_outcome w path (map to_line es)
          (w.config.outcome path (or_empty (get path w.files)) (map to_line es))

  unfoldable pub write_days : DeviceWriter → Dict (List MessageEnvelope) → DeviceWriter
  write_days w [] = w
  write_days w ((day, es) ∷ rest) = write_days (write_day w day es) rest

  -- `await self._flush(buffer, force_fsync); buffer = []`.
  unfoldable pub flush_lines : DeviceWriter → Bool → ℕ → ℕ → DeviceWriter
  flush_lines w force_fsync now later =
      let do_fsync = force_fsync || leb (w.last_fsync + w.config.fsync_interval_seconds) now in
      record (write_days w (group_from day_of [] w.buffer)) {
        buffer = [];
        last_fsync = if do_fsync then later else w.last_fsync;
      }

  abbrev pub flush_lines_if_any : DeviceWriter → List MessageEnvelope → Bool → ℕ → ℕ → DeviceWriter
  flush_lines_if_any w [] force_fsync now later = w
  flush_lines_if_any w (e ∷ es) force_fsync now later = flush_lines w force_fsync now later

  -- The loop's body, on the queue: an item, or the time-out of an empty queue.
  unfoldable pub receive_raw :
      DeviceWriter → Option Indexer → List RawMessage → ℕ → ℕ → DeviceWriter × Option Indexer
  receive_raw w ix [] now later = (flush_lines_if_any w w.buffer false now later, ix)
  receive_raw w ix (m ∷ rest) now later =
      let w' = record w {
        queue = rest;
        buffer = w.buffer ++ from_raw m ∷ [];
        stats = record w.stats { queued = length rest };
      } in
      let full = leb w.config.flush_max_messages (length (w.buffer ++ from_raw m ∷ [])) in
      (if full then flush_lines w' false now later else w', offer ix (from_raw m))

  abbrev pub offer_all : Option Indexer → List RawMessage → Option Indexer
  offer_all ix [] = ix
  offer_all ix (m ∷ ms) = offer_all (offer ix (from_raw m)) ms

  -- Behind the loop.
  unfoldable pub drain_raw : DeviceWriter → Option Indexer → ℕ → ℕ → DeviceWriter × Option Indexer
  drain_raw w ix now later =
      let w' = record w { buffer = w.buffer ++ map from_raw w.queue; queue = [] } in
      (flush_lines_if_any w' w'.buffer true now later, offer_all ix w.queue)

  unfoldable pub turn_writer : DeviceWriter × Option Indexer → ℕ → ℕ → DeviceWriter × Option Indexer
  turn_writer (w, ix) now later =
      if w.stopping then drain_raw w ix now later else receive_raw w ix w.queue now later

  unfoldable pub step_writer :
      DeviceWriter × Option Indexer → WriterEvent → DeviceWriter × Option Indexer
  step_writer (w, ix) (ingests m) = (enqueue_raw w m, ix)
  step_writer s (takes now later) = turn_writer s now later
  step_writer (w, ix) halts = (record w { stopping = true }, ix)

  unfoldable pub run_writer :
      DeviceWriter × Option Indexer → List WriterEvent → DeviceWriter × Option Indexer
  run_writer s [] = s
  run_writer s (e ∷ es) = run_writer (step_writer s e) es
