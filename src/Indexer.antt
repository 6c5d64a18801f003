-- ===== src/Indexer.antt =====
-- sylo/indexer/core.py: the bounded queue, the flush by month and the loop of the indexer's task.
-- What SQLite refuses is an argument: `accepts` for single rows, and `batch_ok` for the batch of a
-- month, which fails before anything of it is written.
pub mod Flush
pub mod Delivery
pub mod Bounds
pub mod Room
pub mod Partition
use sylo.Base.{
  ℕ, suc, ◌+◌, ◌≡◌, Bool, true, false, not, ◌&&◌, List, [], ◌∷◌, ◌++◌, map, Option, none, some, ltb,
  leb, if◌then◌else◌, length,
}
use sylo.Text.{Text}
use sylo.Timeutil.{month_key, format_receipt_time}
use sylo.Envelope.{MessageEnvelope}
use sylo.Schema.{Row, MonthDb, empty_db, insert_message}
use sylo.Dict.{Dict, get, set}
use sylo.Stats.{QueueStats}
use sylo.Groups.{group_from}

pub record IndexerConfig : Type 0 where
  pub queue_soft_limit : ℕ
  pub queue_hard_limit : ℕ
  pub flush_max_rows : ℕ

-- The object, with the local `buffer` of its task and the databases that it writes.
pub record Indexer : Type 0 where
  pub config : IndexerConfig
  pub stats : QueueStats
  pub queue : List MessageEnvelope
  pub buffer : List MessageEnvelope
  pub stopping : Bool
  pub index : Dict MonthDb

-- `asyncio.Queue(maxsize).full()`: a size of 0 is no bound.
abbrev pub is_full : ℕ → ℕ → Bool
is_full maxsize qsize = ltb 0 maxsize && leb maxsize qsize

abbrev warn_lag : ℕ → ℕ → QueueStats → QueueStats
warn_lag soft qsize stats =
    if leb soft qsize then record stats { lag_warnings = stats.lag_warnings + 1 } else stats

-- On the verdict of `put_nowait`.
abbrev pub admit : Indexer → MessageEnvelope → Bool → Indexer
admit ix envelope full =
    let qsize = length ix.queue in
    let stats = warn_lag ix.config.queue_soft_limit qsize ix.stats in
    if full then record ix { stats = record stats { dropped = stats.dropped + 1 } } else record ix {
      stats = record stats { queued = qsize + 1 };
      queue = ix.queue ++ envelope ∷ [];
    }

unfoldable pub enqueue : Indexer → MessageEnvelope → Indexer
enqueue ix envelope = admit ix envelope (is_full ix.config.queue_hard_limit (length ix.queue))

-- The row of an envelope.
unfoldable pub row_of : MessageEnvelope → Row
row_of e = record {
  receipt_time = format_receipt_time e.receipt_time;
  source_ip = e.source_ip;
  facility = e.facility;
  severity = e.severity;
  host = e.host;
  tag = e.tag;
  message = e.message;
  malformed = e.malformed;
}

abbrev pub month_of : MessageEnvelope → Text
month_of e = month_key e.receipt_time

-- The database of a month, made if it is not there.
abbrev pub or_empty_db : Option MonthDb → MonthDb
or_empty_db none = empty_db
or_empty_db (some db) = db

-- What happens on the event loop, in some order: a call of `enqueue`, a turn of the task, and `stop`.
pub data Event : Type 0 where
  arrives : MessageEnvelope → Event
  turns : Event
  stops : Event

module _ (accepts : Row → Bool) where
  -- A row that is refused is skipped.
  unfoldable pub insert_rows : MonthDb × ℕ → List Row → MonthDb × ℕ
  insert_rows acc [] = acc
  insert_rows (db, inserted) (r ∷ rs) =
      insert_rows (if accepts r then (insert_message db r, suc inserted) else (db, inserted)) rs

  -- `_insert_batch`.
  unfoldable pub insert_batch : Dict MonthDb → Text → List MessageEnvelope → Dict MonthDb × ℕ
  insert_batch index month envelopes =
      let (db, inserted) = insert_rows (or_empty_db (get month index), 0) (map row_of envelopes) in
      (set month db index, inserted)

  module _ (batch_ok : Text → Bool) where
    -- One month of the flush, with the handler of `sqlite3.Error`.
    unfoldable pub flush_month : Indexer → Text → List MessageEnvelope → Indexer
    flush_month ix month envelopes =
        let (index, inserted) = insert_batch ix.index month envelopes in
        if batch_ok month
        then record ix {
          index = index;
          stats = record ix.stats { written = ix.stats.written + inserted };
        }
        else record ix { stats = record ix.stats { dropped = ix.stats.dropped + length envelopes } }

    unfoldable pub flush_months : Indexer → Dict (List MessageEnvelope) → Indexer
    flush_months ix [] = ix
    flush_months ix ((month, envelopes) ∷ rest) = flush_months (flush_month ix month envelopes) rest

    -- `await self._flush(buffer); buffer = []`.
    unfoldable pub flush : Indexer → Indexer
    flush ix = record (flush_months ix (group_from month_of [] ix.buffer)) { buffer = [] }

    abbrev pub flush_if_any : Indexer → List MessageEnvelope → Indexer
    flush_if_any ix [] = ix
    flush_if_any ix (e ∷ es) = flush ix

    -- The loop's body, on the queue: an item, or the time-out of an empty queue.
    unfoldable pub receive : Indexer → List MessageEnvelope → Indexer
    receive ix [] = flush_if_any ix ix.buffer
    receive ix (e ∷ rest) =
        let ix' = record ix {
          queue = rest;
          buffer = ix.buffer ++ e ∷ [];
          stats = record ix.stats { queued = length rest };
        } in
        if leb ix.config.flush_max_rows (length (ix.buffer ++ e ∷ [])) then flush ix' else ix'

    -- Behind the loop: what is left is taken and flushed.
    unfoldable pub drain : Indexer → Indexer
    drain ix =
        let ix' = record ix { buffer = ix.buffer ++ ix.queue; queue = [] } in
        flush_if_any ix' ix'.buffer

    -- One turn of the task.
    unfoldable pub turn : Indexer → Indexer
    turn ix = if ix.stopping then drain ix else receive ix ix.queue

    unfoldable pub step : Indexer → Event → Indexer
    step ix (arrives e) = enqueue ix e
    step ix turns = turn ix
    step ix stops = record ix { stopping = true }

    unfoldable pub run : Indexer → List Event → Indexer
    run ix [] = ix
    run ix (e ∷ es) = run (step ix e) es
