-- ===== src/Tests/Indexing.antt =====
-- Messages of one month through the indexer, and the rebuild of a month from a data directory
-- (sylo/indexer/core.py, sylo/indexer/rebuild.py, sylo/timeutil.py).
use sylo.Base.{◌≡◌, Option, none, some, refl, Bool, true, false, List, [], ◌∷◌, ◌++◌, arith, inl}
use sylo.Text.{Bytes, Text, text_lt, codes}
use sylo.Text.Utf8.{encode, encode_one}
use sylo.Timeutil.{Datetime, IsDatetime, format_receipt_time}
use sylo.Timeutil.Order.{before, text_lt-format_receipt_time}
use sylo.Envelope.{RawMessage, MessageEnvelope, from_raw}
use sylo.Schema.{Row, MonthDb, empty_db}
use sylo.Dict.{Dict, get}
use sylo.Stats.{no_stats}
use sylo.Indexer.{Indexer, Event, arrives, turns, stops, run}
use sylo.Indexer.Flush.{month_rows, rows_for}
use sylo.Indexer.Delivery.{delivered, delivered-run, admitted_all}
use sylo.Indexer.Partition.{IsPartitioned, run-IsPartitioned}
use sylo.Indexer.Bounds.{IsBounded, run-IsBounded}
use sylo.Rebuild.Live.{IsPlain}

abbrev pub first_time : Datetime
first_time = record {
  year = 2024;
  month = 5;
  day = 6;
  hour = 7;
  minute = 8;
  second = 9;
  microsecond = 10;
}

abbrev later_time : Datetime
later_time = record first_time { day = 17 }

first_time-IsDatetime : IsDatetime first_time
first_time-IsDatetime = record {
  year_from = omega arith;
  year_to = omega arith;
  month_from = omega arith;
  month_to = omega arith;
  day_from = omega arith;
  day_to = omega arith;
  hour_to = omega arith;
  minute_to = omega arith;
  second_to = omega arith;
  microsecond_to = omega arith;
}

later_time-IsDatetime : IsDatetime later_time
later_time-IsDatetime = record {
  year_from = omega arith;
  year_to = omega arith;
  month_from = omega arith;
  month_to = omega arith;
  day_from = omega arith;
  day_to = omega arith;
  hour_to = omega arith;
  minute_to = omega arith;
  second_to = omega arith;
  microsecond_to = omega arith;
}

text_lt-format_receipt_time_example :
    text_lt (format_receipt_time first_time) (format_receipt_time later_time)
    ≡ before first_time later_time
text_lt-format_receipt_time_example =
    text_lt-format_receipt_time first_time later_time first_time-IsDatetime later_time-IsDatetime

abbrev pub message : RawMessage
message = record {
  raw = codes "<1>";
  receipt_time = first_time;
  source_ip = codes "10.0.0.9";
  source_port = 514;
  transport = codes "udp";
}

abbrev pub message_later : RawMessage
message_later = record message { receipt_time = later_time; raw = codes "x" }

abbrev envelope : MessageEnvelope
envelope = from_raw message

abbrev pub indexer : Indexer
indexer = record {
  config = record { queue_soft_limit = 5; queue_hard_limit = 10; flush_max_rows = 2 };
  stats = no_stats;
  queue = [];
  buffer = [];
  stopping = false;
  index = [];
}

abbrev events : List Event
events = arrives envelope ∷ turns ∷ arrives (from_raw message_later) ∷ stops ∷ []

abbrev pub all_rows : Row → Bool
all_rows r = true

abbrev pub all_months : Text → Bool
all_months month = true

pub never_fails : (month : Text) → all_months month ≡ true
never_fails month = refl

abbrev pub may : Text
may = codes "2024-05"

delivered-run_example :
    delivered all_rows all_months never_fails (run all_rows all_months indexer events) may
    ≡ delivered all_rows all_months never_fails indexer may
      ++ rows_for all_rows may (admitted_all all_rows all_months never_fails indexer events)
delivered-run_example = delivered-run all_rows all_months never_fails indexer events may

indexer-IsBounded : IsBounded indexer
indexer-IsBounded = record { within = λ h. omega arith }

no_rows-IsPartitioned : IsPartitioned indexer.index
unfolding month_rows get
no_rows-IsPartitioned key = tt

run-IsPartitioned_example : IsPartitioned (run all_rows all_months indexer events).index
run-IsPartitioned_example =
    run-IsPartitioned all_rows all_months events indexer no_rows-IsPartitioned

run-IsBounded_example : IsBounded (run all_rows all_months indexer events)
run-IsBounded_example = run-IsBounded all_rows all_months events indexer indexer-IsBounded

pub message-IsPlain : IsPlain message
unfolding encode encode_one
message-IsPlain = record {
  text = codes "<1>";
  encoded = refl;
  scalars = (inl (omega arith), (inl (omega arith), (inl (omega arith), tt)));
  unbroken = refl;
  time = first_time-IsDatetime;
}

abbrev june : Text
june = codes "2024-06"

abbrev data_dir : List (Text × Option (List (Text × Bytes)))
data_dir =
    (
      codes "10.0.0.9",
      some (
          (codes "2024-06-01.log", codes "2 c\n")
          ∷ (codes "2024-05-06.log", codes "1 a\n1 b\n")
          ∷ (codes "notes", codes "3 d\n")
          ∷ []),
    )
    ∷ (codes "lost+found", none)
    ∷ []

abbrev old_index : Dict MonthDb
old_index = (may, empty_db) ∷ (june, empty_db) ∷ []
