-- ===== src/Tests/Retaining.antt =====
-- Passes of the retention, and the polls of the tail (sylo/retention/core.py,
-- sylo/webapp/routes/messages.py).
use sylo.Base.{
  List, true, ℕ, ◌+◌, ◌*◌, ◌-◌, ◌≡◌, refl, Bool, false, inr, ◌≤◌, [], ◌∷◌, ◌++◌, Option, none, some,
  arith,
}
use sylo.Text.{Text, text_eq, codes}
use sylo.AppDb.{AppDb, get_setting, init_db}
use sylo.Schema.{MonthDb}
use sylo.Dict.{Dict, get}
use sylo.Queries.{number_from}
use sylo.MessageRoutes.{tail_generator}
use sylo.MessageRoutes.Tail.{poll, done, fresh, repeat, tail_generator_complete}
use sylo.Retention.{ℤ, pos, split_dash, month_end, cutoff}
use sylo.Retention.Calendar.{
  Date, date, ordinal, plain_days, days_in_month, days_of_months, days_before_year, is_leap,
}
use sylo.Retention.Calendar.Months.{month_end-covers}
use sylo.Retention.Delete.{Disk}
use sylo.Retention.Run.{RetentionSummary}
use sylo.Retention.Kept.{month_files}
use sylo.Retention.Main.{Round, run_periodically}
use sylo.Retention.Loop.{any_stop, run_periodically-month_files}
use sylo.Tests.Searching.{month, db, index, first_row, second_row}

abbrev first_db : MonthDb
first_db = record { messages = first_row ∷ []; messages_fts = [] }

abbrev first_index : Dict MonthDb
first_index = (month, first_db) ∷ []

-- `int` for the texts of this example.
abbrev read : ℕ → Text → ℕ
read n [] = n
read n (c ∷ cs) = read (n * 10 + (c - 48)) cs

abbrev parse_int : Text → Option ℤ
parse_int cs = some (pos (read 0 cs))

abbrev no_index_lock : Text → Bool
no_index_lock name = false

abbrev no_raw_lock : Text → Text → Bool
no_raw_lock device name = false

abbrev settings : AppDb
settings = record {
  users = [];
  sessions = [];
  settings = (codes "retention_days", codes "30") ∷ [];
}

abbrev july : Date
july = record { year = 2024; month = 7; day = 15 }

abbrev disk : Disk
disk = record {
  index_dir =
      some (codes "2024-05.sqlite3" ∷ codes "2024-06.sqlite3" ∷ codes "2024-07.sqlite3" ∷ []);
  data_dir = some (
      (codes "10.0.0.9", some (codes "2024-05-06.log" ∷ codes "2024-06-20.log" ∷ []))
      ∷ (codes "notes.txt", none)
      ∷ []);
}

-- Two rounds: the configuration does not load in the second, within whose wait the stop comes.
abbrev rounds : List Round
rounds =
    record {
      loads = true;
      run_interval_seconds = 86400;
      db = settings;
      today = july;
      index_locked = no_index_lock;
      raw_locked = no_raw_lock;
      meanwhile = λ d. d;
      stop_set = false;
    }
    ∷ record {
      loads = false;
      run_interval_seconds = 86400;
      db = settings;
      today = july;
      index_locked = no_index_lock;
      raw_locked = no_raw_lock;
      meanwhile = λ d. d;
      stop_set = true;
    }
    ∷ []

run_periodically-month_files_example :
    ((run_periodically parse_int rounds disk).ended ≡ any_stop rounds)
    × (month_files (codes "2024-06") (run_periodically parse_int rounds disk).disk
        ≡ month_files (codes "2024-06") disk)
unfolding get_setting init_db text_eq split_dash month_end cutoff date ordinal is_leap plain_days
    days_in_month days_of_months days_before_year
run_periodically-month_files_example =
    run_periodically-month_files parse_int (codes "2024-06") rounds disk (
      (pos 30, 739052, refl, refl, inr (739067, refl, omega arith)),
      λ d. refl,
      ((pos 30, 739052, refl, refl, inr (739067, refl, omega arith)), λ d. refl, tt),
    )

month_end-covers_example : 739032 ≤ 739037
unfolding text_eq split_dash month_end date ordinal is_leap plain_days days_in_month days_of_months
    days_before_year
month_end-covers_example =
    month_end-covers parse_int (codes "2024-05") (codes "2024") (codes "05") 2024 5 26 739037
      (record { year = 2024; month = 5; day = 26 }) refl refl refl refl refl

tail_generator_complete_example :
    (tail_generator fresh
      ((first_index, month) ∷ (index, month) ∷ [] ++ repeat 1 (index, month))).sent
    ≡ record { id = 2; row = second_row } ∷ []
unfolding number_from get text_eq
tail_generator_complete_example =
    tail_generator_complete month first_db db first_index index 1 ((index, month) ∷ []) refl
      (poll (first_row ∷ []) (second_row ∷ []) index db [] db.messages refl refl (done db.messages))
      refl (omega arith)

abbrev may_dropped : RetentionSummary
may_dropped = record {
  dropped_months = codes "2024-05" ∷ [];
  index_files_deleted = 1;
  raw_files_deleted = 1;
}
