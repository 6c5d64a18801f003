-- ===== src/Retention/Main.antt =====
-- The loop of sylo/retention/main.py. What a round meets is an argument: whether the configuration
-- loads, the settings, the day, the locked files, what other processes did to the files before it,
-- and whether the stop event is set within its wait.
use sylo.Base.{ℕ, Bool, true, false, List, [], ◌∷◌, Option, none, some, if◌then◌else◌}
use sylo.Text.{Text}
use sylo.AppDb.{AppDb}
use sylo.Retention.Calendar.{Date}
use sylo.Retention.{ℤ}
use sylo.Retention.Delete.{Disk}
use sylo.Retention.Run.{RetentionSummary, run_retention}

pub record Round : Type 0 where
  pub loads : Bool
  pub run_interval_seconds : ℕ
  pub db : AppDb
  pub today : Date
  pub index_locked : Text → Bool
  pub raw_locked : Text → Text → Bool
  pub meanwhile : Disk → Disk
  pub stop_set : Bool

-- The files, the waits so far, and whether the loop has ended.
pub record Looping : Type 0 where
  pub disk : Disk
  pub waits : List ℕ
  pub ended : Bool

abbrev pub setup_failure_retry_seconds : ℕ
setup_failure_retry_seconds = 60

-- `wait_seconds`, after a pass or its exception.
abbrev pub wait_seconds : Round → Option RetentionSummary → ℕ
wait_seconds r none = setup_failure_retry_seconds
wait_seconds r (some summary) = r.run_interval_seconds

abbrev pub add_wait : ℕ → Looping → Looping
add_wait seconds l = record l { waits = seconds ∷ l.waits }

module _ (parse_int : Text → Option ℤ) where
  -- The `try` of a round.
  unfoldable pub pass : Round → Disk → Disk × Option RetentionSummary
  pass r disk =
      if r.loads
      then (run_retention parse_int r.index_locked r.raw_locked r.db disk r.today).1
      else (disk, none)

  -- `run`, through some rounds.
  unfoldable pub run_periodically : List Round → Disk → Looping
  run_periodically [] disk = record { disk = disk; waits = []; ended = false }
  run_periodically (r ∷ rounds) disk =
      let (after, summary) = pass r (r.meanwhile disk) in
      let rest = run_periodically rounds after in
      add_wait (wait_seconds r summary)
        (if r.stop_set then record { disk = after; waits = []; ended = true } else rest)
