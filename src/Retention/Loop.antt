-- ===== src/Retention/Loop.antt =====
-- What the loop of sylo/retention/main.py does in the long run.
use sylo.Base.{
  ℕ, ◌≡◌, refl, ◌∙◌, Bool, true, false, ◌||◌, List, [], ◌∷◌, Option, some, if◌then◌else◌, if_elim,
}
use sylo.Text.{Text}
use sylo.Retention.{ℤ, key_of, cutoff}
use sylo.Retention.Delete.{Disk}
use sylo.Retention.Run.{RetentionSummary, retention_days}
use sylo.Retention.Expired.{IsLive}
use sylo.Retention.Kept.{month_files}
use sylo.Retention.Pass.{run_retention-month_files}
use sylo.Retention.Main.{Round, Looping, pass, run_periodically}

-- Some round's stop event is set.
abbrev pub any_stop : List Round → Bool
any_stop [] = false
any_stop (r ∷ rounds) = r.stop_set || any_stop rounds

module _ (parse_int : Text → Option ℤ) (key : Text) where
  -- The setting reads as days before which the month does not lie, or the month is the current one.
  abbrev pub KeepsMonth : Round → Type 0
  KeepsMonth r =
      (days : ℤ) × (limit : ℕ) × (retention_days parse_int r.db ≡ some days)
      × (cutoff r.today days ≡ some limit)
      × IsLive parse_int limit (key_of r.today) key

  -- In every round, and no other process changes the files of the month.
  abbrev pub AllKeep : List Round → Type 0
  AllKeep [] = Unit
  AllKeep (r ∷ rounds) =
      KeepsMonth r
      × ((disk : Disk) → month_files key (r.meanwhile disk) ≡ month_files key disk)
      × AllKeep rounds

  pass-month_files :
      (r : Round) (disk : Disk)
      → KeepsMonth r
      → month_files key (pass parse_int r disk).0 ≡ month_files key disk
  unfolding pass
  pass-month_files r disk (days, limit, set, cut, live) =
      if_elim (λ (o : Disk × Option RetentionSummary). month_files key o.0 ≡ month_files key disk)
        r.loads
        (run_retention-month_files parse_int r.index_locked r.raw_locked r.today key r.db disk days
          limit set cut live)
        refl

  -- However often the loop passes, whatever fails in a pass, and whatever it deletes, it ends only on
  -- a stop; and it leaves the files of a month as they were that in every round is the current month
  -- or has a last day not before that day less the days of the setting, if no other process changes
  -- them.
  pub run_periodically-month_files :
      (rounds : List Round) (disk : Disk)
      → AllKeep rounds
      → ((run_periodically parse_int rounds disk).ended ≡ any_stop rounds)
        × (month_files key (run_periodically parse_int rounds disk).disk ≡ month_files key disk)
  unfolding run_periodically
  run_periodically-month_files [] disk h = (refl, refl)
  run_periodically-month_files (r ∷ rounds) disk (keeps, others, h) =
      let kept : month_files key after ≡ month_files key disk =
        pass-month_files r (r.meanwhile disk) keeps ∙ others disk in
      let rest = run_periodically-month_files rounds after h in
      by_stop r.stop_set (rest.0, rest.1 ∙ kept) kept
    where
      after : Disk
      after = (pass parse_int r (r.meanwhile disk)).0

      by_stop :
          (stop : Bool)
          → ((run_periodically parse_int rounds after).ended ≡ any_stop rounds)
            × (month_files key (run_periodically parse_int rounds after).disk
                ≡ month_files key disk)
          → month_files key after ≡ month_files key disk
          → let looping : Looping =
              if stop
              then record { disk = after; waits = []; ended = true }
              else run_periodically parse_int rounds after in
            (looping.ended ≡ (stop || any_stop rounds))
            × (month_files key looping.disk ≡ month_files key disk)
      by_stop true later kept = (refl, kept)
      by_stop false later kept = later
