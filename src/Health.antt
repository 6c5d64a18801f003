-- ===== src/Health.antt =====
-- sylo/receiver/health.py, which writes the receiver's status file, and sylo/webapp/receiver_health.py,
-- which reads it in another process. A point in time is its number of microseconds; the ISO text of one
-- is read back as that one. The rename makes a write one step: a reader meets the old file or the new.
pub mod Since
use sylo.Base.{
  ℕ, suc, ◌+◌, ◌*◌, Bool, true, false, not, [], ◌∷◌, ◌++◌, Option, none, some, ltb, if◌then◌else◌,
}
use sylo.Text.{Text, text_eq, codes}

-- The object that `_write` dumps.
pub record Status : Type 0 where
  pub state : Text
  pub updated_at : ℕ
  pub error : Option Text
  pub error_since : Option ℕ

-- The file as a reader finds it: absent, no JSON object with a time in `updated_at`, or a status.
pub data StatusFile : Type 0 where
  missing : StatusFile
  malformed : StatusFile
  holds : Status → StatusFile

-- The object, with the file at its path.
pub record ReceiverHealth : Type 0 where
  pub error_since : Option ℕ
  pub last_error : Option Text
  pub file : StatusFile

unfoldable pub new_health : StatusFile → ReceiverHealth
new_health file = record { error_since = none; last_error = none; file = file }

-- `_write`, at the time `now`; a refused write leaves the file.
unfoldable pub write_status : ReceiverHealth → Text → Option Text → ℕ → Bool → ReceiverHealth
write_status h state error now ok =
    let status : Status = record {
      state = state;
      updated_at = now;
      error = error;
      error_since = h.error_since;
    } in
    if ok then record h { file = holds status } else h

unfoldable pub mark_running : ReceiverHealth → ℕ → Bool → ReceiverHealth
mark_running h now ok =
    write_status (record h { error_since = none; last_error = none }) (codes "running") none now ok

-- `error == self._last_error`.
abbrev pub is_last : Option Text → Text → Bool
is_last none error = false
is_last (some last) error = text_eq error last

-- At the time `now`; the status is written at `written`.
unfoldable pub mark_failed : ReceiverHealth → Text → ℕ → ℕ → Bool → ReceiverHealth
mark_failed h error now written ok =
    let h' =
      if not (is_last h.last_error error)
      then record h { last_error = some error; error_since = some now }
      else h in
    write_status h' (codes "error") (some error) written ok

pub record ReceiverHealthStatus : Type 0 where
  pub healthy : Bool
  pub reason : Option Text
  pub since : Option ℕ

abbrev pub unhealthy : Text → Option ℕ → ReceiverHealthStatus
unhealthy reason since = record { healthy = false; reason = some reason; since = since }

abbrev pub stale_after : ℕ
stale_after = 60 * 1000000

-- `error or "unknown error"`: no text, and the empty one, are false.
abbrev pub or_unknown : Option Text → Text
or_unknown none = codes "unknown error"
or_unknown (some []) = codes "unknown error"
or_unknown (some (c ∷ cs)) = c ∷ cs

abbrev pub or_updated : Option ℕ → ℕ → ℕ
or_updated none updated_at = updated_at
or_updated (some since) updated_at = since

abbrev read_status : Status → ℕ → ReceiverHealthStatus
read_status s now =
    if ltb (s.updated_at + stale_after) now
    then unhealthy (codes "Recording appears to be down -- no update from the receiver")
        (some s.updated_at)
    else if text_eq s.state (codes "error")
    then unhealthy (codes "Recording is not active: " ++ or_unknown s.error)
        (some (or_updated s.error_since s.updated_at))
    else record { healthy = true; reason = none; since = none }

unfoldable pub read_receiver_health : StatusFile → ℕ → ReceiverHealthStatus
read_receiver_health missing now =
    unhealthy (codes "Recording status unknown -- the receiver has not reported in yet.") none
read_receiver_health malformed now =
    unhealthy (codes "Recording status unknown -- status file is malformed.") none
read_receiver_health (holds s) now = read_status s now
