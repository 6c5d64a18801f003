-- ===== src/WinService.antt =====
-- sylo/receiver/winservice.py: the service's object between two threads. Requests to stop come on the
-- thread of the Service Control Manager, at any time from the construction of the object on; the other
-- thread runs `SvcDoRun`. A callback that is handed to the loop is run at once.
pub mod Lost
use sylo.Base.{ℕ, zero, suc, Bool, true, false, Option, none, some}

-- `_loop`: not there, open, or closed.
pub data EventLoop : Type 0 where
  no_loop : EventLoop
  open_loop : EventLoop
  closed_loop : EventLoop

-- The object: its loop, whether its stop event is set, if there is one, whether the event of
-- Windows that `__init__` makes is set, and whether a stop was reported as pending.
pub record Service : Type 0 where
  pub loop : EventLoop
  pub stop_event : Option Bool
  pub wait_stop : Bool
  pub stop_pending : Bool

abbrev pub new_service : Service
new_service = record { loop = no_loop; stop_event = none; wait_stop = false; stop_pending = false }

-- `SvcStop`: on a closed loop `call_soon_threadsafe` raises.
abbrev pub signal_stop : Service → EventLoop → Option Bool → Service
signal_stop s no_loop event = record s { wait_stop = true }
signal_stop s open_loop none = record s { wait_stop = true }
signal_stop s closed_loop none = record s { wait_stop = true }
signal_stop s open_loop (some b) = record s { stop_event = some true; wait_stop = true }
signal_stop s closed_loop (some b) = s

unfoldable pub svc_stop : Service → Service
svc_stop s = signal_stop (record s { stop_pending = true }) s.loop s.stop_event

-- So many requests, one after another.
unfoldable pub requests : ℕ → Service → Service
requests zero s = s
requests (suc n) s = requests n (svc_stop s)

-- `SvcDoRun` up to the end of `run`, with the requests that come before it has made its loop, before
-- it has made its stop event, and then.
unfoldable pub svc_do_run : ℕ → ℕ → ℕ → Service → Service
svc_do_run early later during s =
    let with_loop = record (requests early s) { loop = open_loop } in
    let with_event = record (requests later with_loop) { stop_event = some false } in
    requests during with_event
