-- ===== src/Receiver/Main.antt =====
-- sylo/receiver/main.py: the attempts to start, the heartbeat, and a run from the first attempt to the
-- shutdown. What a round of a loop meets is an argument: whether the stop event is set, the times,
-- and what the operating system refuses. A clean-up that raises is logged, and ends nothing.
use sylo.Base.{ℕ, Bool, List, [], ◌∷◌, Option, none, some, if◌then◌else◌}
use sylo.Text.{Text}
use sylo.Health.{ReceiverHealth, StatusFile, new_health, mark_running, mark_failed}
use sylo.Receiver.{SyslogServer, StopError, Surroundings, new_server, start_server}

-- One round of the loop in `_start_with_retry`: whether the stop event is set at its top, what the
-- start finds, when the status is written, and whether it can be, and the exception of the clean-up.
pub record StartRound : Type 0 where
  pub stop_set : Bool
  pub around : Surroundings
  pub now : ℕ
  pub written : ℕ
  pub ok : Bool
  pub stop_error : Option StopError

-- What the loop comes to: it returns the server, or `None`, or it sleeps before the next round.
pub data Started : Type 0 where
  serving : SyslogServer → Started
  told_to_stop : Started
  sleeping : Started

-- The status, the servers that were cleaned up, and the outcome.
pub record Starting : Type 0 where
  pub health : ReceiverHealth
  pub cleaned_up : List SyslogServer
  pub outcome : Started

-- One round of `_heartbeat_loop` whose sleep is over: whether the stop event is set then.
pub record Beat : Type 0 where
  pub stop_set : Bool
  pub now : ℕ
  pub ok : Bool

unfoldable pub heartbeat_loop : List Beat → ReceiverHealth → ReceiverHealth
heartbeat_loop [] health = health
heartbeat_loop (b ∷ beats) health =
    let rest = heartbeat_loop beats (mark_running health b.now b.ok) in
    if b.stop_set then health else rest

-- What a clean-up leaves of a server, with its exception or without one.
module _ (clean_up : Option StopError → SyslogServer → SyslogServer) where
  abbrev pub add_cleaned : Option StopError → SyslogServer → Starting → Starting
  add_cleaned error server r = record r { cleaned_up = clean_up error server ∷ r.cleaned_up }

  -- After `server.start()`: its end, or its exception, on which the rest of the rounds follows.
  abbrev pub after_start :
      (ReceiverHealth → Starting)
      → ReceiverHealth
      → StartRound
      → SyslogServer × Option Text
      → Starting
  after_start rest health r (server, none) = record {
    health = mark_running health r.now r.ok;
    cleaned_up = [];
    outcome = serving server;
  }
  after_start rest health r (server, some error) =
      add_cleaned r.stop_error server (rest (mark_failed health error r.now r.written r.ok))

  -- `_start_with_retry`, through some rounds.
  unfoldable pub start_with_retry : List StartRound → ReceiverHealth → Starting
  start_with_retry [] health = record { health = health; cleaned_up = []; outcome = sleeping }
  start_with_retry (r ∷ rounds) health =
      let next =
        after_start (start_with_retry rounds) health r (start_server r.around new_server) in
      if r.stop_set
      then record { health = health; cleaned_up = []; outcome = told_to_stop }
      else next

  -- `run`: what the event loop does with the server until the stop event is set is `served`, and
  -- `error` the exception of the last stop.
  abbrev pub finish :
      (SyslogServer → SyslogServer)
      → Option StopError
      → List Beat
      → ReceiverHealth
      → Started
      → ReceiverHealth × Option SyslogServer
  finish served error beats health (serving server) =
      (heartbeat_loop beats health, some (clean_up error (served server)))
  finish served error beats health told_to_stop = (health, none)
  finish served error beats health sleeping = (health, none)

  unfoldable pub run_until_stop :
      (SyslogServer → SyslogServer)
      → Option StopError
      → List StartRound
      → List Beat
      → StatusFile
      → ReceiverHealth × Option SyslogServer
  run_until_stop served error rounds beats file =
      let starting = start_with_retry rounds (new_health file) in
      finish served error beats starting.health starting.outcome
