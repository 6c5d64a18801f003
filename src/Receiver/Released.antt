-- ===== src/Receiver/Released.antt =====
-- What a clean-up of sylo/receiver/server.py releases, and a run of sylo/receiver/main.py with it.
use sylo.Base.{
  ℕ, ◌≡◌, refl, ap, Bool, true, false, List, [], ◌∷◌, map, Option, none, some, if◌then◌else◌,
}
use sylo.Text.{Text}
use sylo.Schema.{Row}
use sylo.Health.{ReceiverHealth, StatusFile, mark_failed, new_health}
use sylo.Receiver.{
  SyslogServer, StopError, in_wait_closed, in_stop_all, in_indexer_stop, Endpoint, absent,
  listening, closed, close, new_server, start_server, stop_server, stop_raising, stop_or_raise,
}
use sylo.Receiver.Main.{
  StartRound, Started, serving, told_to_stop, sleeping, after_start, start_with_retry, Beat, finish,
  run_until_stop,
}
use sylo.Receiver.Retry.{start_error, cleaned}

abbrev pub is_listening : Endpoint → Bool
is_listening absent = false
is_listening listening = true
is_listening closed = false

-- The executor is shut by a stop that raises nothing.
abbrev pub ExecutorShut : Option StopError → SyslogServer → Type 0
ExecutorShut none s = s.executor_open ≡ false
ExecutorShut (some error) s = Unit

-- No socket listens, and the executor is shut, if the stop did not raise.
pub record IsReleased (error : Option StopError) (s : SyslogServer) : Type 0 where
  pub udp : is_listening s.udp_transport ≡ false
  pub tcp : is_listening s.tcp_server ≡ false
  pub executor : ExecutorShut error s

-- Each round, with its server as the clean-up left it.
abbrev pub AllReleased : List StartRound → List SyslogServer → Type 0
AllReleased [] [] = Unit
AllReleased [] (s ∷ ss) = ⊥
AllReleased (r ∷ rs) [] = ⊥
AllReleased (r ∷ rs) (s ∷ ss) = IsReleased r.stop_error s × AllReleased rs ss

abbrev pub OptionReleased : Option StopError → Option SyslogServer → Type 0
OptionReleased error none = Unit
OptionReleased error (some s) = IsReleased error s

-- The rounds whose start raises, up to a stop or to a start that does not raise.
abbrev pub next_failed : StartRound → Option Text → List StartRound → List StartRound
next_failed r none rest = []
next_failed r (some error) rest = r ∷ rest

unfoldable pub failed_rounds : List StartRound → List StartRound
failed_rounds [] = []
failed_rounds (r ∷ rs) =
    let rest = failed_rounds rs in if r.stop_set then [] else next_failed r (start_error r) rest

close_quiet : (e : Endpoint) → is_listening (close e) ≡ false
close_quiet absent = refl
close_quiet listening = refl
close_quiet closed = refl

module _ (accepts : Row → Bool) (batch_ok disk_ok : Text → Bool) (clock : Text → ℕ × ℕ) where
  abbrev stopping : Option StopError → SyslogServer → SyslogServer
  stopping = stop_or_raise accepts batch_ok disk_ok clock

  stopping-IsReleased :
      (error : Option StopError) (s : SyslogServer) → IsReleased error (stopping error s)
  unfolding stop_server stop_raising
  stopping-IsReleased none s = record {
    udp = close_quiet s.udp_transport;
    tcp = close_quiet s.tcp_server;
    executor = refl;
  }
  stopping-IsReleased (some in_wait_closed) s = record {
    udp = close_quiet s.udp_transport;
    tcp = close_quiet s.tcp_server;
    executor = tt;
  }
  stopping-IsReleased (some (in_stop_all registry indexer)) s = record {
    udp = close_quiet s.udp_transport;
    tcp = close_quiet s.tcp_server;
    executor = tt;
  }
  stopping-IsReleased (some (in_indexer_stop indexer)) s = record {
    udp = close_quiet s.udp_transport;
    tcp = close_quiet s.tcp_server;
    executor = tt;
  }

  -- However the rounds go, the failed ones, and no others, are cleaned up.
  start_with_retry_cleans :
      (rounds : List StartRound) (health : ReceiverHealth)
      → (start_with_retry stopping rounds health).cleaned_up
        ≡ map (cleaned stopping) (failed_rounds rounds)
  unfolding start_with_retry failed_rounds
  start_with_retry_cleans [] health = refl
  start_with_retry_cleans (r ∷ rounds) health =
      by_stop r.stop_set (λ h. start_with_retry_cleans rounds h)
    where
      by_end :
          (error : Option Text)
          → ((h : ReceiverHealth)
              → (start_with_retry stopping rounds h).cleaned_up
                ≡ map (cleaned stopping) (failed_rounds rounds))
          → (after_start stopping
              (start_with_retry stopping rounds)
              health
              r
              ((start_server r.around new_server).0, error)).cleaned_up
            ≡ map (cleaned stopping) (next_failed r error (failed_rounds rounds))
      by_end none later = refl
      by_end (some e) later =
          ap (◌∷◌ (cleaned stopping r)) (later (mark_failed health e r.now r.written r.ok))

      by_stop :
          (b : Bool)
          → ((h : ReceiverHealth)
              → (start_with_retry stopping rounds h).cleaned_up
                ≡ map (cleaned stopping) (failed_rounds rounds))
          → (if b
              then record { health = health; cleaned_up = []; outcome = told_to_stop }
              else after_start stopping
                  (start_with_retry stopping rounds)
                  health
                  r
                  (start_server r.around new_server)).cleaned_up
            ≡ map
                (cleaned stopping)
                (if b then [] else next_failed r (start_error r) (failed_rounds rounds))
      by_stop true later = refl
      by_stop false later = by_end (start_error r) later

  cleaned-AllReleased : (rs : List StartRound) → AllReleased rs (map (cleaned stopping) rs)
  cleaned-AllReleased [] = tt
  cleaned-AllReleased (r ∷ rs) = (
    stopping-IsReleased r.stop_error (start_server r.around new_server).0,
    cleaned-AllReleased rs,
  )

  -- However the attempts to start go, whatever the server does, and whenever the stop comes, the
  -- servers that are cleaned up are those of all the failed rounds, each as its start left it; and
  -- neither one of them nor the one that served is left with a socket that listens, even where its
  -- clean-up raises, nor with an open executor, where its clean-up does not raise.
  pub run_until_stop-Released :
      (served : SyslogServer → SyslogServer) (error : Option StopError) (rounds : List StartRound)
      (beats : List Beat) (file : StatusFile)
      → let cleaned_up = (start_with_retry stopping rounds (new_health file)).cleaned_up in
        (cleaned_up ≡ map (cleaned stopping) (failed_rounds rounds))
        × AllReleased (failed_rounds rounds) cleaned_up
        × OptionReleased error (run_until_stop stopping served error rounds beats file).1
  unfolding run_until_stop
  run_until_stop-Released served error rounds beats file = (
    start_with_retry_cleans rounds (new_health file),
    rw (start_with_retry_cleans rounds (new_health file))
        (cleaned-AllReleased (failed_rounds rounds)),
    by_outcome (start_with_retry stopping rounds (new_health file)).outcome,
  )
    where
      by_outcome :
          (o : Started)
          → OptionReleased error
              (finish stopping served error beats
                (start_with_retry stopping rounds (new_health file)).health
                o).1
      by_outcome (serving s) = stopping-IsReleased error (served s)
      by_outcome told_to_stop = tt
      by_outcome sleeping = tt
