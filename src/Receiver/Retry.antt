-- ===== src/Receiver/Retry.antt =====
-- A receiver that cannot start, and then can (sylo/receiver/main.py), and what a page of the web
-- application shows of it.
use sylo.Base.{
  ℕ, ◌+◌, ◌≤◌, ◌≡◌, refl, ap, ◌∙◌, Bool, true, false, List, [], ◌∷◌, ◌++◌, map, append-nil, Option,
  none, some, arith, ltb,
}
use sylo.Text.{Text, text_eq, codes}
use sylo.Health.{
  ReceiverHealth, mark_running, mark_failed, write_status, read_receiver_health, unhealthy,
  stale_after, ReceiverHealthStatus, is_last,
}
use sylo.Health.Since.{Attempt, retries, read_receiver_health-retries}
use sylo.Receiver.{SyslogServer, StopError, listening, bind_udp, new_server, start_server}
use sylo.Receiver.Main.{
  StartRound, serving, Starting, add_cleaned, after_start, start_with_retry, Beat, heartbeat_loop,
}

-- The exception of an attempt.
abbrev pub start_error : StartRound → Option Text
start_error r = (start_server r.around new_server).1

abbrev pub or_empty_text : Option Text → Text
or_empty_text none = []
or_empty_text (some t) = t

-- No stop, and an exception.
abbrev pub FailsWith : Text → StartRound → Type 0
FailsWith error r = (r.stop_set ≡ false) × (start_error r ≡ some error)

abbrev pub AllFail : List StartRound → Type 0
AllFail [] = Unit
AllFail (r ∷ rs) = FailsWith (or_empty_text (start_error r)) r × AllFail rs

abbrev pub AllFailWith : Text → List StartRound → Type 0
AllFailWith error [] = Unit
AllFailWith error (r ∷ rs) = FailsWith error r × AllFailWith error rs

abbrev pub attempt : StartRound → Attempt
attempt r = (r.now, r.written, r.ok)

-- The status after rounds that fail.
unfoldable failed_all : ReceiverHealth → List StartRound → ReceiverHealth
failed_all health [] = health
failed_all health (r ∷ rs) =
    failed_all (mark_failed health (or_empty_text (start_error r)) r.now r.written r.ok) rs

retries-last :
    (e : Text) (rs : List StartRound) (r : StartRound) (g : ReceiverHealth)
    → retries g e (map attempt (rs ++ r ∷ []))
      ≡ mark_failed (retries g e (map attempt rs)) e r.now r.written r.ok
unfolding retries
retries-last e [] r g = refl
retries-last e (q ∷ rs) r g = retries-last e rs r (mark_failed g e q.now q.written q.ok)

-- The server of a round, cleaned up.
abbrev pub cleaned : (Option StopError → SyslogServer → SyslogServer) → StartRound → SyslogServer
cleaned clean_up r = clean_up r.stop_error (start_server r.around new_server).0

module _ (clean_up : Option StopError → SyslogServer → SyslogServer) where
  -- A round that fails.
  start_with_retry-fails :
      (r : StartRound) (error : Text) (rounds : List StartRound) (health : ReceiverHealth)
      → FailsWith error r
      → start_with_retry clean_up (r ∷ rounds) health
        ≡ add_cleaned clean_up r.stop_error
            (start_server r.around new_server).0
            (start_with_retry clean_up rounds (mark_failed health error r.now r.written r.ok))
  unfolding start_with_retry
  start_with_retry-fails r error rounds health (no_stop, failed) = rw no_stop (
      ap
        (λ o.
          after_start clean_up (start_with_retry clean_up rounds) health r
            ((start_server r.around new_server).0, o))
        failed)

  -- Rounds that fail, in front of others.
  after_failures :
      (failing rounds : List StartRound) (health : ReceiverHealth)
      → AllFail failing
      → let result = start_with_retry clean_up (failing ++ rounds) health in
        let later = start_with_retry clean_up rounds (failed_all health failing) in
        (result.outcome ≡ later.outcome)
        × (result.health ≡ later.health)
        × (result.cleaned_up ≡ map (cleaned clean_up) failing ++ later.cleaned_up)
  unfolding failed_all
  after_failures [] rounds health h = (refl, refl, refl)
  after_failures (r ∷ rs) rounds health h =
      let first =
        start_with_retry-fails r (or_empty_text (start_error r)) (rs ++ rounds) health h.0 in
      let later =
        after_failures rs rounds
          (mark_failed health (or_empty_text (start_error r)) r.now r.written r.ok) h.1 in
      rw first (later.0, later.1, ap (◌∷◌ (cleaned clean_up r)) later.2)

  health_failing :
      (e : Text) (rs : List StartRound) (health : ReceiverHealth)
      → AllFailWith e rs
      → (start_with_retry clean_up rs health).health ≡ retries health e (map attempt rs)
  unfolding retries
  health_failing e [] health h = unfold start_with_retry in refl
  health_failing e (r ∷ rs) health h =
      ap (λ (s : Starting). s.health) (start_with_retry-fails r e rs health h.0)
      ∙ health_failing e rs (mark_failed health e r.now r.written r.ok) h.1

  -- A receiver that fails to start with an error that has a text and is not its last one, and goes on
  -- failing with it in every round, is shown, until a minute after the last status, if that could be
  -- written, as failing with that error since the first of these rounds.
  pub read_receiver_health-start_with_retry :
      (health : ReceiverHealth) (c : ℕ) (cs : Text) (first : StartRound) (more : List StartRound)
      (last : StartRound) (at : ℕ)
      → is_last health.last_error (c ∷ cs) ≡ false
      → AllFailWith (c ∷ cs) (first ∷ more ++ last ∷ [])
      → last.ok ≡ true
      → at ≤ last.written + stale_after
      → read_receiver_health
          (start_with_retry clean_up (first ∷ more ++ last ∷ []) health).health.file
          at
        ≡ unhealthy (codes "Recording is not active: " ++ c ∷ cs) (some first.now)
  read_receiver_health-start_with_retry health c cs first more last at k h ok l =
      ap (λ g. read_receiver_health g.file at)
        (health_failing (c ∷ cs) (first ∷ more ++ last ∷ []) health h
          ∙ retries-last (c ∷ cs) (first ∷ more) last health
          ∙ ap
              (mark_failed (retries health (c ∷ cs) (map attempt (first ∷ more))) (c ∷ cs) last.now
                last.written)
              ok)
      ∙ read_receiver_health-retries health c cs (attempt first) (map attempt more) last.now
          last.written at k l

abbrev pub healthy_status : ReceiverHealthStatus
healthy_status = record { healthy = true; reason = none; since = none }

-- A status that says that the receiver runs.
mark_running-healthy :
    (health : ReceiverHealth) (now at : ℕ)
    → at ≤ now + stale_after
    → read_receiver_health (mark_running health now true).file at ≡ healthy_status
unfolding mark_running write_status read_receiver_health text_eq
mark_running-healthy health now at h = rw fresh refl
  where
    fresh : ltb (now + stale_after) at ≡ false
    fresh = ground arith

-- Heartbeats without a stop.
abbrev pub NoStop : List Beat → Type 0
NoStop [] = Unit
NoStop (b ∷ beats) = (b.stop_set ≡ false) × NoStop beats

-- When the last status was written behind one, and whether it could be.
abbrev pub last_mark : ℕ × Bool → List Beat → ℕ × Bool
last_mark mark [] = mark
last_mark mark (b ∷ beats) = last_mark (b.now, b.ok) beats

heartbeat_loop-healthy :
    (beats : List Beat) (health : ReceiverHealth) (now : ℕ) (ok : Bool) (at : ℕ)
    → NoStop beats
    → (last_mark (now, ok) beats).1 ≡ true
    → at ≤ (last_mark (now, ok) beats).0 + stale_after
    → read_receiver_health (heartbeat_loop beats (mark_running health now ok)).file at
      ≡ healthy_status
unfolding heartbeat_loop
heartbeat_loop-healthy [] health now ok at h k l =
    ap (λ o. read_receiver_health (mark_running health now o).file at) k
    ∙ mark_running-healthy health now at l
heartbeat_loop-healthy (b ∷ beats) health now ok at h k l =
    rw h.0 (heartbeat_loop-healthy beats (mark_running health now ok) b.now b.ok at h.1 k l)

-- A start without an exception listens on both sockets.
bind_udp-listening :
    (s : SyslogServer) (udp_error tcp_error : Option Text)
    → (bind_udp s udp_error tcp_error).1 ≡ none
    → ((bind_udp s udp_error tcp_error).0.udp_transport ≡ listening)
      × ((bind_udp s udp_error tcp_error).0.tcp_server ≡ listening)
bind_udp-listening s none none h = (refl, refl)
bind_udp-listening s none (some e) h = cc
bind_udp-listening s (some e) tcp_error h = cc

-- After any number of failed rounds, with whatever errors, the first round that starts returns its
-- server, listening on both sockets, the servers that have been cleaned up are those of the failed
-- rounds, each as its start left it, in order, and no other, and after any heartbeats without a stop the page shows the receiver as healthy until a minute after the last status, if that
-- could be written.
pub start_with_retry_recovers :
    (clean_up : Option StopError → SyslogServer → SyslogServer) (failing : List StartRound)
    (r : StartRound) (rounds : List StartRound) (beats : List Beat) (health : ReceiverHealth)
    (at : ℕ)
    → AllFail failing
    → r.stop_set ≡ false
    → start_error r ≡ none
    → NoStop beats
    → (last_mark (r.now, r.ok) beats).1 ≡ true
    → at ≤ (last_mark (r.now, r.ok) beats).0 + stale_after
    → let result = start_with_retry clean_up (failing ++ r ∷ rounds) health in
      (result.outcome ≡ serving (start_server r.around new_server).0)
      × ((start_server r.around new_server).0.udp_transport ≡ listening)
      × ((start_server r.around new_server).0.tcp_server ≡ listening)
      × (result.cleaned_up ≡ map (cleaned clean_up) failing)
      × (read_receiver_health (heartbeat_loop beats result.health).file at ≡ healthy_status)
start_with_retry_recovers clean_up failing r rounds beats health at h no_stop started k l m = (
  later.0 ∙ ap (λ (s : Starting). s.outcome) now_started,
  bound.0,
  bound.1,
  later.2
      ∙ ap (λ (s : Starting). map (cleaned clean_up) failing ++ s.cleaned_up) now_started
      ∙ append-nil (map (cleaned clean_up) failing),
  ap (λ g. read_receiver_health (heartbeat_loop beats g).file at)
        (later.1 ∙ ap (λ (s : Starting). s.health) now_started)
      ∙ heartbeat_loop-healthy beats (failed_all health failing) r.now r.ok at k l m,
)
  where
    later :
        ((start_with_retry clean_up (failing ++ r ∷ rounds) health).outcome
          ≡ (start_with_retry clean_up (r ∷ rounds) (failed_all health failing)).outcome)
        × ((start_with_retry clean_up (failing ++ r ∷ rounds) health).health
            ≡ (start_with_retry clean_up (r ∷ rounds) (failed_all health failing)).health)
        × ((start_with_retry clean_up (failing ++ r ∷ rounds) health).cleaned_up
            ≡ map (cleaned clean_up) failing
              ++ (start_with_retry clean_up (r ∷ rounds) (failed_all health failing)).cleaned_up)
    later = after_failures clean_up failing (r ∷ rounds) health h

    now_started : start_with_retry clean_up (r ∷ rounds) (failed_all health failing) ≡ record {
      health = mark_running (failed_all health failing) r.now r.ok;
      cleaned_up = [];
      outcome = serving (start_server r.around new_server).0;
    }
    now_started =
        unfold start_with_retry in
        rw no_stop (
          ap
            (λ o.
              after_start clean_up (start_with_retry clean_up rounds) (failed_all health failing) r
                ((start_server r.around new_server).0, o))
            started)

    bound :
        ((start_server r.around new_server).0.udp_transport ≡ listening)
        × ((start_server r.around new_server).0.tcp_server ≡ listening)
    bound =
        unfold start_server in bind_udp-listening _ r.around.udp_error r.around.tcp_error started
