-- ===== src/Tests/Running.antt =====
-- A receiver that cannot bind its port, then runs with two devices, and is stopped
-- (sylo/receiver/main.py, sylo/receiver/server.py, sylo/receiver/winservice.py).
use sylo.Base.{
  ℕ, ◌≡◌, refl, true, false, List, [], ◌∷◌, ◌++◌, map, Option, none, some, arith, length, inr, ltb,
}
use sylo.Text.{Text, codes, text_eq}
use sylo.Timeutil.{date_text}
use sylo.Envelope.{RawMessage, from_raw}
use sylo.Schema.{empty_db}
use sylo.Dict.{get, set}
use sylo.Health.{new_health, missing, unhealthy, read_receiver_health}
use sylo.Indexer.{Indexer, insert_rows, turn, step, receive, enqueue}
use sylo.Indexer.Room.{HasRoom}
use sylo.Indexer.Flush.{month_rows, rows_for}
use sylo.Indexer.Delivery.{delivered, admitted, admitted_all}
use sylo.Rebuild.{rebuild_file}
use sylo.Rebuild.Live.{live_row}
use sylo.DeviceWriter.{
  sanitize_device_key, path_for, run_writer, step_writer, turn_writer, receive_raw, enqueue_raw,
  flush_lines, write_days, write_day,
}
use sylo.Groups.{group_from}
use sylo.DeviceWriter.Delivered.{admitted_raw, admitted_raws}
use sylo.DeviceWriter.Registry.{
  DeviceRegistry, new_writer, made_for, get_or_create, deliver, writer_of,
}
use sylo.Receiver.{
  SyslogServer, StopError, in_wait_closed, listening, Surroundings, new_server, start_server,
  stop_server, stop_or_raise,
}
use sylo.Receiver.Main.{StartRound, serving, start_with_retry, heartbeat_loop, run_until_stop}
use sylo.Receiver.Shutdown.{arrivals, queued_in}
use sylo.Receiver.Retry.{
  cleaned, start_with_retry_recovers, read_receiver_health-start_with_retry, healthy_status,
}
use sylo.Receiver.Released.{failed_rounds, AllReleased, OptionReleased, run_until_stop-Released}
use sylo.Receiver.System.{
  ReceiverEvent, receives, writer_turns, indexer_turns, step_receiver, run_receiver, event_of,
  events_of, run_receiver-writer_of,
}
use sylo.Receiver.Taken.{taken}
use sylo.Receiver.Sent.{tag, messages_of, from_device, sent, sent_in, indexer_event, indexer_events}
use sylo.Receiver.Handed.{left_in, all_sent}
use sylo.Receiver.Indexed.{served, month_rows-served}
use sylo.Receiver.Lifetime.{day_file, admitted_of, rebuild_file-day_file}
use sylo.WinService.{svc_do_run, new_service}
use sylo.WinService.Lost.{svc_do_run-stop_event}
use sylo.Tests.Indexing.{message, message-IsPlain, indexer, all_rows, all_months, never_fails, may}
use sylo.Tests.Receiving.{writer, disk_ok}

abbrev device : Text
device = codes "10.0.0.9"

abbrev day : Text
day = codes "2024-05-06"

abbrev clock : Text → ℕ × ℕ
clock key = (5, 6)

disk_works : (p : Text) → disk_ok p ≡ true
disk_works p = refl

abbrev registry : DeviceRegistry
registry = record { config = writer.config; on_disk = λ key. []; writers = [] }

abbrev other_message : RawMessage
other_message = record message { source_ip = codes "10.0.0.8" }

abbrev events : List ReceiverEvent
events = receives other_message ∷ receives message ∷ indexer_turns ∷ writer_turns device 1 2 ∷ []

run_receiver-writer_of_example :
    writer_of (run_receiver all_rows all_months disk_ok (registry, some indexer) events).0 device
    ≡ (run_writer disk_ok (writer_of registry device, none) (events_of device events)).0
run_receiver-writer_of_example =
    run_receiver-writer_of all_rows all_months disk_ok events (registry, some indexer) device

rebuild_file-day_file_example :
    rebuild_file all_rows empty_db
      (day_file all_rows all_months disk_ok disk_works clock registry
        (some indexer)
        events
        device
        day)
      (sanitize_device_key device)
    ≡ insert_rows all_rows
        (empty_db, 0)
        (map (live_row (sanitize_device_key device)) (
          admitted_of all_rows all_months disk_ok disk_works clock registry
            (some indexer)
            events
            device
            day))
unfolding get text_eq path_for date_text admitted_raws admitted_raw events_of event_of new_writer
    step_writer turn_writer receive_raw enqueue_raw
rebuild_file-day_file_example =
    rebuild_file-day_file all_rows all_months disk_ok disk_works clock registry (some indexer)
      events device day all_rows empty_db refl refl (message-IsPlain, tt)

abbrev server : SyslogServer
server = record {
  indexer = some indexer;
  registry = some registry;
  udp_transport = listening;
  tcp_server = listening;
  executor_open = true;
}

-- The message of the other device is still in the queue of its writer at the stop.
has_room : HasRoom indexer (
    length (
      map from_raw
        (messages_of (all_sent all_rows all_months disk_ok (registry, some indexer) events))))
unfolding get set text_eq admitted_all admitted indexer_events indexer_event arrivals messages_of
    all_sent sent sent_in tag left_in queued_in run_receiver step_receiver deliver get_or_create
    new_writer taken turn_writer receive_raw enqueue_raw turn step receive enqueue flush_lines
    write_days group_from write_day
has_room = inr (omega arith)

month_rows-served_example :
    ((ix' : Indexer) × ((stop_server all_rows all_months disk_ok clock
          (served all_rows all_months disk_ok events server)).indexer
        ≡ some ix')
      × (month_rows ix'.index may
          ≡ delivered all_rows all_months never_fails indexer may
            ++ rows_for all_rows may (
                map from_raw (
                  messages_of
                    (all_sent all_rows all_months disk_ok (registry, some indexer) events)))))
    × (from_device device (all_sent all_rows all_months disk_ok (registry, some indexer) events)
        ≡ admitted_raws disk_ok disk_works
            (made_for registry device, none)
            (events_of device events))
month_rows-served_example =
    month_rows-served all_rows all_months disk_ok never_fails disk_works clock server registry
      indexer events may device refl refl refl has_room

abbrev free : Surroundings
free = record {
  indexer_config = indexer.config;
  config = writer.config;
  on_disk = λ key. [];
  index = [];
  udp_error = none;
  tcp_error = none;
}

abbrev blocked : Surroundings
blocked = record free { tcp_error = some (codes "port") }

abbrev failing_at : ℕ → StartRound
failing_at t = record {
  stop_set = false;
  around = blocked;
  now = t;
  written = t;
  ok = true;
  stop_error = none;
}

abbrev starts_at : ℕ → StartRound
starts_at t = record (failing_at t) { around = free }

abbrev clean_up : Option StopError → SyslogServer → SyslogServer
clean_up = stop_or_raise all_rows all_months disk_ok clock

start_with_retry_recovers_example :
    let result =
      start_with_retry clean_up
        ((failing_at 10 ∷ failing_at 40 ∷ []) ++ starts_at 70 ∷ [])
        (new_health missing) in
    (result.outcome ≡ serving (start_server free new_server).0)
    × ((start_server free new_server).0.udp_transport ≡ listening)
    × ((start_server free new_server).0.tcp_server ≡ listening)
    × (result.cleaned_up ≡ map (cleaned clean_up) (failing_at 10 ∷ failing_at 40 ∷ []))
    × (read_receiver_health
          (heartbeat_loop
            (record { stop_set = false; now = 80; ok = true } ∷ [])
            result.health).file
          85
        ≡ healthy_status)
unfolding start_server
start_with_retry_recovers_example =
    start_with_retry_recovers clean_up (failing_at 10 ∷ failing_at 40 ∷ []) (starts_at 70) []
      (record { stop_set = false; now = 80; ok = true } ∷ []) (new_health missing) 85
      ((refl, refl), ((refl, refl), tt)) refl refl (refl, tt) refl (omega arith)

read_receiver_health-start_with_retry_example :
    read_receiver_health
      (start_with_retry clean_up
        (failing_at 10 ∷ (failing_at 40 ∷ []) ++ failing_at 70 ∷ [])
        (new_health missing)).health.file
      90
    ≡ unhealthy (codes "Recording is not active: port") (some 10)
unfolding start_server new_health
read_receiver_health-start_with_retry_example =
    read_receiver_health-start_with_retry clean_up (new_health missing) b'p' (codes "ort")
      (failing_at 10) (failing_at 40 ∷ []) (failing_at 70) 90 refl
      ((refl, refl), ((refl, refl), ((refl, refl), tt))) refl (omega arith)

abbrev badly_failing : StartRound
badly_failing = record (failing_at 10) { stop_error = some in_wait_closed }

run_until_stop-Released_example :
    let cleaned_up =
      (start_with_retry clean_up
        (badly_failing ∷ starts_at 40 ∷ [])
        (new_health missing)).cleaned_up in
    (cleaned_up ≡ map (cleaned clean_up) (failed_rounds (badly_failing ∷ starts_at 40 ∷ [])))
    × AllReleased (failed_rounds (badly_failing ∷ starts_at 40 ∷ [])) cleaned_up
    × OptionReleased none
        (run_until_stop clean_up (λ s. s) none (badly_failing ∷ starts_at 40 ∷ []) [] missing).1
run_until_stop-Released_example =
    run_until_stop-Released all_rows all_months disk_ok clock (λ s. s) none
      (badly_failing ∷ starts_at 40 ∷ []) [] missing

svc_do_run-stop_event_example : (svc_do_run 0 1 0 new_service).stop_event ≡ some (ltb 0 0)
svc_do_run-stop_event_example = svc_do_run-stop_event 0 1 0
