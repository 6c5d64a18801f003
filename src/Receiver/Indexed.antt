-- ===== src/Receiver/Indexed.antt =====
-- From the arrival of a message at the receiver to its row in the index: the whole life of a receiver,
-- with all its devices, between start and stop.
use sylo.Base.{
  ℕ, ◌≡◌, refl, sym, ap, ◌∙◌, subst, Bool, true, List, [], ◌∷◌, ◌++◌, length, append_assoc, map,
  Option, none, some,
}
use sylo.Text.{Text}
use sylo.Envelope.{from_raw}
use sylo.Schema.{Row}
use sylo.Indexer.{Indexer, Event, run, step}
use sylo.Indexer.Room.{arrived, HasRoom, admitted_all-HasRoom}
use sylo.Indexer.Flush.{month_rows, rows_for, rows_for-append}
use sylo.Indexer.Delivery.{delivered, delivered-run, admitted, admitted_all}
use sylo.DeviceWriter.Delivered.{admitted_raws}
use sylo.DeviceWriter.Registry.{DeviceRegistry, made_for}
use sylo.Receiver.{SyslogServer, stop_server}
use sylo.Receiver.Shutdown.{arrivals, queued_in, month_rows-stop_server}
use sylo.Receiver.System.{ReceiverEvent, run_receiver, events_of}
use sylo.Receiver.Sent.{messages_of, from_device, sent, indexer_events, run_receiver-indexer}
use sylo.Receiver.Handed.{
  left_in, messages_of-left_in, arrived-append, arrived-arrivals, from_raw-messages_of, all_sent,
  all_sent-device, arrived-indexer_events,
}

module _ (accepts : Row → Bool) (batch_ok disk_ok : Text → Bool) where
  -- A server that has served some events.
  abbrev pub serve_found : List ReceiverEvent → SyslogServer → Option DeviceRegistry → SyslogServer
  serve_found es server none = server
  serve_found es server (some registry) = record server {
    registry = some (run_receiver accepts batch_ok disk_ok (registry, server.indexer) es).0;
    indexer = (run_receiver accepts batch_ok disk_ok (registry, server.indexer) es).1;
  }

  unfoldable pub served : List ReceiverEvent → SyslogServer → SyslogServer
  served es server = serve_found es server server.registry

  -- No batch fails as a whole.
  module _ (batches : (month : Text) → batch_ok month ≡ true) where
    admitted_all-append :
        (xs ys : List Event) (ix : Indexer)
        → admitted_all accepts batch_ok batches ix (xs ++ ys)
          ≡ admitted_all accepts batch_ok batches ix xs
            ++ admitted_all accepts batch_ok batches (run accepts batch_ok ix xs) ys
    unfolding admitted_all run
    admitted_all-append [] ys ix = refl
    admitted_all-append (x ∷ xs) ys ix =
        ap (λ es. admitted accepts batch_ok batches ix x ++ es)
          (admitted_all-append xs ys (step accepts batch_ok ix x))
        ∙ sym (append_assoc (admitted accepts batch_ok batches ix x) _ _)

    -- All that the indexer gets of some events and a stop.
    abbrev pub offered : DeviceRegistry × Option Indexer → List ReceiverEvent → List Event
    offered s es =
        indexer_events accepts batch_ok disk_ok s es
        ++ arrivals (queued_in (run_receiver accepts batch_ok disk_ok s es).0.writers)

    -- If no batch fails as a whole, the disk refuses no write, and the queue of the indexer has no limit
    -- or room for all that the writers hand over, then after any mix of messages from all devices and of turns of all tasks, and a
    -- stop, each month has, behind the rows that were written or still to be written, exactly the
    -- accepted rows of the messages that the writers hand over; and those of a device are the messages
    -- that its own queue admitted, once each and in order.
    pub month_rows-served :
        (writes : (path : Text) → disk_ok path ≡ true) (clock : Text → ℕ × ℕ)
        (server : SyslogServer) (registry : DeviceRegistry) (ix : Indexer) (es : List ReceiverEvent)
        (m key : Text)
        → server.registry ≡ some registry
        → server.indexer ≡ some ix
        → registry.writers ≡ []
        → HasRoom ix (
            length (
              map from_raw
                (messages_of (all_sent accepts batch_ok disk_ok (registry, some ix) es))))
        → ((ix' : Indexer) × ((stop_server accepts batch_ok disk_ok clock
                (served es server)).indexer
              ≡ some ix')
            × (month_rows ix'.index m
                ≡ delivered accepts batch_ok batches ix m
                  ++ rows_for accepts m (
                      map from_raw
                        (messages_of (all_sent accepts batch_ok disk_ok (registry, some ix) es)))))
          × (from_device key (all_sent accepts batch_ok disk_ok (registry, some ix) es)
              ≡ admitted_raws disk_ok writes (made_for registry key, none) (events_of key es))
    month_rows-served writes clock server registry ix es m key hr hi hw room =
        let (ix', stopped, rows) =
          month_rows-stop_server accepts batch_ok (served es server) after.0 ran is_served.0
            is_served.1 disk_ok clock batches m in
        (
          (ix', stopped, rows ∙ total),
          all_sent-device accepts batch_ok disk_ok writes es (registry, some ix) key hw,
        )
      where
        after : DeviceRegistry × Option Indexer
        after = run_receiver accepts batch_ok disk_ok (registry, some ix) es

        ran : Indexer
        ran =
            run accepts batch_ok ix (indexer_events accepts batch_ok disk_ok (registry, some ix) es)

        all_arrived :
            arrived (offered (registry, some ix) es)
            ≡ map from_raw (messages_of (all_sent accepts batch_ok disk_ok (registry, some ix) es))
        all_arrived =
            unfold all_sent in
            arrived-append (indexer_events accepts batch_ok disk_ok (registry, some ix) es)
              (arrivals (queued_in after.0.writers))
            ∙ ap (λ ms. ms ++ arrived (arrivals (queued_in after.0.writers)))
                (arrived-indexer_events accepts batch_ok disk_ok es (registry, some ix))
            ∙ ap
                (λ ms.
                  map from_raw (messages_of (sent accepts batch_ok disk_ok (registry, some ix) es))
                  ++ ms)
                (arrived-arrivals (queued_in after.0.writers)
                  ∙ ap (map from_raw) (sym (messages_of-left_in after.0.writers)))
            ∙ sym (
                from_raw-messages_of (sent accepts batch_ok disk_ok (registry, some ix) es)
                  (left_in after.0.writers))

        admits :
            admitted_all accepts batch_ok batches ix (offered (registry, some ix) es)
            ≡ map from_raw (messages_of (all_sent accepts batch_ok disk_ok (registry, some ix) es))
        admits =
            admitted_all-HasRoom accepts batch_ok batches (offered (registry, some ix) es) ix
              (subst (λ xs. HasRoom ix (length xs)) (sym all_arrived) room)
            ∙ all_arrived

        is_served :
            ((served es server).registry ≡ some after.0) × ((served es server).indexer ≡ some ran)
        is_served =
            unfold served in
            (
              ap (λ r. (serve_found es server r).registry) hr
                  ∙ ap (λ i. some (run_receiver accepts batch_ok disk_ok (registry, i) es).0) hi,
              ap (λ r. (serve_found es server r).indexer) hr
                  ∙ ap (λ i. (run_receiver accepts batch_ok disk_ok (registry, i) es).1) hi
                  ∙ run_receiver-indexer accepts batch_ok disk_ok es (registry, some ix) ix refl,
            )

        at_stop : List Event
        at_stop = arrivals (queued_in after.0.writers)

        total :
            delivered accepts batch_ok batches ran m
              ++ rows_for accepts m (admitted_all accepts batch_ok batches ran at_stop)
            ≡ delivered accepts batch_ok batches ix m
              ++ rows_for accepts m (
                  map from_raw
                    (messages_of (all_sent accepts batch_ok disk_ok (registry, some ix) es)))
        total =
            ap (λ rs. rs ++ rows_for accepts m (admitted_all accepts batch_ok batches ran at_stop))
              (delivered-run accepts batch_ok batches ix
                (indexer_events accepts batch_ok disk_ok (registry, some ix) es) m)
            ∙ append_assoc (delivered accepts batch_ok batches ix m) _ _
            ∙ ap (λ rs. delivered accepts batch_ok batches ix m ++ rs)
                (sym (rows_for-append accepts m _ _)
                  ∙ ap (rows_for accepts m) (
                      sym (
                        admitted_all-append
                          (indexer_events accepts batch_ok disk_ok (registry, some ix) es) at_stop
                          ix)
                      ∙ admits))
