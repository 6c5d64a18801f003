-- ===== src/Receiver/Handed.antt =====
-- What the writers of a receiver hand to the indexer in all, at a stop too, and what arrives there.
use sylo.Base.{
  ◌≡◌, refl, sym, ap, ◌∙◌, ◌⊎◌, subst, inl, inr, Bool-cases, Bool, true, false, List, [], ◌∷◌, ◌++◌,
  append-nil, map, Option, none, some, if◌then◌else◌,
}
use sylo.Text.{Text, text_eq, text_eq_iff}
use sylo.Envelope.{RawMessage, from_raw}
use sylo.Schema.{Row}
use sylo.Dict.{Dict, get, set}
use sylo.Groups.{Distinct, Distinct-set}
use sylo.Indexer.{Indexer, Event, arrives, turns, stops}
use sylo.Indexer.Room.{arrived}
use sylo.DeviceWriter.{DeviceWriter, enqueue_raw, turn_writer}
use sylo.DeviceWriter.Delivered.{admitted_raws, map-append}
use sylo.DeviceWriter.Registry.{
  DeviceRegistry, new_writer, made_for, found_or_made, get_or_create, put_writer, deliver,
  writer_of,
}
use sylo.Receiver.Shutdown.{arrivals, queued_in}
use sylo.Receiver.System.{
  ReceiverEvent, receives, writer_turns, indexer_turns, turn_found, step_receiver, run_receiver,
  events_of, run_receiver-writer_of,
}
use sylo.Receiver.Taken.{taken_all, taken_all-admitted}
use sylo.Receiver.Sent.{
  Tagged, sent_in, sent_found, indexer_event, tag, messages_of, messages_of-append, messages_of-tag,
  from_device, from_device-append, from_device-tag, sent, indexer_events, sent-device,
}

-- What the writers have left at a stop.
unfoldable pub left_in : Dict DeviceWriter → List Tagged
left_in [] = []
left_in ((key, w) ∷ ws) = tag key w.queue ++ left_in ws

pub messages_of-left_in : (ws : Dict DeviceWriter) → messages_of (left_in ws) ≡ queued_in ws
unfolding left_in queued_in
messages_of-left_in [] = unfold messages_of in refl
messages_of-left_in ((key, w) ∷ ws) =
    messages_of-append (tag key w.queue) (left_in ws)
    ∙ ap (λ ms. ms ++ messages_of (left_in ws)) (messages_of-tag key w.queue)
    ∙ ap (λ ms. w.queue ++ ms) (messages_of-left_in ws)

abbrev queue_of : Option DeviceWriter → List RawMessage
queue_of none = []
queue_of (some w) = w.queue

left_in-device :
    (key : Text) (ws : Dict DeviceWriter)
    → Distinct ws
    → from_device key (left_in ws) ≡ queue_of (get key ws)
unfolding left_in get
left_in-device key [] h = unfold from_device in refl
left_in-device key ((k, w) ∷ ws) h =
    from_device-append key (tag k w.queue) (left_in ws)
    ∙ ap (λ ms. ms ++ from_device key (left_in ws)) (from_device-tag key k w.queue)
    ∙ ap (λ ms. (if text_eq k key then w.queue else []) ++ ms) (left_in-device key ws h.1)
    ∙ by_key (Bool-cases (text_eq k key))
  where
    by_key :
        ((text_eq k key ≡ true) ⊎ (text_eq k key ≡ false))
        → (if text_eq k key then w.queue else []) ++ queue_of (get key ws)
          ≡ queue_of (if text_eq k key then some w else get key ws)
    by_key (inl same) =
        let e : k ≡ key = (text_eq_iff k key).0 same in
        rw same
          (ap (λ o. w.queue ++ queue_of o) (ap (λ j. get j ws) (sym e) ∙ h.0) ∙ append-nil w.queue)
    by_key (inr other) = rw other refl

put_writer-Distinct :
    (registry : DeviceRegistry) (key : Text) (m : RawMessage) (o : Option DeviceWriter)
    → Distinct registry.writers
    → Distinct (put_writer key m (found_or_made registry key o)).writers
put_writer-Distinct registry key m (some w) h =
    Distinct-set key (enqueue_raw w m) registry.writers h
put_writer-Distinct registry key m none h =
    Distinct-set key (enqueue_raw (made_for registry key) m)
      (set key (made_for registry key) registry.writers)
      (Distinct-set key (made_for registry key) registry.writers h)

pub arrived-append : (xs ys : List Event) → arrived (xs ++ ys) ≡ arrived xs ++ arrived ys
unfolding arrived
arrived-append [] ys = refl
arrived-append (arrives e ∷ xs) ys = ap (λ es. e ∷ es) (arrived-append xs ys)
arrived-append (turns ∷ xs) ys = arrived-append xs ys
arrived-append (stops ∷ xs) ys = arrived-append xs ys

pub arrived-arrivals : (ms : List RawMessage) → arrived (arrivals ms) ≡ map from_raw ms
unfolding arrived arrivals
arrived-arrivals [] = refl
arrived-arrivals (m ∷ ms) = ap (λ es. from_raw m ∷ es) (arrived-arrivals ms)

pub from_raw-messages_of :
    (xs ys : List Tagged)
    → map from_raw (messages_of (xs ++ ys))
      ≡ map from_raw (messages_of xs) ++ map from_raw (messages_of ys)
from_raw-messages_of xs ys =
    ap (map from_raw) (messages_of-append xs ys)
    ∙ map-append from_raw (messages_of xs) (messages_of ys)

arrived-indexer_event :
    (s : DeviceRegistry × Option Indexer) (e : ReceiverEvent)
    → arrived (indexer_event s e) ≡ map from_raw (messages_of (sent_in s e))
unfolding indexer_event sent_in
arrived-indexer_event s (receives m) = unfold arrived messages_of in refl
arrived-indexer_event s (writer_turns key now later) =
    arrived-arrivals (messages_of (sent_found key (get key s.0.writers)))
arrived-indexer_event s indexer_turns = unfold arrived messages_of in refl

module _ (accepts : Row → Bool) (batch_ok disk_ok : Text → Bool) where
  step_receiver-Distinct :
      (s : DeviceRegistry × Option Indexer) (e : ReceiverEvent)
      → Distinct s.0.writers
      → Distinct (step_receiver accepts batch_ok disk_ok s e).0.writers
  unfolding step_receiver deliver get_or_create
  step_receiver-Distinct s (receives m) h =
      put_writer-Distinct s.0 m.source_ip m (get m.source_ip s.0.writers) h
  step_receiver-Distinct s (writer_turns key now later) h = found (get key s.0.writers)
    where
      found :
          (o : Option DeviceWriter)
          → Distinct (turn_found accepts batch_ok disk_ok key now later s o).0.writers
      found none = h
      found (some w) = Distinct-set key (turn_writer disk_ok (w, s.1) now later).0 s.0.writers h
  step_receiver-Distinct s indexer_turns h = h

  run_receiver-Distinct :
      (es : List ReceiverEvent) (s : DeviceRegistry × Option Indexer)
      → Distinct s.0.writers
      → Distinct (run_receiver accepts batch_ok disk_ok s es).0.writers
  unfolding run_receiver
  run_receiver-Distinct [] s h = h
  run_receiver-Distinct (e ∷ es) s h =
      run_receiver-Distinct es (step_receiver accepts batch_ok disk_ok s e)
        (step_receiver-Distinct s e h)

  -- All that the writers hand to the indexer, at a stop after some events too.
  unfoldable pub all_sent : DeviceRegistry × Option Indexer → List ReceiverEvent → List Tagged
  all_sent s es =
      sent accepts batch_ok disk_ok s es
      ++ left_in (run_receiver accepts batch_ok disk_ok s es).0.writers

  -- Of a device's messages the writer hands over those that its own queue admits, once and in order.
  pub all_sent-device :
      (ok : (path : Text) → disk_ok path ≡ true) (es : List ReceiverEvent)
      (s : DeviceRegistry × Option Indexer) (key : Text)
      → s.0.writers ≡ []
      → from_device key (all_sent s es)
        ≡ admitted_raws disk_ok ok (made_for s.0 key, none) (events_of key es)
  unfolding all_sent get_or_create
  all_sent-device ok es s key h =
      from_device-append key (sent accepts batch_ok disk_ok s es) (left_in after.0.writers)
      ∙ ap (λ ms. ms ++ from_device key (left_in after.0.writers))
          (sent-device accepts batch_ok disk_ok es s key)
      ∙ ap (λ ms. taken_all disk_ok (writer_of s.0 key) (events_of key es) ++ ms)
          (left_in-device key after.0.writers
              (run_receiver-Distinct es s (subst Distinct (sym h) tt))
            ∙ waiting after.0 (get key after.0.writers)
            ∙ ap (λ (w : DeviceWriter). w.queue)
                (run_receiver-writer_of accepts batch_ok disk_ok es s key))
      ∙ taken_all-admitted disk_ok ok (events_of key es) (writer_of s.0 key)
      ∙ ap (λ (w : DeviceWriter). w.queue ++ admitted_raws disk_ok ok (w, none) (events_of key es))
          made
      ∙ nothing_queued
    where
      after : DeviceRegistry × Option Indexer
      after = run_receiver accepts batch_ok disk_ok s es

      waiting :
          (registry : DeviceRegistry) (o : Option DeviceWriter)
          → queue_of o ≡ (found_or_made registry key o).0.queue
      waiting registry none = unfold new_writer in refl
      waiting registry (some w) = refl

      made : writer_of s.0 key ≡ made_for s.0 key
      made = unfold get get_or_create in ap (λ ws. (found_or_made s.0 key (get key ws)).0) h

      nothing_queued :
          (made_for s.0 key).queue
            ++ admitted_raws disk_ok ok (made_for s.0 key, none) (events_of key es)
          ≡ admitted_raws disk_ok ok (made_for s.0 key, none) (events_of key es)
      nothing_queued = unfold new_writer in refl

  pub arrived-indexer_events :
      (es : List ReceiverEvent) (s : DeviceRegistry × Option Indexer)
      → arrived (indexer_events accepts batch_ok disk_ok s es)
        ≡ map from_raw (messages_of (sent accepts batch_ok disk_ok s es))
  unfolding indexer_events sent
  arrived-indexer_events [] s = unfold arrived messages_of in refl
  arrived-indexer_events (e ∷ es) s =
      arrived-append (indexer_event s e) (indexer_events accepts batch_ok disk_ok next es)
      ∙ ap (λ ms. ms ++ arrived (indexer_events accepts batch_ok disk_ok next es))
          (arrived-indexer_event s e)
      ∙ ap (λ ms. map from_raw (messages_of (sent_in s e)) ++ ms) (arrived-indexer_events es next)
      ∙ sym (from_raw-messages_of (sent_in s e) (sent accepts batch_ok disk_ok next es))
    where
      next : DeviceRegistry × Option Indexer
      next = step_receiver accepts batch_ok disk_ok s e
