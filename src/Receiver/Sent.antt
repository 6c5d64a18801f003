-- ===== src/Receiver/Sent.antt =====
-- What all the writers of a receiver hand to the indexer, in the order in which they do, each message
-- with the device whose writer hands it over.
use sylo.Base.{
  ◌≡◌, refl, sym, ap, ◌∙◌, inl, inr, Bool-cases, Bool, true, false, List, [], ◌∷◌, ◌++◌, append-nil,
  append_assoc, Option, none, some, if◌then◌else◌, arith,
}
use sylo.Text.{Text, text_eq, text_eq_iff}
use sylo.Envelope.{RawMessage}
use sylo.Schema.{Row}
use sylo.Dict.{get, text_eq_refl}
use sylo.Indexer.{Indexer, Event, turns, run, step}
use sylo.DeviceWriter.{DeviceWriter, WriterEvent, ingests, turn_writer, run_writer}
use sylo.DeviceWriter.Registry.{
  DeviceRegistry, new_writer, found_or_made, get_or_create, is_from, writer_of,
}
use sylo.Receiver.Shutdown.{arrivals, run-append}
use sylo.Receiver.System.{
  ReceiverEvent, receives, writer_turns, indexer_turns, turn_found, step_receiver, run_receiver,
  event_of, events_of, step_receiver-writer_of,
}
use sylo.Receiver.Taken.{
  taken, taken_in, taken_all, after_event, turn_writer-offers, step_writer-none,
}

abbrev pub Tagged : Type 0
Tagged = Text × RawMessage

unfoldable pub tag : Text → List RawMessage → List Tagged
tag key [] = []
tag key (m ∷ ms) = (key, m) ∷ tag key ms

unfoldable pub messages_of : List Tagged → List RawMessage
messages_of [] = []
messages_of ((key, m) ∷ ts) = m ∷ messages_of ts

-- Those of one device.
unfoldable pub from_device : Text → List Tagged → List RawMessage
from_device key [] = []
from_device key ((k, m) ∷ ts) =
    let rest = from_device key ts in if text_eq k key then m ∷ rest else rest

pub messages_of-append :
    (xs ys : List Tagged) → messages_of (xs ++ ys) ≡ messages_of xs ++ messages_of ys
unfolding messages_of
messages_of-append [] ys = refl
messages_of-append (x ∷ xs) ys = ap (λ ms. x.1 ∷ ms) (messages_of-append xs ys)

pub messages_of-tag : (key : Text) (ms : List RawMessage) → messages_of (tag key ms) ≡ ms
unfolding messages_of tag
messages_of-tag key [] = refl
messages_of-tag key (m ∷ ms) = ap (λ r. m ∷ r) (messages_of-tag key ms)

pub from_device-append :
    (key : Text) (xs ys : List Tagged)
    → from_device key (xs ++ ys) ≡ from_device key xs ++ from_device key ys
unfolding from_device
from_device-append key [] ys = refl
from_device-append key ((k, m) ∷ xs) ys = ground (arith, from_device-append key xs ys)

pub from_device-tag :
    (key k : Text) (ms : List RawMessage)
    → from_device key (tag k ms) ≡ (if text_eq k key then ms else [])
unfolding from_device tag
from_device-tag key k [] = ground arith
from_device-tag key k (m ∷ ms) = ground (arith, from_device-tag key k ms)

abbrev pub sent_found : Text → Option DeviceWriter → List Tagged
sent_found key none = []
sent_found key (some w) = tag key (taken w)

unfoldable pub sent_in : DeviceRegistry × Option Indexer → ReceiverEvent → List Tagged
sent_in s (receives m) = []
sent_in s (writer_turns key now later) = sent_found key (get key s.0.writers)
sent_in s indexer_turns = []

-- What the indexer gets of an event.
unfoldable pub indexer_event : DeviceRegistry × Option Indexer → ReceiverEvent → List Event
indexer_event s (receives m) = []
indexer_event s (writer_turns key now later) =
    arrivals (messages_of (sent_found key (get key s.0.writers)))
indexer_event s indexer_turns = turns ∷ []

module _ (accepts : Row → Bool) (batch_ok disk_ok : Text → Bool) where
  unfoldable pub sent : DeviceRegistry × Option Indexer → List ReceiverEvent → List Tagged
  sent s [] = []
  sent s (e ∷ es) = sent_in s e ++ sent (step_receiver accepts batch_ok disk_ok s e) es

  unfoldable pub indexer_events : DeviceRegistry × Option Indexer → List ReceiverEvent → List Event
  indexer_events s [] = []
  indexer_events s (e ∷ es) =
      indexer_event s e ++ indexer_events (step_receiver accepts batch_ok disk_ok s e) es

  step_receiver-indexer :
      (s : DeviceRegistry × Option Indexer) (ix : Indexer) (e : ReceiverEvent)
      → s.1 ≡ some ix
      → (step_receiver accepts batch_ok disk_ok s e).1
        ≡ some (run accepts batch_ok ix (indexer_event s e))
  unfolding step_receiver indexer_event run
  step_receiver-indexer s ix (receives m) h = h
  step_receiver-indexer s ix (writer_turns key now later) h = found (get key s.0.writers)
    where
      found :
          (o : Option DeviceWriter)
          → (turn_found accepts batch_ok disk_ok key now later s o).1
            ≡ some (run accepts batch_ok ix (arrivals (messages_of (sent_found key o))))
      found none = unfold messages_of arrivals in h
      found (some w) =
          ap (λ i. (turn_writer disk_ok (w, i) now later).1) h
          ∙ turn_writer-offers disk_ok accepts batch_ok w ix now later
          ∙ ap (λ ms. some (run accepts batch_ok ix (arrivals ms)))
              (sym (messages_of-tag key (taken w)))
  step_receiver-indexer s ix indexer_turns h =
      unfold step in ap (λ o. (step_receiver accepts batch_ok disk_ok (s.0, o) indexer_turns).1) h

  -- The indexer of a receiver runs through what it gets.
  pub run_receiver-indexer :
      (es : List ReceiverEvent) (s : DeviceRegistry × Option Indexer) (ix : Indexer)
      → s.1 ≡ some ix
      → (run_receiver accepts batch_ok disk_ok s es).1
        ≡ some (run accepts batch_ok ix (indexer_events s es))
  unfolding run_receiver indexer_events
  run_receiver-indexer [] s ix h = unfold run in h
  run_receiver-indexer (e ∷ es) s ix h =
      run_receiver-indexer es (step_receiver accepts batch_ok disk_ok s e)
        (run accepts batch_ok ix (indexer_event s e)) (step_receiver-indexer s ix e h)
      ∙ ap some (sym (run-append accepts batch_ok ix (indexer_event s e) _))

  taken-own :
      (registry : DeviceRegistry) (key : Text) (o : Option DeviceWriter)
      → from_device key (sent_found key o) ≡ taken (found_or_made registry key o).0 ++ []
  unfolding taken new_writer
  taken-own registry key none = unfold from_device in refl
  taken-own registry key (some w) =
      from_device-tag key key (taken w) ∙ rw (text_eq_refl key) (sym (append-nil (taken w)))

  taken-other :
      (key k : Text) (o : Option DeviceWriter)
      → text_eq k key ≡ false
      → from_device key (sent_found k o) ≡ []
  taken-other key k none h = unfold from_device in refl
  taken-other key k (some w) h = from_device-tag key k (taken w) ∙ rw h

  -- The messages that a device's writer hands over are those that its own turns take.
  sent_in-device :
      (s : DeviceRegistry × Option Indexer) (e : ReceiverEvent) (key : Text)
      → from_device key (sent_in s e) ≡ taken_all disk_ok (writer_of s.0 key) (event_of key e)
  unfolding sent_in event_of taken_all taken_in from_device get_or_create
  sent_in-device s (receives m) key = by_source (is_from key m)
    where
      by_source :
          (same : Bool)
          → [] ≡ taken_all disk_ok (writer_of s.0 key) (if same then ingests m ∷ [] else [])
      by_source true = refl
      by_source false = refl
  sent_in-device s (writer_turns k now later) key = elim (Bool-cases (text_eq k key)) [
    | inl same ↦
        let e : k ≡ key = (text_eq_iff k key).0 same in
        rw same (
          ap (λ j. from_device key (sent_found j (get j s.0.writers))) e
          ∙ taken-own s.0 key (get key s.0.writers))
    | inr other ↦ rw other (taken-other key k (get k s.0.writers) other)
  ]
  sent_in-device s indexer_turns key = refl

  taken_all-append :
      (xs ys : List WriterEvent) (w : DeviceWriter)
      → taken_all disk_ok w (xs ++ ys)
        ≡ taken_all disk_ok w xs ++ taken_all disk_ok (run_writer disk_ok (w, none) xs).0 ys
  unfolding taken_all run_writer
  taken_all-append [] ys w = refl
  taken_all-append (x ∷ xs) ys w =
      ap (λ ms. taken_in w x ++ ms) (taken_all-append xs ys (after_event disk_ok w x))
      ∙ sym (append_assoc (taken_in w x) (taken_all disk_ok (after_event disk_ok w x) xs) _)
      ∙ ap
          (λ s.
            (taken_in w x ++ taken_all disk_ok (after_event disk_ok w x) xs)
            ++ taken_all disk_ok (run_writer disk_ok s xs).0 ys)
          (sym (step_writer-none disk_ok w x))

  pub sent-device :
      (es : List ReceiverEvent) (s : DeviceRegistry × Option Indexer) (key : Text)
      → from_device key (sent s es) ≡ taken_all disk_ok (writer_of s.0 key) (events_of key es)
  unfolding sent events_of taken_all
  sent-device [] s key = unfold from_device in refl
  sent-device (e ∷ es) s key =
      from_device-append key (sent_in s e) (sent (step_receiver accepts batch_ok disk_ok s e) es)
      ∙ ap (λ ms. ms ++ from_device key (sent (step_receiver accepts batch_ok disk_ok s e) es))
          (sent_in-device s e key)
      ∙ ap (λ ms. taken_all disk_ok (writer_of s.0 key) (event_of key e) ++ ms)
          (sent-device es (step_receiver accepts batch_ok disk_ok s e) key
            ∙ ap (λ w. taken_all disk_ok w (events_of key es))
                (step_receiver-writer_of accepts batch_ok disk_ok s e key))
      ∙ sym (taken_all-append (event_of key e) (events_of key es) (writer_of s.0 key))
