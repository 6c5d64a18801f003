-- ===== src/Receiver/System.antt =====
-- The receiver between its start and its stop: the registry of sylo/receiver/device_writer.py and the
-- indexer of sylo/indexer/core.py on one event loop, their tasks taking turns in any order.
use sylo.Base.{
  ℕ, ◌≡◌, refl, sym, ap, ◌∙◌, ◌⊎◌, inl, inr, Bool-cases, Bool, true, false, List, [], ◌∷◌, ◌++◌,
  Option, none, some, if◌then◌else◌,
}
use sylo.Text.{Text, text_eq, text_eq_iff}
use sylo.Envelope.{RawMessage}
use sylo.Schema.{Row}
use sylo.Dict.{get, set, get-set}
use sylo.Indexer.{Indexer, turn}
use sylo.DeviceWriter.{
  DeviceWriter, WriterEvent, ingests, takes, halts, enqueue_raw, receive_raw, drain_raw,
  turn_writer, step_writer, run_writer,
}
use sylo.DeviceWriter.Registry.{
  DeviceRegistry, new_writer, made_for, found_or_made, get_or_create, deliver, writer_of, is_from,
  writer_of-stored, deliver-writer_of,
}

-- A message that arrives, a turn of a device's writer with the clock before and after its writes, and
-- a turn of the indexer.
pub data ReceiverEvent : Type 0 where
  receives : RawMessage → ReceiverEvent
  writer_turns : Text → ℕ → ℕ → ReceiverEvent
  indexer_turns : ReceiverEvent

module _ (accepts : Row → Bool) (batch_ok disk_ok : Text → Bool) where
  abbrev pub turn_indexer : Option Indexer → Option Indexer
  turn_indexer none = none
  turn_indexer (some ix) = some (turn accepts batch_ok ix)

  abbrev pub put_turned :
      Text → DeviceRegistry → DeviceWriter × Option Indexer → DeviceRegistry × Option Indexer
  put_turned key registry (w, ix) = (record registry { writers = set key w registry.writers }, ix)

  -- A device without a writer has no task.
  abbrev pub turn_found :
      Text
      → ℕ
      → ℕ
      → DeviceRegistry × Option Indexer
      → Option DeviceWriter
      → DeviceRegistry × Option Indexer
  turn_found key now later s none = s
  turn_found key now later s (some w) = put_turned key s.0 (turn_writer disk_ok (w, s.1) now later)

  unfoldable pub step_receiver :
      DeviceRegistry × Option Indexer → ReceiverEvent → DeviceRegistry × Option Indexer
  step_receiver s (receives m) = (deliver s.0 m, s.1)
  step_receiver s (writer_turns key now later) = turn_found key now later s (get key s.0.writers)
  step_receiver s indexer_turns = (s.0, turn_indexer s.1)

  unfoldable pub run_receiver :
      DeviceRegistry × Option Indexer → List ReceiverEvent → DeviceRegistry × Option Indexer
  run_receiver s [] = s
  run_receiver s (e ∷ es) = run_receiver (step_receiver s e) es

-- What concerns the writer of a device.
unfoldable pub event_of : Text → ReceiverEvent → List WriterEvent
event_of key (receives m) = if is_from key m then ingests m ∷ [] else []
event_of key (writer_turns k now later) = if text_eq k key then takes now later ∷ [] else []
event_of key indexer_turns = []

unfoldable pub events_of : Text → List ReceiverEvent → List WriterEvent
events_of key [] = []
events_of key (e ∷ es) = event_of key e ++ events_of key es

module _ (accepts : Row → Bool) (batch_ok disk_ok : Text → Bool) where
  -- The indexer has no part in what a turn makes of the writer.
  turn_writer-alone :
      (w : DeviceWriter) (ix : Option Indexer) (now later : ℕ)
      → (turn_writer disk_ok (w, ix) now later).0 ≡ (turn_writer disk_ok (w, none) now later).0
  unfolding turn_writer drain_raw
  turn_writer-alone w ix now later = by_flag w.stopping
    where
      by_queue :
          (q : List RawMessage)
          → (receive_raw disk_ok w ix q now later).0 ≡ (receive_raw disk_ok w none q now later).0
      by_queue [] = unfold receive_raw in refl
      by_queue (m ∷ rest) = unfold receive_raw in refl

      by_flag :
          (stopping : Bool)
          → (if stopping
              then drain_raw disk_ok w ix now later
              else receive_raw disk_ok w ix w.queue now later).0
            ≡ (if stopping
                then drain_raw disk_ok w none now later
                else receive_raw disk_ok w none w.queue now later).0
      by_flag true = refl
      by_flag false = by_queue w.queue

  run_writer-alone :
      (es : List WriterEvent) (w : DeviceWriter) (ix : Option Indexer)
      → (run_writer disk_ok (w, ix) es).0 ≡ (run_writer disk_ok (w, none) es).0
  unfolding run_writer step_writer
  run_writer-alone [] w ix = refl
  run_writer-alone (ingests m ∷ es) w ix = run_writer-alone es (enqueue_raw w m) ix
  run_writer-alone (takes now later ∷ es) w ix =
      run_writer-alone es (turn_writer disk_ok (w, ix) now later).0
        (turn_writer disk_ok (w, ix) now later).1
      ∙ ap (λ v. (run_writer disk_ok (v, none) es).0) (turn_writer-alone w ix now later)
      ∙ sym (
          run_writer-alone es (turn_writer disk_ok (w, none) now later).0
            (turn_writer disk_ok (w, none) now later).1)
  run_writer-alone (halts ∷ es) w ix = run_writer-alone es (record w { stopping = true }) ix

  -- A writer that was just made has nothing to do.
  turn_writer-new :
      (key : Text) (registry : DeviceRegistry) (now later : ℕ)
      → (turn_writer disk_ok (made_for registry key, none) now later).0 ≡ made_for registry key
  unfolding turn_writer receive_raw new_writer
  turn_writer-new key registry now later = refl

  -- A turn of the writer of `k`, as the writer of `key` sees it.
  turned :
      (s : DeviceRegistry × Option Indexer) (k key : Text) (now later : ℕ) (o : Option DeviceWriter)
      → get k s.0.writers ≡ o
      → writer_of (turn_found accepts batch_ok disk_ok k now later s o).0 key ≡ (
          if text_eq k key
          then (turn_writer disk_ok (writer_of s.0 key, none) now later).0
          else writer_of s.0 key)
  unfolding get_or_create
  turned s k key now later none h = elim (Bool-cases (text_eq k key)) [
    | inl same ↦
        let e : k ≡ key = (text_eq_iff k key).0 same in
        let made : writer_of s.0 key ≡ made_for s.0 key =
          ap (λ o. (found_or_made s.0 key o).0) (ap (λ j. get j s.0.writers) (sym e) ∙ h) in
        rw same (
          made
          ∙ sym (turn_writer-new key s.0 now later)
          ∙ ap (λ v. (turn_writer disk_ok (v, none) now later).0) (sym made))
    | inr other ↦ rw other refl
  ]
  turned s k key now later (some w) h =
      writer_of-stored s.0 k key after (set k after s.0.writers) (get-set key k after s.0.writers)
      ∙ by_key (Bool-cases (text_eq k key))
    where
      after : DeviceWriter
      after = (turn_writer disk_ok (w, s.1) now later).0

      by_key :
          ((text_eq k key ≡ true) ⊎ (text_eq k key ≡ false))
          → (if text_eq k key then after else writer_of s.0 key) ≡ (
              if text_eq k key
              then (turn_writer disk_ok (writer_of s.0 key, none) now later).0
              else writer_of s.0 key)
      by_key (inl same) =
          let e : k ≡ key = (text_eq_iff k key).0 same in
          rw same (
            turn_writer-alone w s.1 now later
            ∙ ap (λ v. (turn_writer disk_ok (v, none) now later).0)
                (sym (
                  ap (λ o. (found_or_made s.0 key o).0) (ap (λ j. get j s.0.writers) (sym e) ∙ h))))
      by_key (inr other) = rw other refl

  pub step_receiver-writer_of :
      (s : DeviceRegistry × Option Indexer) (e : ReceiverEvent) (key : Text)
      → writer_of (step_receiver accepts batch_ok disk_ok s e).0 key
        ≡ (run_writer disk_ok (writer_of s.0 key, none) (event_of key e)).0
  unfolding step_receiver event_of run_writer step_writer
  step_receiver-writer_of s (receives m) key = deliver-writer_of s.0 m key ∙ by_key (is_from key m)
    where
      by_key :
          (same : Bool)
          → (if same then enqueue_raw (writer_of s.0 key) m else writer_of s.0 key)
            ≡ (run_writer disk_ok (writer_of s.0 key, none) (if same then ingests m ∷ [] else [])).0
      by_key true = refl
      by_key false = refl
  step_receiver-writer_of s (writer_turns k now later) key =
      turned s k key now later (get k s.0.writers) refl ∙ by_key (text_eq k key)
    where
      by_key :
          (same : Bool)
          → (if same
              then (turn_writer disk_ok (writer_of s.0 key, none) now later).0
              else writer_of s.0 key)
            ≡ (run_writer disk_ok
                (writer_of s.0 key, none)
                (if same then takes now later ∷ [] else [])).0
      by_key true = refl
      by_key false = refl
  step_receiver-writer_of s indexer_turns key = refl

  run_writer-append :
      (xs es : List WriterEvent) (s : DeviceWriter × Option Indexer)
      → run_writer disk_ok s (xs ++ es) ≡ run_writer disk_ok (run_writer disk_ok s xs) es
  unfolding run_writer
  run_writer-append [] es s = refl
  run_writer-append (x ∷ xs) es s = run_writer-append xs es (step_writer disk_ok s x)

  -- Whatever sources send, and in whatever order their messages and the turns of the tasks mix, the
  -- writer of a device is in the state in which its own messages and turns alone would have brought
  -- it: no other device, and nothing that the indexer does, drops or changes any of its messages.
  pub run_receiver-writer_of :
      (es : List ReceiverEvent) (s : DeviceRegistry × Option Indexer) (key : Text)
      → writer_of (run_receiver accepts batch_ok disk_ok s es).0 key
        ≡ (run_writer disk_ok (writer_of s.0 key, none) (events_of key es)).0
  unfolding run_receiver events_of
  run_receiver-writer_of [] s key = unfold run_writer in refl
  run_receiver-writer_of (e ∷ es) s key =
      run_receiver-writer_of es (step_receiver accepts batch_ok disk_ok s e) key
      ∙ ap (λ v. (run_writer disk_ok (v, none) (events_of key es)).0)
          (step_receiver-writer_of s e key)
      ∙ sym (run_writer-alone (events_of key es) (own (event_of key e)).0 (own (event_of key e)).1)
      ∙ ap (λ (r : DeviceWriter × Option Indexer). r.0)
          (sym (run_writer-append (event_of key e) (events_of key es) (writer_of s.0 key, none)))
    where
      own : List WriterEvent → DeviceWriter × Option Indexer
      own xs = run_writer disk_ok (writer_of s.0 key, none) xs
