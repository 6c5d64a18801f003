-- ===== src/Receiver/Lifetime.antt =====
-- From the arrival of a message at the receiver to the rows that sylo/indexer/rebuild.py reads back:
-- the whole life of a receiver, with all its devices, between start and stop.
use sylo.Base.{ℕ, ◌≡◌, refl, ap, ◌∙◌, Bool, true, List, map, Option, none, some, keep}
use sylo.Text.{Bytes, Text}
use sylo.Text.Utf8.{encode}
use sylo.Envelope.{RawMessage}
use sylo.Dict.{get}
use sylo.Schema.{Row, MonthDb}
use sylo.Indexer.{Indexer, insert_rows}
use sylo.Rebuild.{rebuild_file}
use sylo.Rebuild.Lines.{join_lines}
use sylo.Rebuild.Live.{AllPlain, live_row, file_lines, rebuild_file-live}
use sylo.DeviceWriter.{
  DeviceWriter, sanitize_device_key, or_empty, path_for, step_writer, turn_writer, drain_raw,
  run_writer,
}
use sylo.DeviceWriter.Delivered.{admitted_raws}
use sylo.DeviceWriter.Rebuilt.{of_day, stop_writer, files-stop_writer}
use sylo.DeviceWriter.Registry.{
  DeviceRegistry, new_writer, made_for, found_or_made, get_or_create, writer_of,
}
use sylo.Receiver.{stop_all}
use sylo.Receiver.Shutdown.{if_there, get-stop_all}
use sylo.Receiver.System.{ReceiverEvent, run_receiver, events_of, run_receiver-writer_of}

-- The registry after `stop_all`.
abbrev pub stopped_registry :
    (Text → Bool) → (Text → ℕ × ℕ) → DeviceRegistry × Option Indexer → DeviceRegistry
stopped_registry disk_ok clock s = record s.0 {
  writers = (stop_all disk_ok clock s.0.writers s.1).0;
}

module _ (accepts : Row → Bool) (batch_ok disk_ok : Text → Bool)
    (ok : (path : Text) → disk_ok path ≡ true) (clock : Text → ℕ × ℕ) where
  -- A device without a writer has nothing to write.
  files-stopped_registry :
      (s : DeviceRegistry × Option Indexer) (key : Text)
      → (writer_of (stopped_registry disk_ok clock s) key).files
        ≡ (stop_writer disk_ok (writer_of s.0 key, none) (clock key).0 (clock key).1).0.files
  unfolding get_or_create
  files-stopped_registry s key =
      ap (λ o. (found_or_made (stopped_registry disk_ok clock s) key o).0.files)
        (get-stop_all accepts batch_ok disk_ok clock key s.0.writers s.1)
      ∙ by_writer (get key s.0.writers)
    where
      by_writer :
          (o : Option DeviceWriter)
          → (found_or_made
              (stopped_registry disk_ok clock s)
              key
              (if_there accepts batch_ok disk_ok clock key o)).0.files
            ≡ (stop_writer disk_ok
                ((found_or_made s.0 key o).0, none)
                (clock key).0
                (clock key).1).0.files
      by_writer none = unfold new_writer turn_writer step_writer drain_raw in refl
      by_writer (some w) = refl

  module _ (registry : DeviceRegistry) (ix : Option Indexer) (es : List ReceiverEvent)
      (key day : Text) where
    -- What the device's own queue admits of its messages.
    abbrev pub admitted_of : List RawMessage
    admitted_of =
        keep (of_day day)
          (admitted_raws disk_ok ok (made_for registry key, none) (events_of key es))

    abbrev pub day_file : Bytes
    day_file = or_empty (
        get (path_for key day)
          (writer_of
            (stopped_registry disk_ok clock
              (run_receiver accepts batch_ok disk_ok (registry, ix) es))
            key).files)

    -- If the disk refuses no write, a device has no writer yet and no file of a day, then after any
    -- mix of messages from all devices and of turns of all tasks, and a stop, its file of the day
    -- holds one line for each of its messages of the day that its own queue admitted, in order.
    pub day_file_lem :
        get key registry.writers ≡ none
        → get (path_for key day) (registry.on_disk key) ≡ none
        → day_file ≡ encode (join_lines (file_lines admitted_of))
    unfolding get_or_create
    day_file_lem unknown no_file =
        ap (λ fs. or_empty (get (path_for key day) fs))
          (files-stopped_registry (run_receiver accepts batch_ok disk_ok (registry, ix) es) key
            ∙ ap (λ w. (stop_writer disk_ok (w, none) (clock key).0 (clock key).1).0.files)
                (run_receiver-writer_of accepts batch_ok disk_ok es (registry, ix) key
                  ∙ ap (λ w. (run_writer disk_ok (w, none) (events_of key es)).0) made))
        ∙ ap (λ fs. or_empty (get (path_for key day) fs)) same_files
        ∙ own_file
      where
        own : DeviceWriter × Option Indexer
        own = run_writer disk_ok (made_for registry key, none) (events_of key es)

        same_files :
            (stop_writer disk_ok (own.0, none) (clock key).0 (clock key).1).0.files
            ≡ (stop_writer disk_ok own (clock key).0 (clock key).1).0.files
        same_files = unfold turn_writer step_writer drain_raw in refl

        own_file :
            or_empty
              (get (path_for key day) (stop_writer disk_ok own (clock key).0 (clock key).1).0.files)
            ≡ encode (join_lines (file_lines admitted_of))
        own_file =
            unfold new_writer in
            files-stop_writer disk_ok ok (events_of key es) (made_for registry key) none
              (clock key).0 (clock key).1 day refl refl no_file

        made : writer_of registry key ≡ made_for registry key
        made = ap (λ o. (found_or_made registry key o).0) unknown

    -- If the disk refuses no write, a device has no writer yet and no file of a day, then after any
    -- mix of messages from all devices and of turns of all tasks, and a stop, the rebuild of its file
    -- of the day inserts, under the name of its directory, exactly the rows that the live indexer
    -- inserts for those of its messages of the day that its own queue admitted, in order and with the
    -- same count, if the bytes of these are the UTF-8 form of texts without line breaks and their
    -- times are in range.
    pub rebuild_file-day_file :
        (may_insert : Row → Bool) (db : MonthDb)
        → get key registry.writers ≡ none
        → get (path_for key day) (registry.on_disk key) ≡ none
        → AllPlain admitted_of
        → rebuild_file may_insert db day_file (sanitize_device_key key)
          ≡ insert_rows may_insert (db, 0) (map (live_row (sanitize_device_key key)) admitted_of)
    rebuild_file-day_file may_insert db unknown no_file plain =
        ap (λ f. rebuild_file may_insert db f (sanitize_device_key key))
          (day_file_lem unknown no_file)
        ∙ rebuild_file-live may_insert (sanitize_device_key key) db admitted_of plain
