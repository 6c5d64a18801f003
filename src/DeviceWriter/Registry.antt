-- ===== src/DeviceWriter/Registry.antt =====
-- `DeviceRegistry` (sylo/receiver/device_writer.py): the writers by source address, each made when the
-- first message of its source arrives. The counters of a device are one object that its writer and
-- the registry of counters share: it stands in the writer.
use sylo.Base.{
  ◌≡◌, refl, ap, ◌∙◌, Bool, true, false, Bool-cases, ◌⊎◌, inl, inr, List, [], ◌∷◌, Option, none,
  some, if◌then◌else◌, keep,
}
use sylo.Text.{Bytes, Text, text_eq, text_eq_iff}
use sylo.Envelope.{RawMessage}
use sylo.Dict.{Dict, get, set, get-set}
use sylo.Stats.{no_stats}
use sylo.DeviceWriter.{DeviceWriter, WriterConfig, enqueue_raw}

-- `on_disk` has the files below the data directory that a device's writer finds.
pub record DeviceRegistry : Type 0 where
  pub config : WriterConfig
  pub on_disk : Text → Dict Bytes
  pub writers : Dict DeviceWriter

unfoldable pub new_writer : Text → WriterConfig → Dict Bytes → DeviceWriter
new_writer device_key config files = record {
  device_key = device_key;
  config = config;
  stats = no_stats;
  queue = [];
  buffer = [];
  last_fsync = 0;
  stopping = false;
  sanitized_paths = [];
  files = files;
}

abbrev pub made_for : DeviceRegistry → Text → DeviceWriter
made_for registry device_key = new_writer device_key registry.config (registry.on_disk device_key)

abbrev pub found_or_made :
    DeviceRegistry → Text → Option DeviceWriter → DeviceWriter × DeviceRegistry
found_or_made registry device_key (some writer) = (writer, registry)
found_or_made registry device_key none =
    let writer = made_for registry device_key in
    (writer, record registry { writers = set device_key writer registry.writers })

unfoldable pub get_or_create : DeviceRegistry → Text → DeviceWriter × DeviceRegistry
get_or_create registry device_key =
    found_or_made registry device_key (get device_key registry.writers)

-- `get_or_create(source_ip).enqueue(raw_message)`: the writer of the registry is changed in place.
abbrev pub put_writer : Text → RawMessage → DeviceWriter × DeviceRegistry → DeviceRegistry
put_writer device_key m (writer, registry) = record registry {
  writers = set device_key (enqueue_raw writer m) registry.writers;
}

unfoldable pub deliver : DeviceRegistry → RawMessage → DeviceRegistry
deliver registry m = put_writer m.source_ip m (get_or_create registry m.source_ip)

unfoldable pub deliver_all : DeviceRegistry → List RawMessage → DeviceRegistry
deliver_all registry [] = registry
deliver_all registry (m ∷ ms) = deliver_all (deliver registry m) ms

unfoldable pub enqueue_all : DeviceWriter → List RawMessage → DeviceWriter
enqueue_all writer [] = writer
enqueue_all writer (m ∷ ms) = enqueue_all (enqueue_raw writer m) ms

abbrev pub is_from : Text → RawMessage → Bool
is_from device_key m = text_eq m.source_ip device_key

abbrev pub writer_of : DeviceRegistry → Text → DeviceWriter
writer_of registry device_key = (get_or_create registry device_key).0

found_or_made_same :
    (registry : DeviceRegistry) (ws : Dict DeviceWriter) (key : Text) (o : Option DeviceWriter)
    → (found_or_made (record registry { writers = ws }) key o).0 ≡ (found_or_made registry key o).0
found_or_made_same registry ws key none = refl
found_or_made_same registry ws key (some w) = refl

-- A dictionary that differs in one writer.
pub writer_of-stored :
    (registry : DeviceRegistry) (source key : Text) (w : DeviceWriter) (ws : Dict DeviceWriter)
    → get key ws ≡ (if text_eq source key then some w else get key registry.writers)
    → writer_of (record registry { writers = ws }) key
      ≡ (if text_eq source key then w else writer_of registry key)
unfolding get_or_create
writer_of-stored registry source key w ws h =
    found_or_made_same registry ws key (get key ws)
    ∙ ap (λ o. (found_or_made registry key o).0) h
    ∙ by_source (Bool-cases (text_eq source key))
  where
    by_source :
        ((text_eq source key ≡ true) ⊎ (text_eq source key ≡ false))
        → (found_or_made registry key
            (if text_eq source key then some w else get key registry.writers)).0
          ≡ (if text_eq source key
              then w
              else (found_or_made registry key (get key registry.writers)).0)
    by_source (inl same) = rw same refl
    by_source (inr other) = rw other refl

put_writer-writer_of :
    (registry : DeviceRegistry) (source key : Text) (m : RawMessage) (o : Option DeviceWriter)
    → writer_of (put_writer source m (found_or_made registry source o)) key ≡ (
        if text_eq source key
        then enqueue_raw (found_or_made registry source o).0 m
        else writer_of registry key)
put_writer-writer_of registry source key m (some w) =
    writer_of-stored registry source key (enqueue_raw w m)
      (set source (enqueue_raw w m) registry.writers)
      (get-set key source (enqueue_raw w m) registry.writers)
put_writer-writer_of registry source key m none =
    writer_of-stored registry source key (enqueue_raw made m)
      (set source (enqueue_raw made m) (set source made registry.writers))
      (get-set key source (enqueue_raw made m) (set source made registry.writers)
        ∙ once (Bool-cases (text_eq source key)))
  where
    made : DeviceWriter
    made = made_for registry source

    once :
        ((text_eq source key ≡ true) ⊎ (text_eq source key ≡ false))
        → (if text_eq source key
            then some (enqueue_raw made m)
            else get key (set source made registry.writers))
          ≡ (if text_eq source key then some (enqueue_raw made m) else get key registry.writers)
    once (inl same) = rw same refl
    once (inr other) = rw (get-set, other) refl

pub deliver-writer_of :
    (registry : DeviceRegistry) (m : RawMessage) (key : Text)
    → writer_of (deliver registry m) key
      ≡ (if is_from key m then enqueue_raw (writer_of registry key) m else writer_of registry key)
unfolding deliver get_or_create
deliver-writer_of registry m key =
    put_writer-writer_of registry m.source_ip key m (get m.source_ip registry.writers)
    ∙ here (Bool-cases (text_eq m.source_ip key))
  where
    here :
        ((text_eq m.source_ip key ≡ true) ⊎ (text_eq m.source_ip key ≡ false))
        → (if text_eq m.source_ip key
            then enqueue_raw (writer_of registry m.source_ip) m
            else writer_of registry key)
          ≡ (if text_eq m.source_ip key
              then enqueue_raw (writer_of registry key) m
              else writer_of registry key)
    here (inl same) =
        rw same
          (ap (λ k. enqueue_raw (writer_of registry k) m) ((text_eq_iff m.source_ip key).0 same))
    here (inr other) = rw other refl

-- Whatever sources send, and in whatever order their messages mix, the writer of a device is in the
-- state in which its own messages alone would have brought it: another device's flood drops none
-- of them.
pub deliver_all-writer_of :
    (ms : List RawMessage) (registry : DeviceRegistry) (key : Text)
    → writer_of (deliver_all registry ms) key
      ≡ enqueue_all (writer_of registry key) (keep (is_from key) ms)
unfolding deliver_all enqueue_all
deliver_all-writer_of [] registry key = refl
deliver_all-writer_of (m ∷ ms) registry key =
    deliver_all-writer_of ms (deliver registry m) key
    ∙ ap (λ w. enqueue_all w (keep (is_from key) ms)) (deliver-writer_of registry m key)
    ∙ here (Bool-cases (is_from key m))
  where
    here :
        ((is_from key m ≡ true) ⊎ (is_from key m ≡ false))
        → enqueue_all
            (if is_from key m
              then enqueue_raw (writer_of registry key) m
              else writer_of registry key)
            (keep (is_from key) ms)
          ≡ enqueue_all (writer_of registry key) (keep (is_from key) (m ∷ ms))
    here (inl same) = rw same refl
    here (inr other) = rw other refl
