-- ===== src/Tests/Receiving.antt =====
-- A device's writer that finds a torn file (sylo/receiver/device_writer.py).
use sylo.Base.{◌≡◌, ◌⊎◌, refl, Bool, true, false, [], ◌∷◌, ◌++◌, map, none, some}
use sylo.Text.{Bytes, Text, codes}
use sylo.Text.Utf8.{encode}
use sylo.Dict.{get}
use sylo.Stats.{no_stats}
use sylo.Rebuild.Lines.{join_lines}
use sylo.DeviceWriter.{
  DeviceWriter, completes, ingests, takes, ends_line, or_empty, write_path, run_writer, member,
}
use sylo.DeviceWriter.Whole.{IsWhole, write_path-separate}
use sylo.Envelope.{from_raw}
use sylo.DeviceWriter.Cleaned.{lines_for, written}
use sylo.DeviceWriter.Delivered.{recorded, admitted_raws, recorded-run_writer}
use sylo.Tests.Indexing.{message}

abbrev path : Text
path = codes "10.0.0.9/2024-05-06.log"

abbrev pub writer : DeviceWriter
writer = record {
  device_key = codes "10.0.0.9";
  config = record {
    queue_soft_limit = 5;
    queue_hard_limit = 10;
    flush_max_messages = 1;
    fsync_interval_seconds = 1;
    outcome = λ path f lines. completes;
  };
  stats = no_stats;
  queue = [];
  buffer = [];
  last_fsync = 0;
  stopping = false;
  sanitized_paths = [];
  files = (path, codes "torn") ∷ [];
}

writer-IsWhole : IsWhole writer
unfolding member
writer-IsWhole = record { whole = λ path h. cc h }

abbrev pub disk_ok : Text → Bool
disk_ok p = true

write_path-separate_example :
    (g : Bytes) × (ends_line g ≡ true)
    × ((g ≡ or_empty (get path writer.files))
        ⊎ (g ≡ or_empty (get path writer.files) ++ b'\n' ∷ []))
    × (get path (write_path disk_ok writer path (codes "a" ∷ codes "b" ∷ [])).files
        ≡ some (g ++ encode (join_lines (codes "a" ∷ codes "b" ∷ []))))
write_path-separate_example =
    write_path-separate disk_ok writer path (codes "a") (codes "b" ∷ []) writer-IsWhole

disk_never_fails : (p : Text) → disk_ok p ≡ true
disk_never_fails p = refl

recorded-run_writer_example :
    recorded
      (run_writer disk_ok (writer, none) (ingests message ∷ takes 1 2 ∷ [])).0
      (codes "2024-05-06")
    ≡ recorded writer (codes "2024-05-06")
      ++ written (
          lines_for (codes "2024-05-06") (
            map from_raw (
              admitted_raws disk_ok disk_never_fails
                (writer, none)
                (ingests message ∷ takes 1 2 ∷ []))))
recorded-run_writer_example =
    recorded-run_writer disk_ok disk_never_fails (ingests message ∷ takes 1 2 ∷ []) writer none
      (codes "2024-05-06")
