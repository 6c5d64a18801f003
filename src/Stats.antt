-- ===== src/Stats.antt =====
-- sylo/stats.py: the overload counters, and the registry of those of the devices.
use sylo.Base.{ℕ, Option, none, some}
use sylo.Text.{Text}
use sylo.Dict.{Dict, get, set}

pub record QueueStats : Type 0 where
  pub queued : ℕ
  pub lag_warnings : ℕ
  pub dropped : ℕ
  pub written : ℕ

abbrev pub no_stats : QueueStats
no_stats = record { queued = 0; lag_warnings = 0; dropped = 0; written = 0 }

-- `StatsRegistry`.
abbrev pub StatsRegistry : Type 0
StatsRegistry = Dict QueueStats

abbrev or_new : Text → StatsRegistry → Option QueueStats → QueueStats × StatsRegistry
or_new device_key entries none = (no_stats, set device_key no_stats entries)
or_new device_key entries (some stats) = (stats, entries)

unfoldable pub for_device : StatsRegistry → Text → QueueStats × StatsRegistry
for_device entries device_key = or_new device_key entries (get device_key entries)

-- `snapshot`: a copy.
unfoldable pub snapshot : StatsRegistry → Dict QueueStats
snapshot entries = entries
