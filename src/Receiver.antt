-- ===== src/Receiver.antt =====
-- `SyslogServer` (sylo/receiver/server.py): the parts that a receiver starts and stops, and in which
-- order. A socket that cannot be bound is an argument: the text of its exception. The tasks of the
-- writers and of the indexer are as in DeviceWriter and Indexer; the clock of a writer's last turn is
-- an argument, by device.
pub mod Main
pub mod Shutdown
pub mod Retry
pub mod Released
pub mod System
pub mod Lifetime
pub mod Taken
pub mod Sent
pub mod Handed
pub mod Indexed
use sylo.Base.{ℕ, Bool, true, false, List, [], ◌∷◌, ◌++◌, Option, none, some}
use sylo.Text.{Bytes, Text}
use sylo.Envelope.{RawMessage}
use sylo.Schema.{Row, MonthDb}
use sylo.Dict.{Dict}
use sylo.Stats.{no_stats}
use sylo.Indexer.{Indexer, IndexerConfig, stops, turn, step}
use sylo.DeviceWriter.{DeviceWriter, WriterConfig}
use sylo.DeviceWriter.Rebuilt.{stop_writer}
use sylo.DeviceWriter.Registry.{DeviceRegistry}

-- A transport or a listening server: not there, open, or closed.
pub data Endpoint : Type 0 where
  absent : Endpoint
  listening : Endpoint
  closed : Endpoint

pub record SyslogServer : Type 0 where
  pub indexer : Option Indexer
  pub registry : Option DeviceRegistry
  pub udp_transport : Endpoint
  pub tcp_server : Endpoint
  pub executor_open : Bool

abbrev pub new_server : SyslogServer
new_server = record {
  indexer = none;
  registry = none;
  udp_transport = absent;
  tcp_server = absent;
  executor_open = true;
}

-- `Indexer(...)`, over the databases that are there.
unfoldable pub new_indexer : IndexerConfig → Dict MonthDb → Indexer
new_indexer config index = record {
  config = config;
  stats = no_stats;
  queue = [];
  buffer = [];
  stopping = false;
  index = index;
}

-- An exception of `stop`: the call that raises, and what has become of the registry and the indexer.
pub data StopError : Type 0 where
  in_wait_closed : StopError
  in_stop_all : Option DeviceRegistry → Option Indexer → StopError
  in_indexer_stop : Option Indexer → StopError

-- What a start finds: the configurations, the files and databases on the disk, and the errors of the
-- two binds.
pub record Surroundings : Type 0 where
  pub indexer_config : IndexerConfig
  pub config : WriterConfig
  pub on_disk : Text → Dict Bytes
  pub index : Dict MonthDb
  pub udp_error : Option Text
  pub tcp_error : Option Text

abbrev pub bind_tcp : SyslogServer → Option Text → SyslogServer × Option Text
bind_tcp s none = (record s { tcp_server = listening }, none)
bind_tcp s (some error) = (s, some error)

abbrev pub bind_udp : SyslogServer → Option Text → Option Text → SyslogServer × Option Text
bind_udp s none tcp_error = bind_tcp (record s { udp_transport = listening }) tcp_error
bind_udp s (some error) tcp_error = (s, some error)

-- `start`, with the text of the exception that ends it.
unfoldable pub start_server : Surroundings → SyslogServer → SyslogServer × Option Text
start_server around s =
    bind_udp
      (record s {
        indexer = some (new_indexer around.indexer_config around.index);
        registry = some (record { config = around.config; on_disk = around.on_disk; writers = [] });
      })
      around.udp_error around.tcp_error

abbrev pub close : Endpoint → Endpoint
close absent = absent
close listening = closed
close closed = closed

module _ (disk_ok : Text → Bool) (clock : Text → ℕ × ℕ) where
  -- `stop_all`: each writer drains what it has left.
  unfoldable pub stop_all : Dict DeviceWriter → Option Indexer → Dict DeviceWriter × Option Indexer
  stop_all [] ix = ([], ix)
  stop_all ((key, w) ∷ ws) ix =
      let (w', ix') = stop_writer disk_ok (w, ix) (clock key).0 (clock key).1 in
      let (ws', ix'') = stop_all ws ix' in ((key, w') ∷ ws', ix'')

  abbrev pub stop_registry :
      Option DeviceRegistry → Option Indexer → Option DeviceRegistry × Option Indexer
  stop_registry none ix = (none, ix)
  stop_registry (some registry) ix =
      let (writers, ix') = stop_all registry.writers ix in
      (some (record registry { writers = writers }), ix')

module _ (accepts : Row → Bool) (batch_ok : Text → Bool) where
  -- `Indexer.stop`: the flag, and the turn in which the task drains its queue and ends.
  abbrev pub stop_indexer : Option Indexer → Option Indexer
  stop_indexer none = none
  stop_indexer (some ix) = some (turn accepts batch_ok (step accepts batch_ok ix stops))

  module _ (disk_ok : Text → Bool) (clock : Text → ℕ × ℕ) where
    unfoldable pub stop_server : SyslogServer → SyslogServer
    stop_server s =
        let (registry, indexer) = stop_registry disk_ok clock s.registry s.indexer in
        record s {
          udp_transport = close s.udp_transport;
          tcp_server = close s.tcp_server;
          registry = registry;
          indexer = stop_indexer indexer;
          executor_open = false;
        }

    -- Where `stop` raises, with what the tasks leave: in `wait_closed`, in the `stop_all` of the
    -- registry, or in the stop of the indexer. The executor is not shut then.
    unfoldable pub stop_raising : StopError → SyslogServer → SyslogServer
    stop_raising in_wait_closed s = record s {
      udp_transport = close s.udp_transport;
      tcp_server = close s.tcp_server;
    }
    stop_raising (in_stop_all registry indexer) s = record s {
      udp_transport = close s.udp_transport;
      tcp_server = close s.tcp_server;
      registry = registry;
      indexer = indexer;
    }
    stop_raising (in_indexer_stop indexer) s = record s {
      udp_transport = close s.udp_transport;
      tcp_server = close s.tcp_server;
      registry = (stop_registry disk_ok clock s.registry s.indexer).0;
      indexer = indexer;
    }

    abbrev pub stop_or_raise : Option StopError → SyslogServer → SyslogServer
    stop_or_raise none s = stop_server s
    stop_or_raise (some error) s = stop_raising error s
