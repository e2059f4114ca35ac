-- ===== src/Sweeper.antt =====
-- internal/sweeper/sweeper.go: one tick of the TTL sweep. The clock's reading is an argument; the
-- lines in the log are left out.
pub mod Publishing
pub mod Lost
use chronos_monitor.Prelude.{List, [], map, Option, none, some}
use chronos_monitor.Clock.{Time}
use chronos_monitor.Models.{TaskRun}
use chronos_monitor.Database.{Db, Error}
use chronos_monitor.Database.Rounds.{Swept}
use chronos_monitor.Tasks.{sweep_timeouts}
use chronos_monitor.Broker.{EventType, Event, Hub}
use chronos_monitor.Broker.Runs.{publish_all}
use chronos_monitor.Server.{Server, with_db}

abbrev pub timeout_event : TaskRun → Event
timeout_event task = record { kind = EventType.timeout; task = task }

-- An error ends the tick, whatever was swept before it.
abbrev pub publish_swept :
    {A : Type 0} → (A → Event) → Option Error → List A → Db → Hub → Option Server
publish_swept event_of (some e) found db hub = some (record { db = db; hub = hub })
publish_swept event_of none found db hub = with_db db (publish_all (map event_of found) hub)

abbrev pub after_sweep : {A : Type 0} → (A → Event) → Swept A × Db → Hub → Option Server
after_sweep event_of (swept, db) hub = publish_swept event_of swept.error swept.found db hub

unfoldable pub sweep_once : Time → Server → Option Server
sweep_once now s = after_sweep timeout_event (sweep_timeouts now s.db) s.hub
