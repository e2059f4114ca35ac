-- ===== src/System/Samples.antt =====
-- Samples that the tests of the server share.
use chronos_monitor.Prelude.{ℕ, ◌*◌, String, Bool, pos, [], Option, none, some, true}
use chronos_monitor.Clock.{Time, second}
use chronos_monitor.Models.{StartRequest}
use chronos_monitor.Database.{TaskRow}
use chronos_monitor.Tasks.{created_row}
use chronos_monitor.Broker.{Hub, new_hub, subscribe}
use chronos_monitor.Broker.Publishing.{IsSound}
use chronos_monitor.Broker.Soundness.{new_hub-IsSound, subscribe-IsSound}
use chronos_monitor.Server.{Server}
use chronos_monitor.TaskHandler.{started_run}
use chronos_monitor.System.Runs.{new_server}

-- A cron library that knows no expression, the time's text and the order of names at their simplest.
abbrev pub parser : String → Option (Time → Time)
parser expression = none

abbrev pub format : Time → String
format at = "then"

abbrev pub collates : String → String → Bool
collates a b = true

abbrev pub at : ℕ → Time
at n = pos (n * second)

abbrev pub backup : StartRequest
backup = record {
  task_name = "nightly-backup";
  run_id = "";
  source = "cron";
  ttl_seconds = some (pos 30);
}

-- Started at 0, with a TTL of 30 seconds.
abbrev pub running_row : String → TaskRow
running_row run_id = created_row (started_run backup run_id (pos 0))

abbrev pub watched : Hub
watched = (subscribe new_hub).1

pub watched-IsSound : IsSound watched
watched-IsSound = subscribe-IsSound new_hub new_hub-IsSound

abbrev pub idle : Server
idle = new_server []
