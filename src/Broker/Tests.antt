-- ===== src/Broker/Tests.antt =====
-- The hub at concrete runs.
use chronos_monitor.Prelude.{ℕ, zero, suc, pos, refl, List, [], ◌∷◌, none, some, false, arith}
use chronos_monitor.Models.{TaskRun, TaskStatus}
use chronos_monitor.Broker.{Event, EventType, Hub}
use chronos_monitor.Broker.Publishing.{IsSound}
use chronos_monitor.Broker.Runs.{Call, subscribing, unsubscribing, publishing, receiving}

abbrev task : TaskRun
task = record {
  run_id = "a";
  task_name = "nightly-backup";
  source = "";
  status = TaskStatus.failed;
  started_at = pos 0;
  finished_at = some (pos 4);
  last_heartbeat_at = some (pos 0);
  ttl_seconds = none;
  duration_ms = some (pos 0);
  error_message = "boom";
}

abbrev failure : Event
failure = record { kind = EventType.failed; task = task }

abbrev many : ℕ → List Event
many zero = []
many (suc n) = failure ∷ many n

-- Two subscribers, one of which leaves twice.
abbrev script : List Call
script =
    subscribing
    ∷ subscribing
    ∷ publishing failure
    ∷ unsubscribing 0
    ∷ unsubscribing 0
    ∷ publishing failure
    ∷ receiving 1
    ∷ []

abbrev listened : Hub
listened = record { channels = λ _. record { queue = []; closed = false }; next = 1; subs = 0 ∷ [] }

listened-IsSound : IsSound listened
listened-IsSound = record {
  distinct = (tt, tt);
  live = ((omega arith, refl), tt);
  bounded = λ id. omega arith;
}
