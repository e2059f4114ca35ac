-- ===== src/StreamHandler/Tests.antt =====
-- The stream of a concrete client.
use chronos_monitor.Prelude.{refl, ◌≡◌, List, [], ◌∷◌, ◌++◌, map, some, pos, none, arith}
use chronos_monitor.Models.{TaskRun, TaskStatus}
use chronos_monitor.Broker.{Event, EventType, Hub, new_hub}
use chronos_monitor.Broker.Publishing.{IsSound}
use chronos_monitor.Broker.Soundness.{new_hub-IsSound}
use chronos_monitor.StreamHandler.{message_of, Moment, published, woken, serve_stream}
use chronos_monitor.StreamHandler.Turns.{events_of, received, turns}
use chronos_monitor.StreamHandler.Order.{serve_stream_lem, serve_stream-turns}

abbrev task : TaskRun
task = record {
  run_id = "a";
  task_name = "nightly-backup";
  source = "";
  status = TaskStatus.running;
  started_at = pos 0;
  finished_at = none;
  last_heartbeat_at = some (pos 0);
  ttl_seconds = none;
  duration_ms = none;
  error_message = "";
}

abbrev moments : List Moment
moments =
    woken
    ∷ published (record { kind = EventType.started; task = task })
    ∷ published (record { kind = EventType.heartbeat; task = task })
    ∷ woken
    ∷ []

serve_stream_lem_example :
    (unsent : List Event) × (end : Hub) × (serve_stream moments new_hub
      ≡ some (map message_of (received moments []), end))
    × (received moments [] ++ unsent ≡ events_of moments)
    × IsSound end
serve_stream_lem_example = serve_stream_lem moments new_hub new_hub-IsSound (omega arith)

serve_stream-turns_example :
    (end : Hub) × (serve_stream (moments ++ turns 2) new_hub
      ≡ some (map message_of (events_of moments), end))
    × IsSound end
serve_stream-turns_example =
    serve_stream-turns moments 2 new_hub new_hub-IsSound (omega arith) (omega arith)

-- One of the two events was sent.
received_first : map (λ evt. evt.kind) (received moments []) ≡ EventType.started ∷ []
received_first = refl
