-- ===== src/Dispatcher/Tests.antt =====
-- The rate limit at concrete events.
use chronos_monitor.Prelude.{ℕ, ◌-◌, ◌≤◌, ◌+ℤ◌, pos, ◌≡◌, refl, [], ◌∷◌, ◌++◌, none, some, arith}
use chronos_monitor.Models.{TaskStatus}
use chronos_monitor.Broker.{Event, EventType}
use chronos_monitor.Dispatcher.{new_dispatcher, handle, run}
use chronos_monitor.Dispatcher.Limit.{count_sent, count_sent-run}
use chronos_monitor.Dispatcher.Burst.{repeated, count_sent_burst}

abbrev failure : Event
failure = record {
  kind = EventType.failed;
  task = record {
    run_id = "a";
    task_name = "nightly-backup";
    source = "";
    status = TaskStatus.failed;
    started_at = pos 0;
    finished_at = some (pos 4);
    last_heartbeat_at = some (pos 0);
    ttl_seconds = none;
    duration_ms = some (pos 0);
    error_message = "boom";
  };
}

abbrev minute : ℕ
minute = 60000000000

count_sent-run_example :
    count_sent
      (run
        ((failure, pos 7) ∷ (failure, pos 8) ∷ [])
        (run ((failure, pos 5) ∷ []) (new_dispatcher (pos 1) (pos minute))).1).0
    ≤ 2
unfolding ◌+ℤ◌
count_sent-run_example =
    count_sent-run 1 minute (pos 5) ((failure, pos 5) ∷ [])
      ((failure, pos 7) ∷ (failure, pos 8) ∷ []) (omega arith) (omega arith) (omega arith)
      ((omega arith), ((omega arith), tt))

-- The default limit of ten alerts a minute lets nineteen through within a nanosecond.
count_sent_burst_example :
    count_sent
      (run
        (repeated 9 failure (pos minute +ℤ pos (minute - 1))
          ++ repeated 10 failure (pos minute +ℤ pos minute))
        (handle failure (pos minute) (new_dispatcher (pos 10) (pos minute))).1).0
    ≡ 19
count_sent_burst_example =
    count_sent_burst 9 minute failure (pos minute) refl (omega arith) (omega arith) (omega arith)
