-- ===== src/Threads/Race.antt =====
-- A report of success that overtakes a sweep.
use chronos_monitor.Prelude.{◌≡◌, refl, map, Option, none, List, [], ◌∷◌, some, ◌-ℤ◌, ◌*ℤ◌}
use chronos_monitor.Clock.{sub, duration_of, wrap64}
use chronos_monitor.Models.{TaskStatus}
use chronos_monitor.Database.{exec, query, query_row, check_rows_affected}
use chronos_monitor.Database.Table.{update_where, count_where, find_where}
use chronos_monitor.Database.Rounds.{candidates}
use chronos_monitor.Tasks.{get_row, get, scan_task_run}
use chronos_monitor.Tasks.Sweep.{quiet}
use chronos_monitor.Broker.{EventType, publish, send_all, send, subscribe, has_sub}
use chronos_monitor.TaskHandler.Requests.{at_hub}
use chronos_monitor.System.{success}
use chronos_monitor.System.Samples.{parser, format, collates, at, running_row, watched}
use chronos_monitor.Threads.{
  Point, enter, Pool, moving, after_statement, at_point, with_tick, end_run, move, turn, turns,
}
use chronos_monitor.Threads.Ticks.{Tick, tick_move}

-- What the subscriber with the number 0 has to receive.
abbrev pending : Option Pool → List (EventType × TaskStatus)
pending none = []
pending (some pool) = map (λ evt. (evt.kind, evt.task.status)) (pool.server.hub.channels 0).queue

-- A report of success that comes between the UPDATE of a sweep and its SELECT.
abbrev overtaken : Pool
overtaken = record {
  server = at_hub (quiet (running_row "a" ∷ []) []) watched;
  threads =
      Point.sweeping (at 60) Tick.querying
      ∷ enter (success (some (record { run_id = "a" }))) (at 61)
      ∷ [];
}

timeout_of_success :
    pending (
      turns format parser collates
        (moving 0 ∷ moving 0 ∷ moving 1 ∷ moving 1 ∷ moving 0 ∷ moving 0 ∷ moving 0 ∷ [])
        overtaken)
    ≡ (EventType.timeout, TaskStatus.success) ∷ []
unfolding turns turn move tick_move enter with_tick after_statement at_point exec query query_row
    candidates get get_row end_run check_rows_affected update_where count_where find_where
    scan_task_run publish send_all send subscribe has_sub sub duration_of wrap64 ◌-ℤ◌ ◌*ℤ◌
timeout_of_success = refl
