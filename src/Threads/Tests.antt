-- ===== src/Threads/Tests.antt =====
-- The server's threads at concrete states.
use chronos_monitor.Prelude.{pos, ◌≡◌, List, [], ◌∷◌, some, arith}
use chronos_monitor.Database.{done, refused}
use chronos_monitor.Server.{Response}
use chronos_monitor.System.{start}
use chronos_monitor.System.Invariant.{IsHealthy}
use chronos_monitor.System.Samples.{parser, format, collates, at, backup, running_row}
use chronos_monitor.Threads.{
  Point, Pool, Turn, arriving, sweep_due, moving, joining, thread_at, turns,
}
use chronos_monitor.Threads.Ticks.{Tick}
use chronos_monitor.Threads.Interleavings.{new_pool, new_pool-IsOrderly, IsOrderly, new_pool-turns}
use chronos_monitor.Threads.Answers.{turns-answered}
use chronos_monitor.Threads.Settled.{Settled}
use chronos_monitor.Tasks.{finish_row}
use chronos_monitor.Tasks.Sweep.{quiet}
use chronos_monitor.TaskHandler.Requests.{at_hub}
use chronos_monitor.Models.{TaskStatus}
use chronos_monitor.Database.{TaskRow}
use chronos_monitor.Broker.{new_hub}
use chronos_monitor.Threads.Continuing.{turns-Continues}
use chronos_monitor.Tasks.Lifecycle.{Continues}

-- A run starts while a sweep is under way and a subscriber joins.
abbrev busy : List Turn
busy =
    sweep_due (at 0)
    ∷ arriving (start (some backup) "u1") (at 1)
    ∷ moving 1
    ∷ moving 0
    ∷ joining
    ∷ moving 1
    ∷ moving 0
    ∷ moving 1
    ∷ []

new_pool-turns_example :
    (pool : Pool) × (turns format parser collates busy (new_pool (done ∷ refused ∷ [])) ≡ some pool)
    × IsHealthy format parser collates pool.server
new_pool-turns_example = new_pool-turns format parser collates busy (done ∷ refused ∷ [])

-- The sweep that is under way makes its accesses between those of the request.
abbrev sweeping_pool : Pool
sweeping_pool = record (new_pool []) { threads = Point.sweeping (at 60) Tick.querying ∷ [] }

sweeping_pool-IsOrderly : IsOrderly format parser collates sweeping_pool
sweeping_pool-IsOrderly = record {
  healthy = (new_pool-IsOrderly format parser collates []).healthy;
  legal = (tt, tt);
}

turns-answered_example :
    (pool' : Pool) × (r : Response) × (turns format parser collates
        (arriving (start (some backup) "u1") (at 1)
          ∷ moving 1
          ∷ moving 0
          ∷ moving 1
          ∷ moving 0
          ∷ moving 1
          ∷ moving 1
          ∷ [])
        sweeping_pool
      ≡ some pool')
    × (thread_at 1 pool'.threads ≡ some (Point.answered r))
turns-answered_example =
    turns-answered format parser collates (start (some backup) "u1") (at 1)
      (moving 1 ∷ moving 0 ∷ moving 1 ∷ moving 0 ∷ moving 1 ∷ moving 1 ∷ []) sweeping_pool
      sweeping_pool-IsOrderly (omega arith)

-- A run starts, and a sweep later reads the table while the run is reported.
abbrev at_first : List Turn
at_first = arriving (start (some backup) "u1") (at 1) ∷ moving 0 ∷ moving 0 ∷ moving 0 ∷ []

abbrev later_on : List Turn
later_on = sweep_due (at 60) ∷ moving 1 ∷ moving 1 ∷ moving 1 ∷ []

turns-Continues_example :
    (mid end : Pool) × (turns format parser collates at_first (new_pool []) ≡ some mid)
    × (turns format parser collates later_on mid ≡ some end)
    × Continues mid.server.db.task_runs end.server.db.task_runs
turns-Continues_example =
    turns-Continues format parser collates at_first later_on [] (tt, (tt, (tt, (tt, tt))))
      (tt, (tt, (tt, (tt, tt))))

-- A run that was reported as successful after a sweep had read it as running.
abbrev reported_row : TaskRow
reported_row = finish_row TaskStatus.success (at 40) (pos 40000) "" (running_row "a")

abbrev late_sweep : Pool
late_sweep = record {
  server = at_hub (quiet (reported_row ∷ []) []) new_hub;
  threads =
      Point.sweeping (at 60)
        (Tick.visiting (record { run_id = "a"; reference = at 0; ttl = pos 30 } ∷ []) [])
      ∷ [];
}
