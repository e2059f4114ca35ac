-- ===== src/Sweeper/Lost.antt =====
-- What a sweep loses when the driver fails half-way.
use chronos_monitor.Prelude.{test_of_ne, eq_refl, ◌≡◌, ◌≢◌, refl, List, [], ◌∷◌, some, true}
use chronos_monitor.Clock.{Time}
use chronos_monitor.Database.{TaskRow, ScheduleRow, done, refused, exec, query, query_row}
use chronos_monitor.Database.Table.{update_where, count_where, find_where}
use chronos_monitor.Database.Rounds.{sweep_loop, candidates, found_in}
use chronos_monitor.Tasks.{sweep_timeouts, visit, get, get_row, scan_task_run}
use chronos_monitor.Tasks.Sweep.{
  quiet, is_overdue, timed_out_row, overdue-candidate, sweep_timeouts_lem,
}
use chronos_monitor.Broker.{Hub}
use chronos_monitor.Server.{Server}
use chronos_monitor.Sweeper.{sweep_once}

-- Two runs, and a driver that carries out the statements of a sweep up to the update of the second
-- run and refuses that.
abbrev pub half_way : TaskRow → TaskRow → List ScheduleRow → Hub → Server
half_way a b schedules hub = record {
  db = record {
    task_runs = a ∷ b ∷ [];
    task_schedules = schedules;
    outcomes = done ∷ done ∷ done ∷ done ∷ refused ∷ [];
  };
  hub = hub;
}

module _ (now : Time) (a b : TaskRow) (schedules : List ScheduleRow) (n : b.run_id ≢ a.run_id) where
  sweep_half :
      (hub : Hub)
      → is_overdue now a ≡ true
      → is_overdue now b ≡ true
      → sweep_once now (half_way a b schedules hub)
        ≡ some (record { db = quiet (timed_out_row now a ∷ b ∷ []) schedules; hub = hub })
  unfolding sweep_once sweep_timeouts sweep_loop candidates visit get get_row exec query query_row
      find_where count_where update_where
  sweep_half hub la lb =
      let (ttl_a, found_a, run_a, late_a) =
        overdue-candidate now schedules a.status a.ttl_seconds a la in
      let (ttl_b, found_b, run_b, late_b) =
        overdue-candidate now schedules b.status b.ttl_seconds b lb in
      rw
        (
          found_a,
          found_b,
          late_a,
          eq_refl a.run_id,
          test_of_ne b.run_id a.run_id n,
          run_a,
          eq_refl a.run_id,
          late_b,
        )
        refl

  found-later :
      (later : Time)
      → (sweep_timeouts later (quiet (timed_out_row now a ∷ b ∷ []) schedules)).0.found
        ≡ found_in (is_overdue later) (timed_out_row later) scan_task_run (b ∷ [])
  unfolding found_in
  found-later later =
      rw (sweep_timeouts_lem later (timed_out_row now a ∷ b ∷ []) schedules ((n, tt), (tt, tt)))
        refl

-- For two overdue runs, when the driver carries out the statements up to the update of the second
-- run and refuses that, the first run is timed out and nothing is published for it. A later sweep
-- without an error does not find it any more: all it can find is the second run.
pub sweep_once-lost :
    (now later : Time) (a b : TaskRow) (schedules : List ScheduleRow) (hub : Hub)
    → b.run_id ≢ a.run_id
    → is_overdue now a ≡ true
    → is_overdue now b ≡ true
    → (sweep_once now (half_way a b schedules hub)
        ≡ some (record { db = quiet (timed_out_row now a ∷ b ∷ []) schedules; hub = hub }))
      × ((sweep_timeouts later (quiet (timed_out_row now a ∷ b ∷ []) schedules)).0.found
          ≡ found_in (is_overdue later) (timed_out_row later) scan_task_run (b ∷ []))
sweep_once-lost now later a b schedules hub n la lb =
    (sweep_half now a b schedules n hub la lb, found-later now a b schedules n later)
