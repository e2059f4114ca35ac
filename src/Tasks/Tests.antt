-- ===== src/Tasks/Tests.antt =====
-- The task store at concrete tables.
use chronos_monitor.Prelude.{
  ltb_ℤ, if◌then◌else◌, String, ne_of_test, ℤ, pos, ◌≡◌, refl, List, [], ◌∷◌, map, Option, none,
  some, arith, ◌+ℤ◌, ◌-ℤ◌, ◌*ℤ◌, Elem, inl, ◌*◌,
}
use chronos_monitor.Clock.{second, sub, duration_of, wrap64}
use chronos_monitor.Models.{TaskStatus, TaskRun}
use chronos_monitor.Database.{TaskRow, Outcome, ok, exec, query, query_row}
use chronos_monitor.Database.Rounds.{swept_row, found_in, sweep_loop, candidates}
use chronos_monitor.Database.Table.{count_where, find_where, update_where, select_where}
use chronos_monitor.Tasks.{
  create, get, list, sweep_timeouts, delete_older_than, scan_task_run, created_row, get_row, visit,
  newest_first, insert_newest,
}
use chronos_monitor.Database.Keys.{IsDistinct}
use chronos_monitor.Tasks.Invariant.{run_key, IsWellFormed}
use chronos_monitor.Tasks.Sweep.{quiet, is_overdue, timed_out_row, sweep_timeouts_lem}
use chronos_monitor.Tasks.Client.{get-sweep_deadline, get-sweep-create_overflow}
use chronos_monitor.Tasks.Reach.{Call, creating, sweeping, finishing}
use chronos_monitor.Tasks.Retention.{delete_older_than-running}
use chronos_monitor.Tasks.Listing.{IsListing, list_lem}

abbrev run_with : String → ℤ → Option ℤ → TaskRun
run_with run_id start ttl = record {
  run_id = run_id;
  task_name = "nightly-backup";
  source = "cron";
  status = TaskStatus.running;
  started_at = start;
  finished_at = none;
  last_heartbeat_at = none;
  ttl_seconds = ttl;
  duration_ms = none;
  error_message = "";
}

-- Started at 0, with a TTL of 30 seconds.
abbrev short : TaskRow
short = created_row (run_with "a" (pos 0) (some (pos 30)))

abbrev long : TaskRow
long = created_row (run_with "b" (pos 5) none)

abbrev table : List TaskRow
table = short ∷ long ∷ []

abbrev minute : ℤ
minute = pos (60 * second)

abbrev half_minute : ℤ
half_minute = pos (30 * second)

IsDistinct-table : IsDistinct run_key table
IsDistinct-table = ((ne_of_test "b" "a" refl, tt), (tt, tt))

sweep_timeouts_example : sweep_timeouts minute (quiet table []) ≡ (
  record {
    found = found_in (is_overdue minute) (timed_out_row minute) scan_task_run table;
    error = none;
  },
  quiet (map (swept_row (is_overdue minute) (timed_out_row minute)) table) [],
)
sweep_timeouts_example = sweep_timeouts_lem minute table [] IsDistinct-table

get-sweep_deadline_example :
    (get "a" (sweep_timeouts (pos 7) (quiet table [])).1).0
    ≡ ok (scan_task_run (if ltb_ℤ half_minute (pos 7) then timed_out_row (pos 7) short else short))
unfolding ◌-ℤ◌ ◌+ℤ◌
get-sweep_deadline_example =
    get-sweep_deadline [] [] (long ∷ []) short IsDistinct-table (pos 7) 30 refl refl (omega arith)
      (omega arith) (omega arith)

-- A TTL of about 316 years.
abbrev endless : TaskRun
endless = run_with "c" (pos 9) (some (pos 10000000000))

get-sweep-create_overflow_example :
    (get "c" (sweep_timeouts (pos 9) (create endless (quiet table [])).1).1).0
    ≡ ok (scan_task_run (timed_out_row (pos 9) (created_row endless)))
get-sweep-create_overflow_example =
    get-sweep-create_overflow endless table [] 10000000000 IsDistinct-table
      (ne_of_test "a" "c" refl, (ne_of_test "b" "c" refl, tt)) refl refl (omega arith) (omega arith)

-- Statements that fail on the way.
abbrev rough : List Outcome
rough = Outcome.done ∷ Outcome.lost ∷ Outcome.refused ∷ Outcome.uncounted ∷ []

abbrev script : List Call
script =
    creating (run_with "a" (pos 0) (some (pos 30)))
    ∷ creating (run_with "b" (pos 5) none)
    ∷ sweeping minute
    ∷ finishing "b" TaskStatus.success "" minute
    ∷ []

IsWellFormed-table : IsWellFormed (quiet table [])
IsWellFormed-table = record {
  distinct = IsDistinct-table;
  shaped = (((refl, refl), λ e. cc), (((refl, refl), λ e. cc), tt));
}

delete_older_than-running_example :
    Elem short (delete_older_than minute (quiet table [])).1.task_runs
delete_older_than-running_example =
    delete_older_than-running minute (quiet table []) short IsWellFormed-table (inl refl) refl

list_example :
    (picked : List TaskRow) × (list "running" (quiet table [])
      ≡ (ok (map scan_task_run picked), quiet table []))
    × IsListing "running" table picked
list_example = list_lem "running" table []

-- Opens what a run of the store goes through.
store : Unit {0}
unfolding get get_row sweep_timeouts query query_row exec sweep_loop candidates visit sub ◌-ℤ◌
    duration_of wrap64 ◌*ℤ◌ count_where find_where update_where scan_task_run list select_where
    newest_first insert_newest
store = tt

-- Runs of the code itself.
sweep_once :
    (get "a" (sweep_timeouts minute (quiet table [])).1).0
    ≡ ok (record (scan_task_run short) {
      status = TaskStatus.timeout;
      finished_at = some minute;
      duration_ms = some (pos 60000);
      error_message = "task exceeded TTL without heartbeat or completion";
    })
unfolding store
sweep_once = refl

list_once : (list "" (quiet table [])).0 ≡ ok (scan_task_run long ∷ scan_task_run short ∷ [])
unfolding store
list_once = refl
