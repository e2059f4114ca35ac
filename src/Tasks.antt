-- ===== src/Tasks.antt =====
-- internal/store/task_store.go: every method of `TaskStore`, over the table task_runs.
pub mod Effects
pub mod Invariant
pub mod Lifecycle
pub mod Sweep
pub mod Methods
pub mod Deadline
pub mod Reach
pub mod Client
mod Tests
pub mod Retention
pub mod Listing
use mathlib.Core.Option
use chronos_monitor.Prelude.{
  ℕ, zero, suc, String, ℤ, pos, ltb_ℤ, leb_ℤ, str_eq, List, [], ◌∷◌, ◌++◌, map, take, Option, none,
  some, Bool, true, false, ◌&&◌, if◌then◌else◌,
}
use chronos_monitor.Clock.{Time, Duration, sub, duration_of, second, milliseconds}
use chronos_monitor.Models.{TaskStatus, status_text, is_running, TaskRun}
use chronos_monitor.Database.{
  TaskRow, Db, Error, not_found, driver, duplicate_key, Result, ok, err, M, pure, raise, ◌>>=◌,
  Write, RowsAffected, exec, query_row, query, affected_or_zero, check_rows_affected,
}
use chronos_monitor.Database.Rounds.{Visit, skipped, Swept, after_update, sweep_from, candidates}
use chronos_monitor.Database.Table.{
  select_where, update_where, delete_where, count_where, find_where,
}

-- `WHERE run_id = ?`
abbrev pub has_run_id : String → TaskRow → Bool
has_run_id run_id row = str_eq row.run_id run_id

abbrev pub text_or_empty : Option String → String
text_or_empty none = ""
text_or_empty (some s) = s

-- `scanTaskRun`, for a row that is there
unfoldable pub scan_task_run : TaskRow → TaskRun
scan_task_run row = record {
  run_id = row.run_id;
  task_name = row.task_name;
  source = text_or_empty row.source;
  status = row.status;
  started_at = row.started_at;
  finished_at = row.finished_at;
  last_heartbeat_at = row.last_heartbeat_at;
  ttl_seconds = row.ttl_seconds;
  duration_ms = row.duration_ms;
  error_message = text_or_empty row.error_message;
}

-- `sql.ErrNoRows` becomes `ErrNotFound`.
abbrev pub or_not_found {ℓ} : {A : Type ℓ} → Option A → M A
or_not_found none = raise not_found
or_not_found (some a) = pure a

-- INSERT, with the columns that it names; run_id is the primary key.
abbrev pub created_row : TaskRun → TaskRow
created_row t = record {
  run_id = t.run_id;
  task_name = t.task_name;
  source = some t.source;
  status = t.status;
  started_at = t.started_at;
  finished_at = none;
  last_heartbeat_at = some t.started_at;
  ttl_seconds = t.ttl_seconds;
  duration_ms = none;
  error_message = none;
}

abbrev pub insert_unless : Option TaskRow → TaskRow → Write
insert_unless none row db = (ok 1, record db { task_runs = db.task_runs ++ row ∷ [] })
insert_unless (some old) row db = (err duplicate_key, db)

abbrev pub insert_run : TaskRow → Write
insert_run row db = insert_unless (find_where (has_run_id row.run_id) db.task_runs) row db

-- UPDATE and DELETE on task_runs
abbrev pub update_runs : (TaskRow → Bool) → (TaskRow → TaskRow) → Write
update_runs p f db =
    (ok (count_where p db.task_runs), record db { task_runs = update_where p f db.task_runs })

abbrev pub delete_runs : (TaskRow → Bool) → Write
delete_runs p db =
    (ok (count_where p db.task_runs), record db { task_runs = delete_where p db.task_runs })

unfoldable pub create : TaskRun → M (Unit {0})
create t = exec (insert_run (created_row t)) >>= λ _. pure tt

abbrev pub beat : Time → TaskRow → TaskRow
beat at row = record row { last_heartbeat_at = some at }

-- `WHERE run_id = ? AND status = 'running'`
abbrev pub is_running_run : String → TaskRow → Bool
is_running_run run_id row = has_run_id run_id row && is_running row.status

unfoldable pub heartbeat : String → Time → M (Unit {0})
heartbeat run_id at = exec (update_runs (is_running_run run_id) (beat at)) >>= check_rows_affected

abbrev pub finish_row : TaskStatus → Time → ℤ → String → TaskRow → TaskRow
finish_row status at duration message row = record row {
  status = status;
  finished_at = some at;
  duration_ms = some duration;
  error_message = some message;
}

unfoldable pub get_row : String → M TaskRow
get_row run_id = do
  found ← query_row (λ db. find_where (has_run_id run_id) db.task_runs)
  or_not_found found

unfoldable pub finish : String → TaskStatus → String → Time → M (Unit {0})
finish run_id status message at = do
  run ← get_row run_id
  let duration = milliseconds (sub at run.started_at)
  res ← exec (update_runs (has_run_id run_id) (finish_row status at duration message))
  check_rows_affected res

unfoldable pub get : String → M TaskRun
get run_id = do row ← get_row run_id; pure (scan_task_run row)

-- `SweepTimeouts`: what its loop over the rows keeps of each.
pub record Candidate : Type 0 where
  pub run_id : String
  pub reference : Time
  pub ttl : ℤ

abbrev pub reference_of : TaskRow → Time
reference_of row = Option.get_or row.last_heartbeat_at row.started_at

abbrev pub candidate_with : Bool → Option ℤ → TaskRow → Option Candidate
candidate_with false ttl row = none
candidate_with true none row = none
candidate_with true (some ttl) row =
    some (record { run_id = row.run_id; reference = reference_of row; ttl = ttl })

-- `WHERE status = 'running' AND ttl_seconds IS NOT NULL`
abbrev pub candidate_of : TaskRow → Option Candidate
candidate_of row = candidate_with (is_running row.status) row.ttl_seconds row

-- `now.Sub(c.reference) <= time.Duration(c.ttl)*time.Second`
abbrev pub within_ttl : Time → Candidate → Bool
within_ttl now c = leb_ℤ (sub now c.reference) (duration_of c.ttl second)

abbrev pub timeout_message : String
timeout_message = "task exceeded TTL without heartbeat or completion"

abbrev pub expire : Time → Candidate → Write
expire now c =
    update_runs (is_running_run c.run_id)
      (finish_row TaskStatus.timeout now (milliseconds (sub now c.reference)) timeout_message)

unfoldable pub visit : Time → Candidate → Db → Visit TaskRun × Db
visit now c db =
    if within_ttl now c then (skipped, db) else after_update (get c.run_id) (exec (expire now c) db)

unfoldable pub sweep_timeouts : Time → Db → Swept TaskRun × Db
sweep_timeouts now db = sweep_from (visit now) (query (λ d. candidates candidate_of d.task_runs) db)

-- `WHERE finished_at IS NOT NULL AND finished_at < ?`
abbrev finished_before : Time → Option Time → Bool
finished_before cutoff none = false
finished_before cutoff (some at) = ltb_ℤ at cutoff

abbrev pub is_older_than : Time → TaskRow → Bool
is_older_than cutoff row = finished_before cutoff row.finished_at

abbrev pub rows_deleted : RowsAffected → M ℕ
rows_deleted none = raise driver
rows_deleted (some n) = pure n

unfoldable pub delete_older_than : Time → M ℕ
delete_older_than cutoff = exec (delete_runs (is_older_than cutoff)) >>= rows_deleted

-- `WHERE status = ?`, left out for an empty text
abbrev pub has_status_text : String → TaskRow → Bool
has_status_text status row =
    if str_eq status "" then true else str_eq (status_text row.status) status

-- `ORDER BY started_at DESC`
unfoldable pub insert_newest : TaskRow → List TaskRow → List TaskRow
insert_newest row [] = row ∷ []
insert_newest row (x ∷ xs) =
    let later = insert_newest row xs in
    if leb_ℤ x.started_at row.started_at then row ∷ x ∷ xs else x ∷ later

unfoldable pub newest_first : List TaskRow → List TaskRow
newest_first [] = []
newest_first (row ∷ rows) = insert_newest row (newest_first rows)

abbrev pub list_limit : ℕ
list_limit = 200

abbrev pub listed : String → List TaskRow → List TaskRow
listed status rows = take list_limit (newest_first (select_where (has_status_text status) rows))

unfoldable pub list : String → M (List TaskRun)
list status = do rows ← query (λ db. listed status db.task_runs); pure (map scan_task_run rows)
