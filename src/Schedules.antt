-- ===== src/Schedules.antt =====
-- internal/store/schedule_store.go: every method of `ScheduleStore`, over the table
-- task_schedules. The cron library is third-party code: `parse_standard` stands for
-- `cron.ParseStandard`, an error being `none` and a schedule the function that its `Next` is. The
-- order of texts under ORDER BY is the database's collation, `collates`.
pub mod Detection
pub mod Effects
pub mod Invariant
pub mod Methods
mod Tests
pub mod Client
pub mod Registration
use mathlib.Core.Option
use chronos_monitor.Prelude.{
  ℕ, String, str_eq, ℤ, pos, ltb_ℤ, ◌+ℤ◌, List, [], ◌∷◌, ◌++◌, map, Option, none, some, Bool, true,
  false, ◌&&◌, if◌then◌else◌,
}
use chronos_monitor.Clock.{Time, Duration, add, duration_of, wrap64, second}
use chronos_monitor.Models.{Schedule, ScheduleStatus, is_ok}
use chronos_monitor.Database.{
  ScheduleRow, Db, Result, ok, err, M, pure, ◌>>=◌, Write, exec, query_row, query,
  check_rows_affected,
}
use chronos_monitor.Database.Rounds.{Visit, skipped, Swept, after_update, sweep_from, candidates}
use chronos_monitor.Database.Table.{update_where, delete_where, count_where, find_where}
use chronos_monitor.Tasks.{or_not_found}

-- `WHERE task_name = ?`
abbrev pub has_name : String → ScheduleRow → Bool
has_name task_name row = str_eq row.task_name task_name

-- `scanSchedule`, for a row that is there
unfoldable pub scan_schedule : ScheduleRow → Schedule
scan_schedule row = record {
  task_name = row.task_name;
  expected_interval_seconds = row.expected_interval_seconds;
  cron_expression = row.cron_expression;
  grace_period_seconds = row.grace_period_seconds;
  last_seen_at = row.last_seen_at;
  status = row.status;
  updated_at = row.updated_at;
}

abbrev pub update_schedules : (ScheduleRow → Bool) → (ScheduleRow → ScheduleRow) → Write
update_schedules p f db = (
  ok (count_where p db.task_schedules),
  record db { task_schedules = update_where p f db.task_schedules },
)

-- The expectation that `Upsert` registers.
pub record Expectation : Type 0 where
  pub interval_seconds : Option ℤ
  pub cron_expression : Option String
  pub grace_period_seconds : ℤ

-- INSERT … VALUES
abbrev pub registered_row : String → Expectation → Time → ScheduleRow
registered_row task_name x now = record {
  task_name = task_name;
  expected_interval_seconds = x.interval_seconds;
  cron_expression = x.cron_expression;
  grace_period_seconds = x.grace_period_seconds;
  last_seen_at = none;
  status = ScheduleStatus.ok;
  updated_at = now;
}

-- ON CONFLICT(task_name) DO UPDATE SET
abbrev pub reregistered_row : Expectation → Time → ScheduleRow → ScheduleRow
reregistered_row x now row = record row {
  expected_interval_seconds = x.interval_seconds;
  cron_expression = x.cron_expression;
  grace_period_seconds = x.grace_period_seconds;
  updated_at = now;
}

abbrev pub upsert_with : Option ScheduleRow → String → Expectation → Time → Write
upsert_with none task_name x now db =
    (ok 1, record db { task_schedules = db.task_schedules ++ registered_row task_name x now ∷ [] })
upsert_with (some old) task_name x now db =
    update_schedules (has_name task_name) (reregistered_row x now) db

abbrev pub upsert_row : String → Expectation → Time → Write
upsert_row task_name x now db =
    upsert_with (find_where (has_name task_name) db.task_schedules) task_name x now db

unfoldable pub upsert : String → Expectation → Time → M (Unit {0})
upsert task_name x now = exec (upsert_row task_name x now) >>= λ _. pure tt

abbrev pub touched_row : Time → ScheduleRow → ScheduleRow
touched_row at row = record row {
  last_seen_at = some at;
  status = ScheduleStatus.ok;
  updated_at = at;
}

-- No error where no schedule is registered.
unfoldable pub touch : String → Time → M (Unit {0})
touch task_name at = exec (update_schedules (has_name task_name) (touched_row at)) >>= λ _. pure tt

unfoldable pub get : String → M Schedule
get task_name = do
  found ← query_row (λ db. find_where (has_name task_name) db.task_schedules)
  row ← or_not_found found
  pure (scan_schedule row)

abbrev pub delete_schedules : (ScheduleRow → Bool) → Write
delete_schedules p db = (
  ok (count_where p db.task_schedules),
  record db { task_schedules = delete_where p db.task_schedules },
)

unfoldable pub delete : String → M (Unit {0})
delete task_name = exec (delete_schedules (has_name task_name)) >>= check_rows_affected

-- `ORDER BY task_name`
module _ (collates : String → String → Bool) where
  unfoldable pub insert_by_name : ScheduleRow → List ScheduleRow → List ScheduleRow
  insert_by_name row [] = row ∷ []
  insert_by_name row (x ∷ xs) =
      let later = insert_by_name row xs in
      if collates row.task_name x.task_name then row ∷ x ∷ xs else x ∷ later

  unfoldable pub by_name : List ScheduleRow → List ScheduleRow
  by_name [] = []
  by_name (row ∷ rows) = insert_by_name row (by_name rows)

  unfoldable pub list : M (List Schedule)
  list = do rows ← query (λ db. by_name db.task_schedules); pure (map scan_schedule rows)

-- What the loop of `DetectMissed` over the rows keeps of each.
pub record Candidate : Type 0 where
  pub task_name : String
  pub deadline : Time

-- The last time the task was seen, or its registration.
abbrev pub reference_of : ScheduleRow → Time
reference_of row = Option.get_or row.last_seen_at row.updated_at

abbrev pub grace_of : ScheduleRow → Duration
grace_of row = duration_of row.grace_period_seconds second

-- `reference.Add(time.Duration(intervalSeconds.Int64)*time.Second + grace)`
abbrev pub interval_deadline : ScheduleRow → Time
interval_deadline row = add (reference_of row) (
    wrap64
      (duration_of (Option.get_or row.expected_interval_seconds (pos 0)) second +ℤ grace_of row))

abbrev cron_deadline : Option (Time → Time) → ScheduleRow → Option Time
cron_deadline none row = none
cron_deadline (some next) row = some (add (next (reference_of row)) (grace_of row))

abbrev pub candidate_at : Option Time → ScheduleRow → Option Candidate
candidate_at none row = none
candidate_at (some deadline) row = some (record { task_name = row.task_name; deadline = deadline })

abbrev pub is_ok_named : String → ScheduleRow → Bool
is_ok_named task_name row = has_name task_name row && is_ok row.status

abbrev pub missed_row : Time → ScheduleRow → ScheduleRow
missed_row now row = record row { status = ScheduleStatus.missed; updated_at = now }

abbrev pub flag : Time → Candidate → Write
flag now c = update_schedules (is_ok_named c.task_name) (missed_row now)

module _ (parse_standard : String → Option (Time → Time)) where
  abbrev deadline_with : Option String → ScheduleRow → Option Time
  deadline_with none row = some (interval_deadline row)
  deadline_with (some expression) row = cron_deadline (parse_standard expression) row

  -- `none` for a cron expression that does not parse, which the source logs and skips
  abbrev pub deadline_of : ScheduleRow → Option Time
  deadline_of row = deadline_with row.cron_expression row

  -- `WHERE status = 'ok'`
  abbrev pub candidate_of : ScheduleRow → Option Candidate
  candidate_of row = if is_ok row.status then candidate_at (deadline_of row) row else none

  unfoldable pub visit : Time → Candidate → Db → Visit Schedule × Db
  visit now c db =
      if ltb_ℤ now c.deadline
      then (skipped, db)
      else after_update (get c.task_name) (exec (flag now c) db)

  unfoldable pub detect_missed : Time → Db → Swept Schedule × Db
  detect_missed now db =
      sweep_from (visit now) (query (λ d. candidates candidate_of d.task_schedules) db)
