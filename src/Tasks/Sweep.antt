-- ===== src/Tasks/Sweep.antt =====
-- `SweepTimeouts` against a description of its effect row by row: the loop of updates by run id,
-- each followed by a read, changes just the rows that are overdue and returns them.
use chronos_monitor.Prelude.{
  String, ℤ, ltb_ℤ, ◌≡◌, ◌⊎◌, refl, ap, List, [], ◌∷◌, ◌++◌, map, Option, none, some, Bool, true,
  false, arith, eq_iff, eq_refl, inl, inr,
}
use chronos_monitor.Clock.{Time, sub, duration_of, second, milliseconds}
use chronos_monitor.Models.{TaskStatus, is_running}
use chronos_monitor.Database.{TaskRow, ScheduleRow, Db, exec, query_row, query, ok}
use chronos_monitor.Database.Keys.{IsDistinct, has_key}
use chronos_monitor.Database.OneRow.{
  IsFresh-before, IsFresh-behind, IsDistinct-replace, NeedsKey, update_one, count_one, find_one,
  has_key-NeedsKey,
}
use chronos_monitor.Database.Rounds.{transitioned, skipped, visit_of, swept_row, found_in}
use chronos_monitor.Database.Rounds.Refinement.{Changes, sweep_loop_lem}
use chronos_monitor.Tasks.{
  is_running_run, finish_row, scan_task_run, get_row, get, Candidate, candidate_of, candidate_with,
  reference_of, within_ttl, timeout_message, visit, sweep_timeouts,
}
use chronos_monitor.Tasks.Invariant.{run_key}

-- A state in which every statement to come is done.
abbrev pub quiet : List TaskRow → List ScheduleRow → Db
quiet rows schedules = record { task_runs = rows; task_schedules = schedules; outcomes = [] }

abbrev pub overdue_with : TaskStatus → Option ℤ → Time → TaskRow → Bool
overdue_with TaskStatus.running (some ttl) now row =
    ltb_ℤ (duration_of ttl second) (sub now (reference_of row))
overdue_with TaskStatus.running none now row = false
overdue_with _ ttl now row = false

-- Running, with a TTL that has passed since the last heartbeat, or since the start.
abbrev pub is_overdue : Time → TaskRow → Bool
is_overdue now row = overdue_with row.status row.ttl_seconds now row

abbrev pub timed_out_row : Time → TaskRow → TaskRow
timed_out_row now row =
    finish_row TaskStatus.timeout now (milliseconds (sub now (reference_of row))) timeout_message
      row

module _ (now : Time) (schedules : List ScheduleRow) where
  pub is_running_run-NeedsKey : (k : String) → NeedsKey run_key k (is_running_run k)
  is_running_run-NeedsKey k row h = ground (arith, eq_iff row.run_id k)

  get-one :
      (pre rows : List TaskRow) (row : TaskRow)
      → IsDistinct run_key (pre ++ row ∷ rows)
      → get row.run_id (quiet (pre ++ row ∷ rows) schedules)
        ≡ (ok (scan_task_run row), quiet (pre ++ row ∷ rows) schedules)
  unfolding get get_row query_row
  get-one pre rows row d =
      rw
        (find_one run_key row.run_id (has_key run_key row.run_id)
          (has_key-NeedsKey run_key row.run_id) row (eq_refl row.run_id) rows
          (IsFresh-behind run_key pre rows row d) pre (IsFresh-before run_key pre rows row d))
        refl

  -- The candidate that a row gives.
  abbrev candidate : TaskRow → ℤ → Candidate
  candidate row ttl = record { run_id = row.run_id; reference = reference_of row; ttl = ttl }

  visit-overdue :
      (pre rows : List TaskRow) (row : TaskRow) (ttl : ℤ)
      → IsDistinct run_key (pre ++ row ∷ rows)
      → is_running row.status ≡ true
      → within_ttl now (candidate row ttl) ≡ false
      → visit now (candidate row ttl) (quiet (pre ++ row ∷ rows) schedules) ≡ (
        transitioned (scan_task_run (timed_out_row now row)),
        quiet (pre ++ timed_out_row now row ∷ rows) schedules,
      )
  unfolding visit exec
  visit-overdue pre rows row ttl d run late =
      let behind = IsFresh-behind run_key pre rows row d in
      let before = IsFresh-before run_key pre rows row d in
      let hit : is_running_run row.run_id row ≡ true = rw (eq_refl row.run_id, run) refl in
      let needs = is_running_run-NeedsKey row.run_id in
      let one =
        count_one run_key row.run_id (is_running_run row.run_id) needs row hit rows behind in
      let changed =
        update_one run_key row.run_id (is_running_run row.run_id) needs row hit rows behind in
      rw (late, one pre before, changed (finish_row _ _ _ _) pre before)
        (ap visit_of (
          get-one pre rows (timed_out_row now row)
            (IsDistinct-replace run_key pre rows row (timed_out_row now row) refl d)))

  pub overdue-candidate :
      (s : TaskStatus) (o : Option ℤ) (row : TaskRow)
      → overdue_with s o now row ≡ true
      → (ttl : ℤ) × (candidate_with (is_running s) o row ≡ some (candidate row ttl))
        × (is_running s ≡ true)
        × (within_ttl now (candidate row ttl) ≡ false)
  overdue-candidate TaskStatus.running (some ttl) row h = (ttl, refl, refl, ground arith)
  overdue-candidate TaskStatus.running none row h = cc
  overdue-candidate _ o row h = cc

  overdue-Changes :
      (row : TaskRow)
      → is_overdue now row ≡ true
      → Changes run_key candidate_of
          (visit now)
          (λ rows. quiet rows schedules)
          (is_overdue now)
          (timed_out_row now)
          scan_task_run
          row
  overdue-Changes row h =
      let (ttl, found, run, late) = overdue-candidate row.status row.ttl_seconds row h in
      (candidate row ttl, found, λ pre rows d. visit-overdue pre rows row ttl d run late)

  visit-within :
      (c : Candidate) (db : Db) → within_ttl now c ≡ true → visit now c db ≡ (skipped, db)
  unfolding visit
  visit-within c db h = rw h refl

  in_time-Skips :
      (s : TaskStatus) (o : Option ℤ) (row : TaskRow)
      → overdue_with s o now row ≡ false
      → (candidate_with (is_running s) o row ≡ none)
        ⊎ ((c : Candidate) × (candidate_with (is_running s) o row ≡ some c)
            × ((db : Db) → visit now c db ≡ (skipped, db)))
  in_time-Skips TaskStatus.running (some ttl) row h =
      inr (candidate row ttl, refl, λ db. visit-within (candidate row ttl) db (ground arith))
  in_time-Skips TaskStatus.running none row h = inl refl
  in_time-Skips _ o row h = inl refl

-- With no driver error, a sweep of a table with distinct run ids ends without an error. It turns
-- each row that is overdue into a timed-out one, leaves every other row and the schedules as they
-- are, and returns the transitioned tasks, all of them and in the order of the table.
pub sweep_timeouts_lem :
    (now : Time) (rows : List TaskRow) (schedules : List ScheduleRow)
    → IsDistinct run_key rows
    → sweep_timeouts now (quiet rows schedules) ≡ (
      record {
        found = found_in (is_overdue now) (timed_out_row now) scan_task_run rows;
        error = none;
      },
      quiet (map (swept_row (is_overdue now) (timed_out_row now)) rows) schedules,
    )
unfolding sweep_timeouts query query_row
sweep_timeouts_lem now rows schedules d =
    sweep_loop_lem run_key candidate_of (visit now) (λ r. quiet r schedules) (is_overdue now)
      (timed_out_row now) scan_task_run (λ row. refl)
      (λ row. in_time-Skips now schedules row.status row.ttl_seconds row)
      (overdue-Changes now schedules) [] rows [] d
