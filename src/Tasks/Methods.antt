-- ===== src/Tasks/Methods.antt =====
-- The results of `Create`, `Heartbeat`, `Finish` and `Get` when the driver reports no error.
use chronos_monitor.Prelude.{
  String, ◌≡◌, refl, ap, List, [], ◌∷◌, ◌++◌, none, some, true, false, eq_refl,
}
use chronos_monitor.Clock.{Time, sub, milliseconds}
use chronos_monitor.Models.{TaskStatus, TaskRun, is_running}
use chronos_monitor.Database.{
  TaskRow, ScheduleRow, exec, query_row, ok, err, not_found, duplicate_key, check_rows_affected,
}
use chronos_monitor.Database.Table.{find_where}
use chronos_monitor.Database.Keys.{IsDistinct, IsDistinct-concat, IsFresh, has_key, find_of_IsFresh}
use chronos_monitor.Database.OneRow.{
  IsFresh-before, IsFresh-behind, update_one, count_one, find_one, has_key-NeedsKey, update_none,
  count_none, update_miss, count_miss,
}
use chronos_monitor.Tasks.{
  has_run_id, is_running_run, created_row, beat, finish_row, scan_task_run, create, heartbeat,
  finish, get, get_row,
}
use chronos_monitor.Tasks.Invariant.{run_key}
use chronos_monitor.Tasks.Sweep.{quiet, is_running_run-NeedsKey}

module _ (schedules : List ScheduleRow) where
  pub create-fresh :
      (t : TaskRun) (rows : List TaskRow)
      → IsFresh run_key t.run_id rows
      → create t (quiet rows schedules) ≡ (ok tt, quiet (rows ++ created_row t ∷ []) schedules)
  unfolding create exec
  create-fresh t rows h = rw (find_of_IsFresh run_key t.run_id rows h) refl

  module _ (pre rows : List TaskRow) (row : TaskRow)
      (d : IsDistinct run_key (pre ++ row ∷ rows)) where
    here : find_where (has_run_id row.run_id) (pre ++ row ∷ rows) ≡ some row
    here =
        find_one run_key row.run_id (has_key run_key row.run_id)
          (has_key-NeedsKey run_key row.run_id) row (eq_refl row.run_id) rows
          (IsFresh-behind run_key pre rows row d) pre (IsFresh-before run_key pre rows row d)

    pub create-duplicate :
        (t : TaskRun)
        → t.run_id ≡ row.run_id
        → create t (quiet (pre ++ row ∷ rows) schedules)
          ≡ (err duplicate_key, quiet (pre ++ row ∷ rows) schedules)
    unfolding create exec
    create-duplicate t e = rw (e, here) refl

    get_row-present :
        get_row row.run_id (quiet (pre ++ row ∷ rows) schedules)
        ≡ (ok row, quiet (pre ++ row ∷ rows) schedules)
    unfolding get_row query_row
    get_row-present = rw here refl

    pub get-present :
        get row.run_id (quiet (pre ++ row ∷ rows) schedules)
        ≡ (ok (scan_task_run row), quiet (pre ++ row ∷ rows) schedules)
    unfolding get
    get-present = rw get_row-present refl

    pub heartbeat-running :
        (at : Time)
        → row.status ≡ TaskStatus.running
        → heartbeat row.run_id at (quiet (pre ++ row ∷ rows) schedules)
          ≡ (ok tt, quiet (pre ++ beat at row ∷ rows) schedules)
    unfolding heartbeat exec check_rows_affected
    heartbeat-running at e =
        let needs = is_running_run-NeedsKey at schedules row.run_id in
        let hit : is_running_run row.run_id row ≡ true = rw (eq_refl row.run_id, e) refl in
        let behind = IsFresh-behind run_key pre rows row d in
        let before = IsFresh-before run_key pre rows row d in
        rw
          (
            count_one run_key row.run_id (is_running_run row.run_id) needs row hit rows behind pre
                before,
            update_one run_key row.run_id (is_running_run row.run_id) needs row hit rows behind
                (beat at) pre before,
          )
          refl

    pub heartbeat-ended :
        (at : Time)
        → is_running row.status ≡ false
        → heartbeat row.run_id at (quiet (pre ++ row ∷ rows) schedules)
          ≡ (err not_found, quiet (pre ++ row ∷ rows) schedules)
    unfolding heartbeat exec check_rows_affected
    heartbeat-ended at e =
        let needs = is_running_run-NeedsKey at schedules row.run_id in
        let miss : is_running_run row.run_id row ≡ false = rw (eq_refl row.run_id, e) refl in
        let behind = IsFresh-behind run_key pre rows row d in
        let before = IsFresh-before run_key pre rows row d in
        rw
          (
            count_miss run_key row.run_id (is_running_run row.run_id) needs row miss rows behind pre
                before,
            update_miss run_key row.run_id (is_running_run row.run_id) needs row miss rows behind
                (beat at) pre before,
          )
          refl

    pub finish-present :
        (status : TaskStatus) (message : String) (at : Time)
        → finish row.run_id status message at (quiet (pre ++ row ∷ rows) schedules) ≡ (
          ok tt,
          quiet
              (pre
                ++ finish_row status at (milliseconds (sub at row.started_at)) message row ∷ rows)
              schedules,
        )
    unfolding finish exec check_rows_affected
    finish-present status message at =
        let behind = IsFresh-behind run_key pre rows row d in
        let before = IsFresh-before run_key pre rows row d in
        let needs = has_key-NeedsKey run_key row.run_id in
        rw
          (
            get_row-present,
            count_one run_key row.run_id (has_key run_key row.run_id) needs row (eq_refl row.run_id)
                rows behind pre before,
            update_one run_key row.run_id (has_key run_key row.run_id) needs row
                (eq_refl row.run_id) rows behind
                (finish_row status at (milliseconds (sub at row.started_at)) message) pre before,
          )
          refl

  module _ (run_id : String) (rows : List TaskRow) (h : IsFresh run_key run_id rows) where
    get_row-absent : get_row run_id (quiet rows schedules) ≡ (err not_found, quiet rows schedules)
    unfolding get_row query_row
    get_row-absent = rw (find_of_IsFresh run_key run_id rows h) refl

    pub get-absent : get run_id (quiet rows schedules) ≡ (err not_found, quiet rows schedules)
    unfolding get
    get-absent = rw get_row-absent refl

    pub finish-absent :
        (status : TaskStatus) (message : String) (at : Time)
        → finish run_id status message at (quiet rows schedules)
          ≡ (err not_found, quiet rows schedules)
    unfolding finish
    finish-absent status message at = rw get_row-absent refl

    pub heartbeat-absent :
        (at : Time)
        → heartbeat run_id at (quiet rows schedules) ≡ (err not_found, quiet rows schedules)
    unfolding heartbeat exec check_rows_affected
    heartbeat-absent at =
        rw
          (
            count_none run_key run_id (is_running_run run_id)
                (is_running_run-NeedsKey at schedules run_id) rows h,
            update_none run_key run_id (is_running_run run_id)
                (is_running_run-NeedsKey at schedules run_id) (beat at) rows h,
          )
          refl

-- A run that was just created under a new id is read back with the fields it was created with, as
-- a run without an end whose last heartbeat is its start.
pub get-create :
    (t : TaskRun) (rows : List TaskRow) (schedules : List ScheduleRow)
    → IsFresh run_key t.run_id rows
    → IsDistinct run_key rows
    → (get t.run_id (create t (quiet rows schedules)).1).0
      ≡ ok (record t {
        finished_at = none;
        last_heartbeat_at = some t.started_at;
        duration_ms = none;
        error_message = "";
      })
unfolding scan_task_run
get-create t rows schedules fresh d = rw (create-fresh schedules t rows fresh) (
    ap (λ x. x.0)
      (get-present schedules rows [] (created_row t)
        (IsDistinct-concat run_key rows (created_row t) d fresh)))
