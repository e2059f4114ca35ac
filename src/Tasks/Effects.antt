-- ===== src/Tasks/Effects.antt =====
-- Each method of `TaskStore` as a chain of its writes: what every write respects, the method
-- respects, whatever the outcomes of its statements.
use chronos_monitor.Prelude.{String, Option, none, some, Bool-cases, inl, inr}
use chronos_monitor.Clock.{Time, sub, milliseconds}
use chronos_monitor.Models.{TaskStatus, TaskRun}
use chronos_monitor.Database.{TaskRow, Db, pure, RowsAffected, exec, query, check_rows_affected}
use chronos_monitor.Database.Steps.{
  StateOrder, Steps, exec-Steps, query_row-Steps, query-Steps, bind-Steps,
  check_rows_affected-Steps,
}
use chronos_monitor.Database.Rounds.{candidates}
use chronos_monitor.Database.Rounds.Effects.{after_update-state, sweep_from-state}
use chronos_monitor.Tasks.{
  created_row, insert_run, update_runs, delete_runs, has_run_id, is_running_run, is_older_than,
  beat, finish_row, expire, create, heartbeat, finish, get, get_row, or_not_found, scan_task_run,
  rows_deleted, delete_older_than, list, Candidate, candidate_of, within_ttl, visit, sweep_timeouts,
}

module _ (R : Db → Db → Type 0) (o : StateOrder R) where
  pub create-Steps :
      (t : TaskRun) → ((db : Db) → R db (insert_run (created_row t) db).1) → Steps R o (create t)
  unfolding create
  create-Steps t h =
      bind-Steps R o (exec (insert_run (created_row t))) (λ _. pure tt) (exec-Steps R o _ h)
        (λ _ db. o.start db)

  pub heartbeat-Steps :
      (run_id : String) (at : Time)
      → ((db : Db) → R db (update_runs (is_running_run run_id) (beat at) db).1)
      → Steps R o (heartbeat run_id at)
  unfolding heartbeat
  heartbeat-Steps run_id at h =
      bind-Steps R o (exec _) check_rows_affected (exec-Steps R o _ h)
        (check_rows_affected-Steps R o)

  pub or_not_found-Steps {ℓ} : {A : Type ℓ} (a : Option A) → Steps R o (or_not_found a)
  or_not_found-Steps none db = o.start db
  or_not_found-Steps (some a) db = o.start db

  pub get_row-Steps : (run_id : String) → Steps R o (get_row run_id)
  unfolding get_row
  get_row-Steps run_id = bind-Steps R o _ or_not_found (query_row-Steps R o _) or_not_found-Steps

  pub get-Steps : (run_id : String) → Steps R o (get run_id)
  unfolding get
  get-Steps run_id =
      bind-Steps R o (get_row run_id) (λ row. pure (scan_task_run row)) (get_row-Steps run_id)
        (λ _ db. o.start db)

  pub finish-Steps :
      (run_id : String) (status : TaskStatus) (message : String) (at : Time)
      → ((run : TaskRow) (db : Db)
          → R db
              (update_runs
                (has_run_id run_id)
                (finish_row status at (milliseconds (sub at run.started_at)) message)
                db).1)
      → Steps R o (finish run_id status message at)
  unfolding finish
  finish-Steps run_id status message at h =
      bind-Steps R o (get_row run_id) _ (get_row-Steps run_id) (λ run.
        bind-Steps R o (exec _) check_rows_affected (exec-Steps R o _ (h run))
          (check_rows_affected-Steps R o))

  rows_deleted-Steps : (n : RowsAffected) → Steps R o (rows_deleted n)
  rows_deleted-Steps none db = o.start db
  rows_deleted-Steps (some n) db = o.start db

  pub delete_older_than-Steps :
      (cutoff : Time)
      → ((db : Db) → R db (delete_runs (is_older_than cutoff) db).1)
      → Steps R o (delete_older_than cutoff)
  unfolding delete_older_than
  delete_older_than-Steps cutoff h =
      bind-Steps R o (exec _) rows_deleted (exec-Steps R o _ h) rows_deleted-Steps

  pub list-Steps : (status : String) → Steps R o (list status)
  unfolding list
  list-Steps status = bind-Steps R o (query _) _ (query-Steps R o _) (λ _ db. o.start db)

  module _ (now : Time) (each : (c : Candidate) (db : Db) → R db (expire now c db).1) where
    pub visit-Steps : (c : Candidate) (db : Db) → R db (visit now c db).1
    unfolding visit
    visit-Steps c db = elim (Bool-cases (within_ttl now c)) [
      | inl within ↦ rw within (o.start db)
      | inr late ↦ rw late (
          after_update-state R o (get c.run_id) (get-Steps c.run_id) db (exec (expire now c) db)
            (exec-Steps R o (expire now c) (each c) db))
    ]

    pub sweep_timeouts-Steps : (db : Db) → R db (sweep_timeouts now db).1
    unfolding sweep_timeouts
    sweep_timeouts-Steps db =
        sweep_from-state R o (visit now) visit-Steps db
          (query (λ d. candidates candidate_of d.task_runs) db) (query-Steps R o _ db)
