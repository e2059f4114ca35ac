-- ===== src/Schedules/Effects.antt =====
-- Each method of `ScheduleStore` as a chain of its writes: what every write respects, the method
-- respects, whatever the outcomes of its statements.
use chronos_monitor.Prelude.{String, Option, Bool, Bool-cases, inl, inr, ltb_ℤ}
use chronos_monitor.Clock.{Time}
use chronos_monitor.Database.{Db, pure, exec, query_row, query, check_rows_affected}
use chronos_monitor.Database.Steps.{
  StateOrder, Steps, exec-Steps, query_row-Steps, query-Steps, bind-Steps,
  check_rows_affected-Steps,
}
use chronos_monitor.Database.Rounds.{candidates}
use chronos_monitor.Database.Rounds.Effects.{after_update-state, sweep_from-state}
use chronos_monitor.Tasks.Effects.{or_not_found-Steps}
use chronos_monitor.Tasks.{or_not_found}
use chronos_monitor.Schedules.{
  has_name, scan_schedule, update_schedules, Expectation, upsert_row, upsert, touched_row, touch,
  get, delete_schedules, delete, list, Candidate, flag, candidate_of, visit, detect_missed,
}

module _ (R : Db → Db → Type 0) (o : StateOrder R) where
  pub upsert-Steps :
      (task_name : String) (x : Expectation) (now : Time)
      → ((db : Db) → R db (upsert_row task_name x now db).1)
      → Steps R o (upsert task_name x now)
  unfolding upsert
  upsert-Steps task_name x now h =
      bind-Steps R o (exec _) (λ _. pure tt) (exec-Steps R o _ h) (λ _ db. o.start db)

  pub touch-Steps :
      (task_name : String) (at : Time)
      → ((db : Db) → R db (update_schedules (has_name task_name) (touched_row at) db).1)
      → Steps R o (touch task_name at)
  unfolding touch
  touch-Steps task_name at h =
      bind-Steps R o (exec _) (λ _. pure tt) (exec-Steps R o _ h) (λ _ db. o.start db)

  pub get-Steps : (task_name : String) → Steps R o (get task_name)
  unfolding get
  get-Steps task_name = bind-Steps R o (query_row _) _ (query_row-Steps R o _) (λ found.
      bind-Steps R o (or_not_found found) (λ row. pure (scan_schedule row))
        (or_not_found-Steps R o found) (λ _ db. o.start db))

  pub delete-Steps :
      (task_name : String)
      → ((db : Db) → R db (delete_schedules (has_name task_name) db).1)
      → Steps R o (delete task_name)
  unfolding delete
  delete-Steps task_name h =
      bind-Steps R o (exec _) check_rows_affected (exec-Steps R o _ h)
        (check_rows_affected-Steps R o)

  pub list-Steps : (collates : String → String → Bool) → Steps R o (list collates)
  unfolding list
  list-Steps collates = bind-Steps R o (query _) _ (query-Steps R o _) (λ _ db. o.start db)

  module _ (parse_standard : String → Option (Time → Time)) (now : Time)
      (each : (c : Candidate) (db : Db) → R db (flag now c db).1) where
    visit-Steps : (c : Candidate) (db : Db) → R db (visit parse_standard now c db).1
    unfolding visit
    visit-Steps c db = elim (Bool-cases (ltb_ℤ now c.deadline)) [
      | inl early ↦ rw early (o.start db)
      | inr late ↦ rw late (
          after_update-state R o (get c.task_name) (get-Steps c.task_name) db (exec (flag now c) db)
            (exec-Steps R o (flag now c) (each c) db))
    ]

    pub detect_missed-Steps : (db : Db) → R db (detect_missed parse_standard now db).1
    unfolding detect_missed
    detect_missed-Steps db =
        sweep_from-state R o (visit parse_standard now) visit-Steps db
          (query (λ d. candidates (candidate_of parse_standard) d.task_schedules) db)
          (query-Steps R o _ db)
