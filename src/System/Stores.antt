-- ===== src/System/Stores.antt =====
-- Both tables: a method of one store leaves the table of the other alone, so what holds of the two
-- is kept by the methods of both.
use chronos_monitor.Prelude.{String, Bool, ◌≡◌, refl, ◌∙◌, Option, none, some}
use chronos_monitor.Clock.{Time}
use chronos_monitor.Models.{TaskStatus, TaskRun}
use chronos_monitor.Database.{TaskRow, ScheduleRow, Db}
use chronos_monitor.Database.Steps.{StateOrder}
use chronos_monitor.Tasks.{
  created_row, insert_unless, create, heartbeat, finish, get, list, sweep_timeouts,
  delete_older_than,
}
use chronos_monitor.Tasks.Invariant
use chronos_monitor.Tasks.Invariant.{IsWellFormed, IsFinal}
use chronos_monitor.Tasks.Effects
use chronos_monitor.Schedules.{
  Expectation, upsert_with, upsert, touch, list as list_schedules, delete as delete_schedule,
  detect_missed,
}
use chronos_monitor.Schedules.Invariant as Registered
use chronos_monitor.Schedules.Invariant.{AreRegistered, IsExpectation}
use chronos_monitor.Schedules.Effects as Writes

abbrev pub SameSchedules : Db → Db → Type 0
SameSchedules a b = a.task_schedules ≡ b.task_schedules

pub SameSchedules-order : StateOrder SameSchedules
SameSchedules-order = record { start = λ db. refl; then_ = λ a b c h k. h ∙ k; spent = λ db. refl }

abbrev pub SameRuns : Db → Db → Type 0
SameRuns a b = a.task_runs ≡ b.task_runs

pub SameRuns-order : StateOrder SameRuns
SameRuns-order = record { start = λ db. refl; then_ = λ a b c h k. h ∙ k; spent = λ db. refl }

insert-SameSchedules :
    (old : Option TaskRow) (row : TaskRow) (db : Db) → SameSchedules db (insert_unless old row db).1
insert-SameSchedules none row db = refl
insert-SameSchedules (some old) row db = refl

pub upsert-SameRuns :
    (old : Option ScheduleRow) (task_name : String) (x : Expectation) (now : Time) (db : Db)
    → SameRuns db (upsert_with old task_name x now db).1
upsert-SameRuns none task_name x now db = refl
upsert-SameRuns (some old) task_name x now db = refl

IsWellFormed-same : (a b : Db) → SameRuns a b → IsWellFormed a → IsWellFormed b
IsWellFormed-same a b e h = record { distinct = rw e at h.distinct; shaped = rw e at h.shaped }

module _ (parse_standard : String → Option (Time → Time)) where
  AreRegistered-same :
      (a b : Db)
      → SameSchedules a b
      → AreRegistered parse_standard a
      → AreRegistered parse_standard b
  AreRegistered-same a b e h = record { distinct = rw e at h.distinct; valid = rw e at h.valid }

  pub record IsConsistent (db : Db) : Type 0 where
    pub runs : IsWellFormed db
    pub schedules : AreRegistered parse_standard db

  abbrev pub Keeps : Db → Db → Type 0
  Keeps a b = IsConsistent a → IsConsistent b

  pub Keeps-order : StateOrder Keeps
  Keeps-order = record {
    start = λ db h. h;
    then_ = λ a b c f g h. g (f h);
    spent = λ db h. record {
      runs = IsWellFormed-same db _ refl h.runs;
      schedules = AreRegistered-same db _ refl h.schedules;
    };
  }

  pub on_runs : (a b : Db) → SameSchedules a b → (IsWellFormed a → IsWellFormed b) → Keeps a b
  on_runs a b e f h = record { runs = f h.runs; schedules = AreRegistered-same a b e h.schedules }

  pub on_schedules :
      (a b : Db)
      → SameRuns a b
      → (AreRegistered parse_standard a → AreRegistered parse_standard b)
      → Keeps a b
  on_schedules a b e f h = record {
    runs = IsWellFormed-same a b e h.runs;
    schedules = f h.schedules;
  }

  pub create-Keeps :
      (t : TaskRun) (db : Db) → t.status ≡ TaskStatus.running → Keeps db (create t db).1
  create-Keeps t db e =
      on_runs db _
        (Effects.create-Steps SameSchedules SameSchedules-order t
          (λ d. insert-SameSchedules _ (created_row t) d) db)
        (Invariant.create-IsWellFormed t db e)

  pub heartbeat-Keeps :
      (run_id : String) (at : Time) (db : Db) → Keeps db (heartbeat run_id at db).1
  heartbeat-Keeps run_id at db =
      on_runs db _
        (Effects.heartbeat-Steps SameSchedules SameSchedules-order run_id at (λ d. refl) db)
        (Invariant.heartbeat-IsWellFormed run_id at db)

  pub finish-Keeps :
      (run_id : String) (status : TaskStatus) (message : String) (at : Time) (db : Db)
      → IsFinal status
      → Keeps db (finish run_id status message at db).1
  finish-Keeps run_id status message at db f =
      on_runs db _
        (Effects.finish-Steps SameSchedules SameSchedules-order run_id status message at
          (λ run d. refl) db)
        (Invariant.finish-IsWellFormed run_id status message at db f)

  pub get-Keeps : (run_id : String) (db : Db) → Keeps db (get run_id db).1
  get-Keeps = Effects.get-Steps Keeps Keeps-order

  pub list-Keeps : (status : String) (db : Db) → Keeps db (list status db).1
  list-Keeps = Effects.list-Steps Keeps Keeps-order

  pub sweep_timeouts-Keeps : (now : Time) (db : Db) → Keeps db (sweep_timeouts now db).1
  sweep_timeouts-Keeps now db =
      on_runs db _
        (Effects.sweep_timeouts-Steps SameSchedules SameSchedules-order now (λ c d. refl) db)
        (Invariant.sweep_timeouts-IsWellFormed now db)

  pub delete_older_than-Keeps : (cutoff : Time) (db : Db) → Keeps db (delete_older_than cutoff db).1
  delete_older_than-Keeps cutoff db =
      on_runs db _
        (Effects.delete_older_than-Steps SameSchedules SameSchedules-order cutoff (λ d. refl) db)
        (Invariant.delete_older_than-IsWellFormed cutoff db)

  pub upsert-Keeps :
      (task_name : String) (x : Expectation) (now : Time) (db : Db)
      → IsExpectation parse_standard x
      → Keeps db (upsert task_name x now db).1
  upsert-Keeps task_name x now db v =
      on_schedules db _
        (Writes.upsert-Steps SameRuns SameRuns-order task_name x now
          (λ d. upsert-SameRuns _ task_name x now d) db)
        (Registered.upsert-AreRegistered parse_standard task_name x now db v)

  pub touch-Keeps : (task_name : String) (at : Time) (db : Db) → Keeps db (touch task_name at db).1
  touch-Keeps task_name at db =
      on_schedules db _ (Writes.touch-Steps SameRuns SameRuns-order task_name at (λ d. refl) db)
        (Registered.touch-AreRegistered parse_standard task_name at db)

  pub delete_schedule-Keeps :
      (task_name : String) (db : Db) → Keeps db (delete_schedule task_name db).1
  delete_schedule-Keeps task_name db =
      on_schedules db _ (Writes.delete-Steps SameRuns SameRuns-order task_name (λ d. refl) db)
        (Registered.delete-AreRegistered parse_standard task_name db)

  pub list_schedules-Keeps :
      (collates : String → String → Bool) (db : Db) → Keeps db (list_schedules collates db).1
  list_schedules-Keeps = Writes.list-Steps Keeps Keeps-order

  pub detect_missed-Keeps :
      (now : Time) (db : Db) → Keeps db (detect_missed parse_standard now db).1
  detect_missed-Keeps now db =
      on_schedules db _
        (Writes.detect_missed-Steps SameRuns SameRuns-order parse_standard now (λ c d. refl) db)
        (Registered.detect_missed-AreRegistered parse_standard now db)
