-- ===== src/Tasks/Invariant.antt =====
-- The invariant of the table task_runs: one row for each run id, and in each row the columns that
-- its status calls for.
use chronos_monitor.Prelude.{
  String, ℤ, ◌≡◌, ◌≢◌, refl, [], ◌∷◌, Option, none, some, Bool, true, All, All-append, arith,
}
use chronos_monitor.Clock.{Time}
use chronos_monitor.Models.{TaskStatus, TaskRun}
use chronos_monitor.Database.{TaskRow, Db}
use chronos_monitor.Database.Table.{find_where}
use chronos_monitor.Database.Keys.{
  IsDistinct, IsDistinct-concat, IsDistinct-update, IsDistinct-delete, IsFresh-find_where,
}
use chronos_monitor.Database.Rows.{All-update, All-delete}
use chronos_monitor.Database.Steps.{StateOrder}
use chronos_monitor.Tasks.{
  has_run_id, beat, created_row, insert_unless, update_runs, finish_row, create, heartbeat, finish,
  get, list, sweep_timeouts, delete_older_than,
}
use chronos_monitor.Tasks.Effects.{
  create-Steps, heartbeat-Steps, finish-Steps, get-Steps, list-Steps, sweep_timeouts-Steps,
  delete_older_than-Steps,
}

abbrev pub run_key : TaskRow → String
run_key row = row.run_id

-- A running task has no end; an ended task has an end, a duration and an error text.
abbrev pub HasShape : TaskStatus → TaskRow → Type 0
HasShape TaskStatus.running row = (row.finished_at ≡ none) × (row.duration_ms ≡ none)
HasShape TaskStatus.missed row = ⊥
HasShape TaskStatus.success row =
    (row.finished_at ≢ none) × (row.duration_ms ≢ none) × (row.error_message ≢ none)
HasShape TaskStatus.failed row =
    (row.finished_at ≢ none) × (row.duration_ms ≢ none) × (row.error_message ≢ none)
HasShape TaskStatus.timeout row =
    (row.finished_at ≢ none) × (row.duration_ms ≢ none) × (row.error_message ≢ none)

abbrev pub IsShaped : TaskRow → Type 0
IsShaped row = HasShape row.status row × (row.last_heartbeat_at ≢ none)

pub record IsWellFormed (db : Db) : Type 0 where
  pub distinct : IsDistinct run_key db.task_runs
  pub shaped : All IsShaped db.task_runs

-- The statuses with which a run may end.
abbrev pub IsFinal : TaskStatus → Type 0
IsFinal TaskStatus.running = ⊥
IsFinal TaskStatus.missed = ⊥
IsFinal TaskStatus.success = Unit
IsFinal TaskStatus.failed = Unit
IsFinal TaskStatus.timeout = Unit

abbrev Keeps : Db → Db → Type 0
Keeps a b = IsWellFormed a → IsWellFormed b

Keeps-order : StateOrder Keeps
Keeps-order = record {
  start = λ db h. h;
  then_ = λ a b c f g h. g (f h);
  spent = λ db h. record { distinct = h.distinct; shaped = h.shaped };
}

insert_unless-IsWellFormed :
    (old : Option TaskRow) (row : TaskRow) (db : Db)
    → find_where (has_run_id row.run_id) db.task_runs ≡ old
    → IsShaped row
    → Keeps db (insert_unless old row db).1
insert_unless-IsWellFormed none row db e s h = record {
  distinct =
      IsDistinct-concat run_key db.task_runs row h.distinct
        (IsFresh-find_where run_key row.run_id db.task_runs e);
  shaped = All-append IsShaped db.task_runs (row ∷ []) h.shaped (s, tt);
}
insert_unless-IsWellFormed (some old) row db e s h = h

created_row-IsShaped : (t : TaskRun) → t.status ≡ TaskStatus.running → IsShaped (created_row t)
created_row-IsShaped t e = (rw e (refl, refl), cc)

pub update-IsWellFormed :
    (p : TaskRow → Bool) (f : TaskRow → TaskRow)
    → ((row : TaskRow) → run_key (f row) ≡ run_key row)
    → ((row : TaskRow) → p row ≡ true → IsShaped row → IsShaped (f row))
    → (db : Db) → Keeps db (update_runs p f db).1
update-IsWellFormed p f keeps shape db h = record {
  distinct = IsDistinct-update run_key p f db.task_runs keeps h.distinct;
  shaped = All-update IsShaped p f db.task_runs shape h.shaped;
}

pub finish_row-IsShaped :
    (status : TaskStatus) (at : Time) (duration : ℤ) (message : String) (row : TaskRow)
    → IsFinal status
    → row.last_heartbeat_at ≢ none
    → IsShaped (finish_row status at duration message row)
finish_row-IsShaped TaskStatus.running at duration message row f h = absurd f
finish_row-IsShaped TaskStatus.missed at duration message row f h = absurd f
finish_row-IsShaped _ at duration message row f h =
    ((λ e. ground arith, λ e. ground arith, λ e. ground arith), h)

HasShape-beat :
    (status : TaskStatus) (at : Time) (row : TaskRow)
    → HasShape status row
    → HasShape status (beat at row)
HasShape-beat TaskStatus.running at row h = h
HasShape-beat _ at row h = h

pub create-IsWellFormed :
    (t : TaskRun) (db : Db)
    → t.status ≡ TaskStatus.running
    → IsWellFormed db
    → IsWellFormed (create t db).1
create-IsWellFormed t db e =
    create-Steps Keeps Keeps-order t
      (λ d. insert_unless-IsWellFormed _ (created_row t) d refl (created_row-IsShaped t e)) db

pub heartbeat-IsWellFormed :
    (run_id : String) (at : Time) (db : Db)
    → IsWellFormed db
    → IsWellFormed (heartbeat run_id at db).1
heartbeat-IsWellFormed run_id at = heartbeat-Steps Keeps Keeps-order run_id at (
    update-IsWellFormed _ _ (λ row. refl)
      (λ row p s. (HasShape-beat row.status at row s.0, λ e. ground arith)))

pub finish-IsWellFormed :
    (run_id : String) (status : TaskStatus) (message : String) (at : Time) (db : Db)
    → IsFinal status
    → IsWellFormed db
    → IsWellFormed (finish run_id status message at db).1
finish-IsWellFormed run_id status message at db f =
    finish-Steps Keeps Keeps-order run_id status message at
      (λ run.
        update-IsWellFormed _ _ (λ row. refl)
          (λ row p s. finish_row-IsShaped status at _ message row f s.1))
      db

pub sweep_timeouts-IsWellFormed :
    (now : Time) (db : Db) → IsWellFormed db → IsWellFormed (sweep_timeouts now db).1
sweep_timeouts-IsWellFormed now = sweep_timeouts-Steps Keeps Keeps-order now (λ c.
    update-IsWellFormed _ _ (λ row. refl)
      (λ row p s. finish_row-IsShaped TaskStatus.timeout now _ _ row tt s.1))

pub delete_older_than-IsWellFormed :
    (cutoff : Time) (db : Db) → IsWellFormed db → IsWellFormed (delete_older_than cutoff db).1
delete_older_than-IsWellFormed cutoff = delete_older_than-Steps Keeps Keeps-order cutoff (λ db h.
    record {
      distinct = IsDistinct-delete run_key _ db.task_runs h.distinct;
      shaped = All-delete IsShaped _ db.task_runs h.shaped;
    })

pub get-IsWellFormed :
    (run_id : String) (db : Db) → IsWellFormed db → IsWellFormed (get run_id db).1
get-IsWellFormed = get-Steps Keeps Keeps-order

pub list-IsWellFormed :
    (status : String) (db : Db) → IsWellFormed db → IsWellFormed (list status db).1
list-IsWellFormed = list-Steps Keeps Keeps-order
