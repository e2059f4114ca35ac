-- ===== src/Tasks/Reach.antt =====
-- Runs of `TaskStore`: what holds after any sequence of calls of its methods.
use chronos_monitor.Prelude.{String, List, [], ◌∷◌, All, ◌≡◌}
use chronos_monitor.Clock.{Time}
use chronos_monitor.Models.{TaskStatus, TaskRun}
use chronos_monitor.Database.{ScheduleRow, Db, Outcome}
use chronos_monitor.Tasks.{create, heartbeat, finish, sweep_timeouts, delete_older_than, get, list}
use chronos_monitor.Tasks.Invariant.{
  IsWellFormed, IsFinal, create-IsWellFormed, heartbeat-IsWellFormed, finish-IsWellFormed,
  sweep_timeouts-IsWellFormed, delete_older_than-IsWellFormed, get-IsWellFormed, list-IsWellFormed,
}
use chronos_monitor.Tasks.Lifecycle.{
  Continues, Continues-refl, Continues-trans, create-Continues, heartbeat-Continues,
  finish-Continues, sweep_timeouts-Continues, get-Continues, list-Continues,
}

-- A call of a method of `TaskStore`.
pub data Call : Type 0 where
  creating : TaskRun → Call
  beating : String → Time → Call
  finishing : String → TaskStatus → String → Time → Call
  sweeping : Time → Call
  deleting : Time → Call
  getting : String → Call
  listing : String → Call

-- The state that a call leaves, whether it returns or fails.
pub perform : Call → Db → Db
perform (creating t) db = (create t db).1
perform (beating run_id at) db = (heartbeat run_id at db).1
perform (finishing run_id status message at) db = (finish run_id status message at db).1
perform (sweeping now) db = (sweep_timeouts now db).1
perform (deleting cutoff) db = (delete_older_than cutoff db).1
perform (getting run_id) db = (get run_id db).1
perform (listing status) db = (list status db).1

unfoldable pub run_calls : List Call → Db → Db
unfolding perform
run_calls [] db = db
run_calls (c ∷ cs) db = run_calls cs (perform c db)

-- What the program's handlers respect: a run starts as running and ends with a final status.
abbrev pub IsLegal : Call → Type 0
IsLegal (creating t) = t.status ≡ TaskStatus.running
IsLegal (finishing run_id status message at) = IsFinal status
IsLegal (beating run_id at) = Unit
IsLegal (sweeping now) = Unit
IsLegal (deleting cutoff) = Unit
IsLegal (getting run_id) = Unit
IsLegal (listing status) = Unit

abbrev pub IsNotDeleting : Call → Type 0
IsNotDeleting (deleting cutoff) = ⊥
IsNotDeleting (creating t) = Unit
IsNotDeleting (finishing run_id status message at) = Unit
IsNotDeleting (beating run_id at) = Unit
IsNotDeleting (sweeping now) = Unit
IsNotDeleting (getting run_id) = Unit
IsNotDeleting (listing status) = Unit

perform-IsWellFormed :
    (c : Call) (db : Db) → IsLegal c → IsWellFormed db → IsWellFormed (perform c db)
unfolding perform
perform-IsWellFormed (creating t) db l h = create-IsWellFormed t db l h
perform-IsWellFormed (beating run_id at) db l h = heartbeat-IsWellFormed run_id at db h
perform-IsWellFormed (finishing run_id status message at) db l h =
    finish-IsWellFormed run_id status message at db l h
perform-IsWellFormed (sweeping now) db l h = sweep_timeouts-IsWellFormed now db h
perform-IsWellFormed (deleting cutoff) db l h = delete_older_than-IsWellFormed cutoff db h
perform-IsWellFormed (getting run_id) db l h = get-IsWellFormed run_id db h
perform-IsWellFormed (listing status) db l h = list-IsWellFormed status db h

run_calls-keeps :
    (cs : List Call) (db : Db) → All IsLegal cs → IsWellFormed db → IsWellFormed (run_calls cs db)
unfolding run_calls
run_calls-keeps [] db l h = h
run_calls-keeps (c ∷ cs) db l h =
    run_calls-keeps cs (perform c db) l.1 (perform-IsWellFormed c db l.0 h)

-- After any calls of the methods of `TaskStore` on an empty table in which runs start as running
-- and are finished with a final status, and whatever becomes of each statement, run ids are
-- distinct, every row has a heartbeat, no row is "missed", a running row has no end and no
-- duration, and an ended row has an end, a duration and an error text.
pub run_calls-IsWellFormed :
    (calls : List Call) (schedules : List ScheduleRow) (outcomes : List Outcome)
    → All IsLegal calls
    → IsWellFormed (
        run_calls calls
          (record { task_runs = []; task_schedules = schedules; outcomes = outcomes }))
run_calls-IsWellFormed calls schedules outcomes l =
    run_calls-keeps calls _ l (record { distinct = tt; shaped = tt })

perform-Continues :
    (c : Call) (db : Db) → IsNotDeleting c → Continues db.task_runs (perform c db).task_runs
unfolding perform
perform-Continues (creating t) db l = create-Continues t db
perform-Continues (beating run_id at) db l = heartbeat-Continues run_id at db
perform-Continues (finishing run_id status message at) db l =
    finish-Continues run_id status message at db
perform-Continues (sweeping now) db l = sweep_timeouts-Continues now db
perform-Continues (deleting cutoff) db l = absurd l
perform-Continues (getting run_id) db l = get-Continues run_id db
perform-Continues (listing status) db l = list-Continues status db

-- Whatever methods but `DeleteOlderThan` are called, with whatever arguments and outcomes, no row
-- is lost, the id, name, source, start and TTL of each stay what they were, and a run that has an
-- end goes on having one.
pub run_calls-Continues :
    (calls : List Call) (db : Db)
    → All IsNotDeleting calls
    → Continues db.task_runs (run_calls calls db).task_runs
unfolding run_calls
run_calls-Continues [] db l = Continues-refl db.task_runs
run_calls-Continues (c ∷ cs) db l =
    Continues-trans db.task_runs (perform c db).task_runs _ (perform-Continues c db l.0)
      (run_calls-Continues cs (perform c db) l.1)
