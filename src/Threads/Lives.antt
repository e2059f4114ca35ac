-- ===== src/Threads/Lives.antt =====
-- What the server's threads may do to the tables: what every write respects, every access does, but
-- those of the retention job.
use chronos_monitor.Prelude.{
  ◌≡◌, String, ℤ, List, [], ◌∷◌, Option, none, some, Bool, Bool-cases, inl, inr,
}
use chronos_monitor.Clock.{Time}
use chronos_monitor.Models.{TaskStatus}
use chronos_monitor.Database.{TaskRow, Db, Result, ok, err, M, Write, RowsAffected, exec}
use chronos_monitor.Database.Steps.{StateOrder}
use chronos_monitor.Tasks as Tasks
use chronos_monitor.Tasks.{
  expire, insert_run, update_runs, is_running_run, has_run_id, beat, finish_row,
}
use chronos_monitor.Broker.{Event, Hub}
use chronos_monitor.Server.{Server}
use chronos_monitor.System.{
  Request, start, heartbeat, success, failed, get_task, list_tasks, register, list_schedules,
  delete_schedule,
}
use chronos_monitor.Threads.{Point, enter}
use chronos_monitor.Threads.Ticks.{
  Tick, after_select, after_write, after_read, after_publish, tick_move,
}
use chronos_monitor.Threads.Ending.{Every}

-- What each write to the tables respects, of those that a thread may make. Whether one may end a
-- run for a report of its worker is `Ending`.
pub record Respects (R : Db → Db → Type 0) (Ending : Type 0) : Type 0 where
  pub order : StateOrder R
  pub still : (a b : Db) → b.task_runs ≡ a.task_runs → R a b
  pub creates : (row : TaskRow) (db : Db) → R db (insert_run row db).1
  pub beats :
      (run_id : String) (at : Time) (db : Db)
      → R db (update_runs (is_running_run run_id) (beat at) db).1
  pub expires : (now : Time) (c : Tasks.Candidate) (db : Db) → R db (expire now c db).1
  pub ends :
      Ending
      → (run_id : String) (status : TaskStatus) (message : String) (at : Time) (duration : ℤ)
        (db : Db)
      → R db (update_runs (has_run_id run_id) (finish_row status at duration message) db).1

-- The requests that a thread serves in one access, and the threads but those of the retention job.
abbrev pub IsSingle : Request → Type 0
IsSingle (get_task run_id) = Unit
IsSingle (list_tasks status) = Unit
IsSingle (register body) = Unit
IsSingle list_schedules = Unit
IsSingle (delete_schedule task_name) = Unit
IsSingle (start body new_string) = ⊥
IsSingle (heartbeat body) = ⊥
IsSingle (success body) = ⊥
IsSingle (failed body) = ⊥

abbrev pub IsKeeping : Type 0 → Point → Type 0
IsKeeping Ending (Point.at_once q now) = IsSingle q
IsKeeping Ending (Point.cleaning c now) = ⊥
IsKeeping Ending (Point.creating t) = Unit
IsKeeping Ending (Point.announcing t) = Unit
IsKeeping Ending (Point.touching t) = Unit
IsKeeping Ending (Point.beating run_id now) = Unit
IsKeeping Ending (Point.locating run_id status message now kind) = Ending
IsKeeping Ending (Point.finishing run_id status message now kind duration) = Ending
IsKeeping Ending (Point.rereading run_id kind) = Unit
IsKeeping Ending (Point.publishing evt) = Unit
IsKeeping Ending (Point.sweeping now t) = Unit
IsKeeping Ending (Point.checking now t) = Unit
IsKeeping Ending (Point.answered r) = Unit
IsKeeping Ending Point.cleaned = Unit

-- A request that reports the end of a run asks for `Ending`.
abbrev pub IsAllowed : Type 0 → Request → Type 0
IsAllowed Ending (success body) = Ending
IsAllowed Ending (failed body) = Ending
IsAllowed Ending (start body new_string) = Unit
IsAllowed Ending (heartbeat body) = Unit
IsAllowed Ending (get_task run_id) = Unit
IsAllowed Ending (list_tasks status) = Unit
IsAllowed Ending (register body) = Unit
IsAllowed Ending list_schedules = Unit
IsAllowed Ending (delete_schedule task_name) = Unit

pub enter-IsKeeping :
    (Ending : Type 0) (q : Request) (now : Time)
    → IsAllowed Ending q
    → IsKeeping Ending (enter q now)
unfolding enter
enter-IsKeeping Ending (start none new_string) now a = tt
enter-IsKeeping Ending (start (some req) new_string) now a = tt
enter-IsKeeping Ending (heartbeat none) now a = tt
enter-IsKeeping Ending (heartbeat (some req)) now a = tt
enter-IsKeeping Ending (success none) now a = tt
enter-IsKeeping Ending (success (some req)) now a = a
enter-IsKeeping Ending (failed none) now a = tt
enter-IsKeeping Ending (failed (some req)) now a = a
enter-IsKeeping Ending (get_task run_id) now a = tt
enter-IsKeeping Ending (list_tasks status) now a = tt
enter-IsKeeping Ending (register body) now a = tt
enter-IsKeeping Ending list_schedules now a = tt
enter-IsKeeping Ending (delete_schedule task_name) now a = tt

-- The tables before and after, where an access does not panic.
abbrev pub Grows : (Db → Db → Type 0) → {P : Type 0} → Server → Option (P × Server) → Type 0
Grows R s = Every (λ p s'. R s.db s'.db)

module _ (R : Db → Db → Type 0) (o : StateOrder R) (C A : Type 0) where
  after_select_respects :
      (a : Db) (x : Result (List C) × Db) (hub : Hub)
      → R a x.1
      → R a (after_select {C = C} {A = A} x hub).1.db
  after_select_respects a (ok cs, db) hub h = h
  after_select_respects a (err e, db) hub h = h

  after_write_respects :
      (a : Db) (x : Result RowsAffected × Db) (cs : List C) (found : List A) (c : C) (hub : Hub)
      → R a x.1
      → R a (after_write x cs found c hub).1.db
  after_write_respects a (ok n, db) cs found c hub h = h
  after_write_respects a (err e, db) cs found c hub h = h

  after_read_respects :
      (a : Db) (x : Result A × Db) (cs : List C) (found : List A) (hub : Hub)
      → R a x.1
      → R a (after_read x cs found hub).1.db
  after_read_respects a (ok v, db) cs found hub h = h
  after_read_respects a (err e, db) cs found hub h = h

  after_publish-Grows :
      (s : Server) (hub : Option Hub) (evts : List Event)
      → Grows R s (after_publish {C = C} {A = A} hub evts s.db)
  after_publish-Grows s none evts = tt
  after_publish-Grows s (some hub) evts = o.start s.db

  module _ (select : M (List C)) (is_early : C → Bool) (write : C → Write) (read : C → M A)
      (event_of : A → Event) (selects : (db : Db) → R db (select db).1)
      (writes : (c : C) (db : Db) → R db (exec (write c) db).1)
      (reads : (c : C) (db : Db) → R db (read c db).1) where
    pub tick_move-Grows :
        (t : Tick C A) (s : Server) → Grows R s (tick_move select is_early write read event_of t s)
    unfolding tick_move
    tick_move-Grows Tick.querying s = after_select_respects s.db _ s.hub (selects s.db)
    tick_move-Grows (Tick.visiting [] found) s = o.start s.db
    tick_move-Grows (Tick.visiting (c ∷ cs) found) s = elim (Bool-cases (is_early c)) [
      | inl early ↦ rw early (o.start s.db)
      | inr late ↦ rw late (after_write_respects s.db _ cs found c s.hub (writes c s.db))
    ]
    tick_move-Grows (Tick.reading cs found c) s =
        after_read_respects s.db _ cs found s.hub (reads c s.db)
    tick_move-Grows (Tick.publishing []) s = o.start s.db
    tick_move-Grows (Tick.publishing (evt ∷ evts)) s = after_publish-Grows s _ evts
    tick_move-Grows Tick.over s = o.start s.db
