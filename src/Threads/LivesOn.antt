-- ===== src/Threads/LivesOn.antt =====
-- No access of a thread but those of the retention job loses a run or undoes its end.
use chronos_monitor.Prelude.{◌≡◌, refl, ℤ, String, Option, none, some, Bool, inl, inr}
use chronos_monitor.Clock.{Time}
use chronos_monitor.Models.{TaskStatus, RegisterScheduleRequest}
use chronos_monitor.Database.{exec, check_rows_affected, ScheduleRow, Db, Error, Result, ok, err}
use chronos_monitor.Database.Steps.{query-Steps, bind-Steps, exec-Steps, check_rows_affected-Steps}
use chronos_monitor.Tasks.Effects.{
  get_row-Steps, get-Steps, list-Steps, create-Steps, heartbeat-Steps,
}
use chronos_monitor.Tasks.{created_row}
use chronos_monitor.Schedules.{Expectation, upsert, upsert_with}
use chronos_monitor.Schedules.Effects as Writes
use chronos_monitor.Broker.{Hub, publish}
use chronos_monitor.Server.{Server, Response, with_db}
use chronos_monitor.TaskHandler.{started_event, get, list}
use chronos_monitor.ScheduleHandler.{
  after_upsert, register as register_handler, expectation_of, list as list_handler,
  delete as delete_handler,
}
use chronos_monitor.ScheduleHandler.Validation.{register_cases}
use chronos_monitor.System.{
  Request, start, heartbeat, success, failed, get_task, list_tasks, register, list_schedules,
  delete_schedule, serve,
}
use chronos_monitor.System.Invariant.{
  answer_task-state, answer_tasks-state, after_upsert-state, answer_schedules-state,
  after_delete-state,
}
use chronos_monitor.Threads.{
  end_run, Point, after_statement, at_point, answered_of, with_tick, move,
}
use chronos_monitor.Threads.Ticks.{Tick}
use chronos_monitor.Threads.Ending.{Every}
use chronos_monitor.Threads.Lives.{Respects, Grows, IsSingle, IsKeeping, tick_move-Grows}

-- An access of a thread that goes on without the retention job.
abbrev pub LivesOn : (Db → Db → Type 0) → Type 0 → Server → Option (Point × Server) → Type 0
LivesOn R Ending s = Every (λ p s'. IsKeeping Ending p × R s.db s'.db)

module _ (R : Db → Db → Type 0) (Ending : Type 0) (x : Respects R Ending) where
  -- A step that leaves the runs as they are.
  untouched : (a : Db) → R a a
  untouched a = x.order.start a

  ending :
      Ending
      → (run_id : String) (status : TaskStatus) (message : String) (at : Time) (duration : ℤ)
        (db : Db)
      → R db (end_run run_id status message at duration db).1
  unfolding end_run
  ending may run_id status message at duration =
      bind-Steps R x.order (exec _) check_rows_affected
        (exec-Steps R x.order _ (x.ends may run_id status message at duration))
        (check_rows_affected-Steps R x.order)

  upserts :
      (old : Option ScheduleRow) (task_name : String) (e : Expectation) (now : Time) (db : Db)
      → R db (upsert_with old task_name e now db).1
  upserts none task_name e now db = x.still db _ refl
  upserts (some old) task_name e now db = x.still db _ refl

  stated {ℓ} :
      {A : Type ℓ} (next : A → Point) (refuse : Error → Point) (y : Result A × Db) (s : Server)
      → R s.db y.1
      → ((a : A) → IsKeeping Ending (next a))
      → ((e : Error) → IsKeeping Ending (refuse e))
      → LivesOn R Ending s (some (after_statement next refuse y s.hub))
  unfolding after_statement
  stated next refuse (ok a, db) s h f g = (f a, h)
  stated next refuse (err e, db) s h f g = (g e, h)

  published :
      (p : Point) (hub : Option Hub) (s : Server)
      → IsKeeping Ending p
      → LivesOn R Ending s (at_point p (with_db s.db hub))
  unfolding at_point
  published p none s l = tt
  published p (some hub) s l = (l, untouched s.db)

  ticked :
      {C A : Type 0} (point : Tick C A → Point) (y : Option (Tick C A × Server)) (s : Server)
      → ((t : Tick C A) → IsKeeping Ending (point t))
      → Grows R s y
      → LivesOn R Ending s (with_tick point y)
  unfolding with_tick
  ticked point none s l h = tt
  ticked point (some (t, s')) s l h = (l t, h)

  aside :
      (y : Response × Server) (db : Db) (s : Server)
      → y.1 ≡ record { db = db; hub = s.hub }
      → R s.db db
      → LivesOn R Ending s (answered_of (some y))
  unfolding answered_of
  aside x db s e h = (tt, rw e h)

  module _ (format : Time → String) (parse_standard : String → Option (Time → Time))
      (collates : String → String → Bool) where
    registers :
        (body : Option RegisterScheduleRequest) (now : Time) (s : Server)
        → LivesOn R Ending s (answered_of (some (register_handler parse_standard body now s)))
    unfolding register_handler answered_of
    registers none now s = (tt, untouched s.db)
    registers (some req) now s = elim (register_cases parse_standard req now s) [
      | inl (valid, e) ↦ rw e (
          aside (after_upsert (upsert req.task_name (expectation_of req) now s.db) s.hub) _ s
            (after_upsert-state (upsert req.task_name (expectation_of req) now s.db) s.hub)
            (Writes.upsert-Steps R x.order req.task_name (expectation_of req) now
              (λ d. upserts _ req.task_name (expectation_of req) now d) s.db))
      | inr (invalid, code, e) ↦ rw e (tt, untouched s.db)
    ]

    served :
        (q : Request) (now : Time) (s : Server)
        → IsSingle q
        → LivesOn R Ending s (answered_of (serve format parse_standard collates q now s))
    unfolding serve get list list_handler delete_handler
    served (get_task run_id) now s l =
        aside _ _ s (answer_task-state _ s.hub) (get-Steps R x.order run_id s.db)
    served (list_tasks status) now s l =
        aside _ _ s (answer_tasks-state _ s.hub) (list-Steps R x.order status s.db)
    served (register body) now s l = registers body now s
    served list_schedules now s l =
        aside _ _ s (answer_schedules-state _ s.hub) (Writes.list-Steps R x.order collates s.db)
    served (delete_schedule task_name) now s l =
        aside _ _ s (after_delete-state _ s.hub)
          (Writes.delete-Steps R x.order task_name (λ d. x.still d _ refl) s.db)
    served (start body new_string) now s l = absurd l
    served (heartbeat body) now s l = absurd l
    served (success body) now s l = absurd l
    served (failed body) now s l = absurd l

    pub move-LivesOn :
        (p : Point) (s : Server)
        → IsKeeping Ending p
        → LivesOn R Ending s (move format parse_standard collates p s)
    unfolding move
    move-LivesOn (Point.creating t) s l =
        stated _ _ _ s (create-Steps R x.order t (x.creates (created_row t)) s.db) (λ _. tt)
          (λ e. tt)
    move-LivesOn (Point.announcing t) s l =
        published (Point.touching t) (publish (started_event t) s.hub) s tt
    move-LivesOn (Point.touching t) s l =
        (tt, Writes.touch-Steps R x.order t.task_name t.started_at (λ d. x.still d _ refl) s.db)
    move-LivesOn (Point.beating run_id now) s l =
        stated _ _ _ s (heartbeat-Steps R x.order run_id now (x.beats run_id now) s.db) (λ _. tt)
          (λ e. tt)
    move-LivesOn (Point.locating run_id status message now kind) s l =
        stated _ _ _ s (get_row-Steps R x.order run_id s.db) (λ _. l) (λ e. tt)
    move-LivesOn (Point.finishing run_id status message now kind duration) s l =
        stated _ _ _ s (ending l run_id status message now duration s.db) (λ _. tt) (λ e. tt)
    move-LivesOn (Point.rereading run_id kind) s l =
        stated _ _ _ s (get-Steps R x.order run_id s.db) (λ _. tt) (λ e. tt)
    move-LivesOn (Point.publishing evt) s l = published (Point.answered _) (publish evt s.hub) s tt
    move-LivesOn (Point.at_once q now) s l = served q now s l
    move-LivesOn (Point.sweeping now t) s l =
        ticked (Point.sweeping now) _ s (λ t'. tt)
          (tick_move-Grows R x.order _ _ _ _ _ _ _ (query-Steps R x.order _)
            (λ c. exec-Steps R x.order _ (x.expires now c)) (λ c. get-Steps R x.order c.run_id) t s)
    move-LivesOn (Point.checking now t) s l =
        ticked (Point.checking now) _ s (λ t'. tt)
          (tick_move-Grows R x.order _ _ _ _ _ _ _ (query-Steps R x.order _)
            (λ c. exec-Steps R x.order _ (λ d. x.still d _ refl))
            (λ c. Writes.get-Steps R x.order c.task_name) t s)
    move-LivesOn (Point.cleaning c now) s l = absurd l
    move-LivesOn (Point.answered r) s l = (tt, untouched s.db)
    move-LivesOn Point.cleaned s l = (tt, untouched s.db)
