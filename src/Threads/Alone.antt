-- ===== src/Threads/Alone.antt =====
-- A thread that nobody interrupts does what its handler or its job does in one piece, which is
-- how TaskHandler, Sweeper and System describe it.
use chronos_monitor.Prelude.{
  ℕ, zero, suc, ◌-◌, ◌≡◌, refl, ◌∙◌, String, Option, none, some, Bool, arith,
}
use chronos_monitor.Clock.{Time, sub, milliseconds}
use chronos_monitor.Models.{TaskStatus, TaskRun}
use chronos_monitor.Database.{Db, TaskRow, Result, ok, err, continue}
use chronos_monitor.Tasks.{create, heartbeat as store_heartbeat, get_row, get as get_run, finish}
use chronos_monitor.Broker.{EventType, Hub, publish}
use chronos_monitor.Server.{Server, Response, Handled, with_db, answer, failure}
use chronos_monitor.TaskHandler.{
  started_event, no_content, publish_read, publish_latest, touch_and_answer, after_create,
  after_store, start as start_handler, heartbeat as heartbeat_handler, success as success_handler,
  failed as failed_handler,
}
use chronos_monitor.System.{
  Request, start, heartbeat, success, failed, get_task, list_tasks, register, list_schedules,
  delete_schedule, serve,
}
use chronos_monitor.Threads.{
  Point, enter, after_statement, at_point, answered_of, not_found_or_internal, end_run, move,
}
use chronos_monitor.Threads.TickAlone.{then_}
use chronos_monitor.Threads.Ending.{Every, AnswersWithin, enter-AnswersWithin, move-AnswersWithin}
use chronos_monitor.Threads.Answers.{AnswersWithin-zero}

module _ (format : Time → String) (parse_standard : String → Option (Time → Time))
    (collates : String → String → Bool) where
  -- A thread's next `n` accesses, with none of another thread in between.
  unfoldable pub alone : ℕ → Point → Server → Option (Point × Server)
  alone zero p s = some (p, s)
  alone (suc n) p s = then_ (move format parse_standard collates p s) (alone n)

  -- What is left to do of a request, in one piece.
  abbrev rest : Point → Server → Option (Point × Server)
  rest (Point.creating t) s = answered_of (after_create t (create t s.db) s.hub)
  rest (Point.announcing t) s =
      answered_of (touch_and_answer t s.db (publish (started_event t) s.hub))
  rest (Point.touching t) s = answered_of (touch_and_answer t s.db (some s.hub))
  rest (Point.beating run_id now) s =
      answered_of (after_store run_id EventType.heartbeat (store_heartbeat run_id now s.db) s.hub)
  rest (Point.locating run_id status message now kind) s =
      answered_of (after_store run_id kind (finish run_id status message now s.db) s.hub)
  rest (Point.finishing run_id status message now kind duration) s =
      answered_of (after_store run_id kind (end_run run_id status message now duration s.db) s.hub)
  rest (Point.rereading run_id kind) s =
      answered_of (answer no_content (publish_latest run_id kind s))
  rest (Point.publishing evt) s = answered_of (answer no_content (with_db s.db (publish evt s.hub)))
  rest (Point.at_once q now) s = answered_of (serve format parse_standard collates q now s)
  rest (Point.answered r) s = some (Point.answered r, s)
  -- A tick is not part of a request.
  rest (Point.sweeping now t) s = none
  rest (Point.checking now t) s = none
  rest (Point.cleaning c now) s = none
  rest Point.cleaned s = none

  was_created :
      (t : TaskRun) (x : Result (Unit {0}) × Db) (hub : Hub)
      → then_
          (some (
            after_statement
              (λ _. Point.announcing t)
              (λ _. Point.answered (failure 500 "failed to record task start"))
              x
              hub))
          rest
        ≡ answered_of (after_create t x hub)
  unfolding after_statement answered_of
  was_created t (ok _, db) hub = refl
  was_created t (err e, db) hub = refl

  was_announced :
      (t : TaskRun) (db : Db) (hub : Option Hub)
      → then_ (at_point (Point.touching t) (with_db db hub)) rest
        ≡ answered_of (touch_and_answer t db hub)
  unfolding at_point answered_of
  was_announced t db none = refl
  was_announced t db (some hub) = refl

  was_stored :
      (run_id : String) (kind : EventType) (x : Result (Unit {0}) × Db) (hub : Hub)
      → then_
          (some (after_statement (λ _. Point.rereading run_id kind) not_found_or_internal x hub))
          rest
        ≡ answered_of (after_store run_id kind x hub)
  unfolding after_statement answered_of
  was_stored run_id kind (ok _, db) hub = refl
  was_stored run_id kind (err e, db) hub = refl

  was_located :
      (run_id : String) (status : TaskStatus) (message : String) (now : Time) (kind : EventType)
      (x : Result TaskRow × Db) (hub : Hub)
      → then_
          (some (
            after_statement
              (λ run.
                Point.finishing run_id status message now kind
                  (milliseconds (sub now run.started_at)))
              not_found_or_internal
              x
              hub))
          rest
        ≡ answered_of (
            after_store run_id kind
              (continue
                (λ run. end_run run_id status message now (milliseconds (sub now run.started_at)))
                x)
              hub)
  unfolding after_statement answered_of
  was_located run_id status message now kind (ok run, db) hub = refl
  was_located run_id status message now kind (err e, db) hub = refl

  was_reread :
      (kind : EventType) (x : Result TaskRun × Db) (hub : Hub)
      → then_
          (some (
            after_statement
              (λ task. Point.publishing (record { kind = kind; task = task }))
              (λ _. Point.answered no_content)
              x
              hub))
          rest
        ≡ answered_of (answer no_content (publish_read kind x hub))
  unfolding after_statement answered_of
  was_reread kind (ok task, db) hub = refl
  was_reread kind (err e, db) hub = refl

  was_answered :
      (r : Response) (x : Option Server)
      → then_ (at_point (Point.answered r) x) rest ≡ answered_of (answer r x)
  unfolding at_point answered_of
  was_answered r none = refl
  was_answered r (some s) = refl

  was_served : (x : Handled) → then_ (answered_of x) rest ≡ answered_of x
  unfolding answered_of
  was_served none = refl
  was_served (some (r, s)) = refl

  move-rest :
      (n : ℕ) (p : Point) (s : Server)
      → AnswersWithin n p
      → then_ (move format parse_standard collates p s) rest ≡ rest p s
  unfolding move finish end_run publish_latest answered_of
  move-rest n (Point.creating t) s h = was_created t (create t s.db) s.hub
  move-rest n (Point.announcing t) s h = was_announced t s.db (publish (started_event t) s.hub)
  move-rest n (Point.touching t) s h = refl
  move-rest n (Point.beating run_id now) s h = was_stored run_id _ _ s.hub
  move-rest n (Point.locating run_id status message now kind) s h =
      was_located run_id status message now kind (get_row run_id s.db) s.hub
  move-rest n (Point.finishing run_id status message now kind duration) s h =
      was_stored run_id kind (end_run run_id status message now duration s.db) s.hub
  move-rest n (Point.rereading run_id kind) s h = was_reread kind (get_run run_id s.db) s.hub
  move-rest n (Point.publishing evt) s h =
      was_answered no_content (with_db s.db (publish evt s.hub))
  move-rest n (Point.at_once q now) s h = was_served (serve format parse_standard collates q now s)
  move-rest n (Point.answered r) s h = refl
  move-rest n (Point.sweeping now t) s h = absurd h
  move-rest n (Point.checking now t) s h = absurd h
  move-rest n (Point.cleaning c now) s h = absurd h
  move-rest n Point.cleaned s h = absurd h

  then-alone :
      (n : ℕ) (x : Option (Point × Server))
      → ((p : Point) (s : Server) → AnswersWithin n p → alone n p s ≡ rest p s)
      → Every (λ p s. AnswersWithin n p) x
      → then_ x (alone n) ≡ then_ x rest
  then-alone n none f h = refl
  then-alone n (some (p, s)) f h = f p s h

  alone_lem : (n : ℕ) (p : Point) (s : Server) → AnswersWithin n p → alone n p s ≡ rest p s
  unfolding alone
  alone_lem zero p s h = let (r, e) = AnswersWithin-zero p h in rw e refl
  alone_lem (suc n) p s h =
      let e : suc n - 1 ≡ n = omega arith in
      let k = move-AnswersWithin format parse_standard collates (suc n) p s h in
      then-alone n (move format parse_standard collates p s) (alone_lem n) (rw e at k)
      ∙ move-rest (suc n) p s h

  enter-rest :
      (q : Request) (now : Time) (s : Server)
      → rest (enter q now) s ≡ answered_of (serve format parse_standard collates q now s)
  unfolding enter serve start_handler heartbeat_handler success_handler failed_handler answered_of
  enter-rest (start none new_string) now s = refl
  enter-rest (start (some req) new_string) now s = refl
  enter-rest (heartbeat none) now s = refl
  enter-rest (heartbeat (some req)) now s = refl
  enter-rest (success none) now s = refl
  enter-rest (success (some req)) now s = refl
  enter-rest (failed none) now s = refl
  enter-rest (failed (some req)) now s = refl
  enter-rest (get_task run_id) now s = refl
  enter-rest (list_tasks status) now s = refl
  enter-rest (register body) now s = refl
  enter-rest list_schedules now s = refl
  enter-rest (delete_schedule task_name) now s = refl

  -- Four accesses of a request's thread with no other thread's in between answer what the handler
  -- answers and leave what it leaves, whatever the state and the outcomes of the statements.
  pub alone-enter :
      (q : Request) (now : Time) (s : Server)
      → alone 4 (enter q now) s ≡ answered_of (serve format parse_standard collates q now s)
  alone-enter q now s = alone_lem 4 (enter q now) s (enter-AnswersWithin q now) ∙ enter-rest q now s
