-- ===== src/Threads.antt =====
-- The server's goroutines, interleaved access by access: each request of internal/handlers and each
-- tick of a job is a thread that stops between one statement of the database or one method of the
-- hub and the next, and any thread may go on at any moment. A `Query` with its loop over the rows is
-- one access, since the rows are of one moment.
pub mod Ticks
pub mod TickSafety
pub mod Safety
pub mod Lookup
pub mod Ending
pub mod Lives
pub mod Interleavings
pub mod LivesOn
pub mod After
pub mod Continuing
pub mod Settled
pub mod Answers
pub mod TickAlone
pub mod Alone
pub mod SweepAlone
mod Race
mod Tests
use chronos_monitor.Prelude.{
  ℕ, zero, suc, String, ℤ, ltb_ℤ, List, [], ◌∷◌, ◌++◌, Option, none, some, Bool, ◌==◌,
  if◌then◌else◌,
}
use chronos_monitor.Clock.{Time, sub, milliseconds}
use chronos_monitor.Models.{TaskStatus, TaskRun, Schedule}
use chronos_monitor.Database.{
  Db, Error, Result, ok, err, M, ◌>>=◌, exec, query, check_rows_affected,
}
use chronos_monitor.Database.Rounds.{candidates}
use chronos_monitor.Tasks as Tasks
use chronos_monitor.Tasks.{
  create, heartbeat as store_heartbeat, get_row, get as get_run, update_runs, has_run_id,
  finish_row, expire, within_ttl,
}
use chronos_monitor.Schedules as Schedules
use chronos_monitor.Schedules.{touch, flag}
use chronos_monitor.Broker.{EventType, Event, Hub, subscribe, unsubscribe, receive, publish}
use chronos_monitor.Server.{Server, Response, Handled, started_id, failure, with_db}
use chronos_monitor.TaskHandler.{
  bad_binding, no_content, respond_store_err, started_run, started_event,
}
use chronos_monitor.Sweeper.{timeout_event}
use chronos_monitor.MissedRun.{missed_event}
use chronos_monitor.Cleaner.{Cleaner, clean_once}
use chronos_monitor.System.{
  Request, start, heartbeat, success, failed, get_task, list_tasks, register, list_schedules,
  delete_schedule, serve,
}
use chronos_monitor.Threads.Ticks.{Tick, querying, tick_move}

-- Where a thread stands: its next access and the local variables that are live there.
pub data Point : Type 0 where
  -- `Start`: before `Create`, before `Publish`, before `Touch`
  creating announcing touching : TaskRun → Point
  -- `Heartbeat`: before the call of the store
  beating : String → Time → Point
  -- `Success` and `Failed`: before the SELECT and before the UPDATE of `Finish`
  locating : String → TaskStatus → String → Time → EventType → Point
  finishing : String → TaskStatus → String → Time → EventType → ℤ → Point
  -- `publishLatest`: before `Get` and before `Publish`
  rereading : String → EventType → Point
  publishing : Event → Point
  -- the other routes, which call one method of a store
  at_once : Request → Time → Point
  -- a tick of a job
  sweeping : Time → Tick Tasks.Candidate TaskRun → Point
  checking : Time → Tick Schedules.Candidate Schedule → Point
  cleaning : Cleaner → Time → Point
  -- the end of a request, and of a tick of the retention job
  answered : Response → Point
  cleaned : Point

-- A request before its first access.
unfoldable pub enter : Request → Time → Point
enter (start none new_string) now = Point.answered bad_binding
enter (start (some req) new_string) now = Point.creating (started_run req new_string now)
enter (heartbeat none) now = Point.answered bad_binding
enter (heartbeat (some req)) now = Point.beating req.run_id now
enter (success none) now = Point.answered bad_binding
enter (success (some req)) now =
    Point.locating req.run_id TaskStatus.success "" now EventType.succeeded
enter (failed none) now = Point.answered bad_binding
enter (failed (some req)) now =
    Point.locating req.run_id TaskStatus.failed req.error_message now EventType.failed
enter request now = Point.at_once request now

-- What a statement leads to; an error is answered at once.
unfoldable pub after_statement {ℓ} :
    {A : Type ℓ} → (A → Point) → (Error → Point) → Result A × Db → Hub → Point × Server
after_statement next refuse (ok a, db) hub = (next a, record { db = db; hub = hub })
after_statement next refuse (err e, db) hub = (refuse e, record { db = db; hub = hub })

unfoldable pub at_point : Point → Option Server → Option (Point × Server)
at_point p none = none
at_point p (some s) = some (p, s)

unfoldable pub answered_of : Handled → Option (Point × Server)
answered_of none = none
answered_of (some (r, s)) = some (Point.answered r, s)

unfoldable pub with_tick :
    {C A : Type 0} → (Tick C A → Point) → Option (Tick C A × Server) → Option (Point × Server)
with_tick point none = none
with_tick point (some (t, s)) = some (point t, s)

abbrev pub not_found_or_internal : Error → Point
not_found_or_internal e = Point.answered (respond_store_err e "task run not found")

-- The second statement of `Finish`, with the duration that the first led to.
unfoldable pub end_run : String → TaskStatus → String → Time → ℤ → M (Unit {0})
end_run run_id status message at duration =
    exec (update_runs (has_run_id run_id) (finish_row status at duration message))
    >>= check_rows_affected

abbrev pub select_runs : M (List Tasks.Candidate)
select_runs = query (λ d. candidates Tasks.candidate_of d.task_runs)

module _ (format : Time → String) (parse_standard : String → Option (Time → Time))
    (collates : String → String → Bool) where
  abbrev pub select_schedules : M (List Schedules.Candidate)
  select_schedules =
      query (λ d. candidates (Schedules.candidate_of parse_standard) d.task_schedules)

  abbrev pub sweep_move :
      Time → Tick Tasks.Candidate TaskRun → Server → Option (Tick Tasks.Candidate TaskRun × Server)
  sweep_move now =
      tick_move select_runs (within_ttl now) (expire now) (λ c. get_run c.run_id) timeout_event

  abbrev pub check_move :
      Time
      → Tick Schedules.Candidate Schedule
      → Server
      → Option (Tick Schedules.Candidate Schedule × Server)
  check_move now =
      tick_move select_schedules (λ c. ltb_ℤ now c.deadline) (flag now)
        (λ c. Schedules.get c.task_name) (missed_event format)

  -- A thread's next access; `none` for a panic of the hub.
  unfoldable pub move : Point → Server → Option (Point × Server)
  move (creating t) s = some (
      after_statement (λ _. announcing t)
        (λ _. answered (failure 500 "failed to record task start")) (create t s.db) s.hub)
  move (announcing t) s = at_point (touching t) (with_db s.db (publish (started_event t) s.hub))
  move (touching t) s = some (
    answered (record { status = 201; body = started_id t.run_id }),
    record s { db = (touch t.task_name t.started_at s.db).1 },
  )
  move (beating run_id now) s = some (
      after_statement (λ _. rereading run_id EventType.heartbeat) not_found_or_internal
        (store_heartbeat run_id now s.db) s.hub)
  move (locating run_id status message now kind) s = some (
      after_statement
        (λ run. finishing run_id status message now kind (milliseconds (sub now run.started_at)))
        not_found_or_internal (get_row run_id s.db) s.hub)
  move (finishing run_id status message now kind duration) s = some (
      after_statement (λ _. rereading run_id kind) not_found_or_internal
        (end_run run_id status message now duration s.db) s.hub)
  move (rereading run_id kind) s = some (
      after_statement (λ task. publishing (record { kind = kind; task = task }))
        (λ _. answered no_content) (get_run run_id s.db) s.hub)
  move (publishing evt) s = at_point (answered no_content) (with_db s.db (publish evt s.hub))
  move (at_once request now) s = answered_of (serve format parse_standard collates request now s)
  move (sweeping now t) s = with_tick (sweeping now) (sweep_move now t s)
  move (checking now t) s = with_tick (checking now) (check_move now t s)
  move (cleaning c now) s = some (cleaned, clean_once c now s)
  move (answered r) s = some (answered r, s)
  move cleaned s = some (cleaned, s)

-- The threads that were started so far, over the server that they share.
pub record Pool : Type 0 where
  pub server : Server
  pub threads : List Point

-- What happens next: a request comes in, a job's ticker fires, a thread makes its next access, or a
-- client of the event stream subscribes, leaves or takes an event.
pub data Turn : Type 0 where
  arriving : Request → Time → Turn
  sweep_due check_due : Time → Turn
  clean_due : Cleaner → Time → Turn
  moving : ℕ → Turn
  joining : Turn
  leaving receiving : ℕ → Turn

abbrev pub thread_at : ℕ → List Point → Option Point
thread_at i [] = none
thread_at zero (p ∷ ps) = some p
thread_at (suc i) (p ∷ ps) = thread_at i ps

abbrev pub replace_at : ℕ → Point → List Point → List Point
replace_at i q [] = []
replace_at zero q (p ∷ ps) = q ∷ ps
replace_at (suc i) q (p ∷ ps) = p ∷ replace_at i q ps

abbrev pub begin : Point → Pool → Option Pool
begin p pool = some (record pool { threads = pool.threads ++ p ∷ [] })

abbrev pub moved : ℕ → Pool → Option (Point × Server) → Option Pool
moved i pool none = none
moved i pool (some (p, s)) = some (record { server = s; threads = replace_at i p pool.threads })

abbrev pub on_server : Pool → Option Server → Option Pool
on_server pool none = none
on_server pool (some s) = some (record pool { server = s })

abbrev pub then_pool : Option Pool → (Pool → Option Pool) → Option Pool
then_pool none f = none
then_pool (some pool) f = f pool

module _ (format : Time → String) (parse_standard : String → Option (Time → Time))
    (collates : String → String → Bool) where
  -- A number that names no thread is a turn of nobody.
  abbrev pub move_thread : ℕ → Pool → Option Point → Option Pool
  move_thread i pool none = some pool
  move_thread i pool (some p) = moved i pool (move format parse_standard collates p pool.server)

  unfoldable pub turn : Turn → Pool → Option Pool
  turn (arriving request now) pool = begin (enter request now) pool
  turn (sweep_due now) pool = begin (Point.sweeping now Tick.querying) pool
  turn (check_due now) pool = begin (Point.checking now Tick.querying) pool
  turn (clean_due c now) pool = begin (Point.cleaning c now) pool
  turn (moving i) pool = move_thread i pool (thread_at i pool.threads)
  turn joining pool =
      some (record pool { server = record pool.server { hub = (subscribe pool.server.hub).1 } })
  turn (leaving id) pool = on_server pool (with_db pool.server.db (unsubscribe id pool.server.hub))
  turn (receiving id) pool =
      some (record pool { server = record pool.server { hub = (receive id pool.server.hub).1 } })

  unfoldable pub turns : List Turn → Pool → Option Pool
  turns [] pool = some pool
  turns (t ∷ ts) pool = then_pool (turn t pool) (turns ts)
