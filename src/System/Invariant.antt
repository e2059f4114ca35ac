-- ===== src/System/Invariant.antt =====
-- What holds after any steps of the server: no step panics, both tables satisfy their invariants,
-- the hub is sound; and a request that is answered with an error publishes nothing.
use chronos_monitor.Prelude.{Bool, String, ◌<◌, ◌≡◌, refl, ◌⊎◌, inl, inr, List, Option, none, some}
use chronos_monitor.Clock.{Time}
use chronos_monitor.Models.{TaskStatus, TaskRun, Schedule, RegisterScheduleRequest}
use chronos_monitor.Database.{Db, Result, ok, err}
use chronos_monitor.Broker.{Hub}
use chronos_monitor.Broker.Publishing.{IsSound}
use chronos_monitor.Broker.Soundness.{subscribe-IsSound, unsubscribe-IsSound, receive-IsSound}
use chronos_monitor.Schedules.{upsert}
use chronos_monitor.Server.{Server, Response, Handled, Answers, Answers-imp, Leaves}
use chronos_monitor.TaskHandler.{answer_task, answer_tasks, get, list}
use chronos_monitor.TaskHandler.Safety.{
  IsSafe, start-IsSafe, heartbeat-IsSafe, success-IsSafe, failed-IsSafe,
}
use chronos_monitor.ScheduleHandler.{
  after_upsert, answer_schedules, after_delete, register, expectation_of,
  list as list_schedules_handler, delete as delete_handler,
}
use chronos_monitor.ScheduleHandler.Validation.{register_cases}
use chronos_monitor.Sweeper.{timeout_event, sweep_once}
use chronos_monitor.Sweeper.Publishing.{after_sweep-IsSound}
use chronos_monitor.Cleaner.{cutoff_of, clean_once}
use chronos_monitor.MissedRun.{missed_event, check_once}
use chronos_monitor.System.{
  Request, start, heartbeat, success, failed, get_task, list_tasks, register as register_request,
  list_schedules, delete_schedule, Step, serving, sweeping, checking, cleaning, joining, leaving,
  receiving, serve, step,
}
use chronos_monitor.System.Stores.{
  IsConsistent, Keeps, Keeps-order, create-Keeps, heartbeat-Keeps, finish-Keeps, get-Keeps,
  list-Keeps, sweep_timeouts-Keeps, delete_older_than-Keeps, upsert-Keeps, touch-Keeps,
  delete_schedule-Keeps, list_schedules-Keeps, detect_missed-Keeps,
}

-- The handlers that answer with what a store returns leave its database and the hub.
pub answer_task-state :
    (x : Result TaskRun × Db) (hub : Hub) → (answer_task x hub).1 ≡ record { db = x.1; hub = hub }
answer_task-state (ok t, db) hub = refl
answer_task-state (err e, db) hub = refl

pub answer_tasks-state :
    (x : Result (List TaskRun) × Db) (hub : Hub)
    → (answer_tasks x hub).1 ≡ record { db = x.1; hub = hub }
answer_tasks-state (ok t, db) hub = refl
answer_tasks-state (err e, db) hub = refl

pub after_upsert-state :
    (x : Result (Unit {0}) × Db) (hub : Hub)
    → (after_upsert x hub).1 ≡ record { db = x.1; hub = hub }
after_upsert-state (ok t, db) hub = refl
after_upsert-state (err e, db) hub = refl

pub answer_schedules-state :
    (x : Result (List Schedule) × Db) (hub : Hub)
    → (answer_schedules x hub).1 ≡ record { db = x.1; hub = hub }
answer_schedules-state (ok t, db) hub = refl
answer_schedules-state (err e, db) hub = refl

pub after_delete-state :
    (x : Result (Unit {0}) × Db) (hub : Hub)
    → (after_delete x hub).1 ≡ record { db = x.1; hub = hub }
after_delete-state (ok t, db) hub = refl
after_delete-state (err e, db) hub = refl

module _ (format : Time → String) (parse_standard : String → Option (Time → Time))
    (collates : String → String → Bool) where
  pub record IsHealthy (s : Server) : Type 0 where
    pub db : IsConsistent parse_standard s.db
    pub hub : IsSound s.hub

  -- What a request leaves.
  abbrev pub Serves : Server → Response → Server → Type 0
  Serves s r s' = IsHealthy s' × ((r.status < 300) ⊎ (s'.hub ≡ s.hub))

  safe :
      (s : Server) (x : Handled)
      → IsHealthy s
      → Answers (IsSafe (Keeps parse_standard) (Keeps-order parse_standard) s.db s.hub) x
      → Answers (Serves s) x
  safe s x h = Answers-imp _ (Serves s) x (λ r s' k. (record { db = k.0 h.db; hub = k.1 }, k.2))

  -- A handler that leaves the hub as it is.
  aside :
      (s : Server) (x : Response × Server) (db : Db)
      → x.1 ≡ record { db = db; hub = s.hub }
      → Keeps parse_standard s.db db
      → IsHealthy s
      → Serves s x.0 x.1
  aside s x db e k h = rw e (record { db = k h.db; hub = h.hub }, inr refl)

  registers :
      (body : Option RegisterScheduleRequest) (now : Time) (s : Server)
      → IsHealthy s
      → Serves s (register parse_standard body now s).0 (register parse_standard body now s).1
  unfolding register
  registers none now s h = (h, inr refl)
  registers (some req) now s h = elim (register_cases parse_standard req now s) [
    | inl (valid, e) ↦ rw e (
        aside s (after_upsert (upsert req.task_name (expectation_of req) now s.db) s.hub) _
          (after_upsert-state _ s.hub)
          (upsert-Keeps parse_standard req.task_name (expectation_of req) now s.db valid) h)
    | inr (invalid, code, e) ↦ rw e (h, inr refl)
  ]

  pub serve-Serves :
      (q : Request) (now : Time) (s : Server)
      → IsHealthy s
      → Answers (Serves s) (serve format parse_standard collates q now s)
  unfolding serve get list list_schedules_handler delete_handler
  serve-Serves (start body new_string) now s h = safe s _ h (
      start-IsSafe (Keeps parse_standard) (Keeps-order parse_standard) s h.hub body new_string now
        (λ req db. create-Keeps parse_standard _ db refl)
        (λ name db. touch-Keeps parse_standard name now db))
  serve-Serves (heartbeat body) now s h = safe s _ h (
      heartbeat-IsSafe (Keeps parse_standard) (Keeps-order parse_standard) s h.hub body now
        (λ run_id db. heartbeat-Keeps parse_standard run_id now db))
  serve-Serves (success body) now s h = safe s _ h (
      success-IsSafe (Keeps parse_standard) (Keeps-order parse_standard) s h.hub now
        (λ run_id db. finish-Keeps parse_standard run_id TaskStatus.success "" now db tt)
        (λ run_id message db.
          finish-Keeps parse_standard run_id TaskStatus.failed message now db tt)
        body)
  serve-Serves (failed body) now s h = safe s _ h (
      failed-IsSafe (Keeps parse_standard) (Keeps-order parse_standard) s h.hub now
        (λ run_id db. finish-Keeps parse_standard run_id TaskStatus.success "" now db tt)
        (λ run_id message db.
          finish-Keeps parse_standard run_id TaskStatus.failed message now db tt)
        body)
  serve-Serves (get_task run_id) now s h =
      aside s (get run_id s) _ (answer_task-state _ s.hub) (get-Keeps parse_standard run_id s.db) h
  serve-Serves (list_tasks status) now s h =
      aside s (list status s) _ (answer_tasks-state _ s.hub) (list-Keeps parse_standard status s.db)
        h
  serve-Serves (register_request body) now s h = registers body now s h
  serve-Serves list_schedules now s h =
      aside s (list_schedules_handler collates s) _ (answer_schedules-state _ s.hub)
        (list_schedules-Keeps parse_standard collates s.db) h
  serve-Serves (delete_schedule task_name) now s h =
      aside s (delete_handler task_name s) _ (after_delete-state _ s.hub)
        (delete_schedule-Keeps parse_standard task_name s.db) h

  answered :
      (s : Server) (x : Handled)
      → Answers (Serves s) x
      → (r : Response) × (s' : Server) × (x ≡ some (r, s'))
        × IsHealthy s'
        × ((r.status < 300) ⊎ (s'.hub ≡ s.hub))
  answered s none h = absurd h
  answered s (some (r, s')) h = (r, s', refl, h.0, h.1)

  left :
      (x : Option Server)
      → Leaves (λ s. IsConsistent parse_standard s.db × IsSound s.hub) x
      → (s' : Server) × (x ≡ some s') × IsHealthy s'
  left none h = absurd h
  left (some s) h = (s, refl, record { db = h.0; hub = h.1 })

  -- A request to a server in good order, whatever the outcomes of its statements, does not panic and
  -- leaves it in good order: the tables consistent and the hub sound. If it is answered with a
  -- status from 300 up, the hub is as it was: nothing is published for it.
  pub serve_lem :
      (q : Request) (now : Time) (s : Server)
      → IsHealthy s
      → (r : Response) × (s' : Server) × (serve format parse_standard collates q now s
          ≡ some (r, s'))
        × IsHealthy s'
        × ((r.status < 300) ⊎ (s'.hub ≡ s.hub))
  serve_lem q now s h =
      answered s (serve format parse_standard collates q now s) (serve-Serves q now s h)

  pub step-IsHealthy :
      (c : Step) (now : Time) (s : Server)
      → IsHealthy s
      → (s' : Server) × (step format parse_standard collates c now s ≡ some s') × IsHealthy s'
  unfolding step sweep_once check_once clean_once
  step-IsHealthy (serving q) now s h =
      let (r, s', e, k, published) = serve_lem q now s h in (s', rw e refl, k)
  step-IsHealthy sweeping now s h = left _ (
      after_sweep-IsSound timeout_event (IsConsistent parse_standard) _ s.hub
        (sweep_timeouts-Keeps parse_standard now s.db h.db) h.hub)
  step-IsHealthy checking now s h = left _ (
      after_sweep-IsSound (missed_event format) (IsConsistent parse_standard) _ s.hub
        (detect_missed-Keeps parse_standard now s.db h.db) h.hub)
  step-IsHealthy (cleaning c) now s h = (
    clean_once c now s,
    refl,
    record { db = delete_older_than-Keeps parse_standard (cutoff_of c now) s.db h.db; hub = h.hub },
  )
  step-IsHealthy joining now s h =
      (_, refl, record { db = h.db; hub = subscribe-IsSound s.hub h.hub })
  step-IsHealthy (leaving id) now s h =
      let (hub', e, k) = unsubscribe-IsSound id s.hub h.hub in
      (record { db = s.db; hub = hub' }, rw e refl, record { db = h.db; hub = k })
  step-IsHealthy (receiving id) now s h =
      (_, refl, record { db = h.db; hub = receive-IsSound id s.hub h.hub })
