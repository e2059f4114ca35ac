-- ===== src/TaskHandler/Safety.antt =====
-- Each handler with whatever outcomes its statements have: it does not panic, it keeps the hub
-- sound, and a request that it refuses publishes nothing. What the methods of the stores that it
-- calls respect, it respects.
use chronos_monitor.Prelude.{String, ◌<◌, ◌≡◌, refl, ◌⊎◌, inl, inr, Option, none, some, arith}
use chronos_monitor.Clock.{Time}
use chronos_monitor.Models.{
  TaskStatus, TaskRun, StartRequest, HeartbeatRequest, SuccessRequest, FailedRequest,
}
use chronos_monitor.Database.{Db, Result, ok, err}
use chronos_monitor.Database.Steps.{StateOrder}
use chronos_monitor.Tasks.{create, heartbeat as store_heartbeat, finish}
use chronos_monitor.Tasks.Effects.{get-Steps}
use chronos_monitor.Schedules.{touch}
use chronos_monitor.Broker.{EventType, Event, Hub}
use chronos_monitor.Broker.Publishing.{IsSound, publish_lem}
use chronos_monitor.Broker.Soundness.{offered-IsSound}
use chronos_monitor.Server.{Server, Response, answer, Answers}
use chronos_monitor.TaskHandler.{
  no_content, publish_read, publish_latest, started_run, started_event, after_create, after_store,
  start, heartbeat, success, failed,
}

module _ (R : Db → Db → Type 0) (o : StateOrder R) where
  -- What a handler leaves: a status code from 300 up is an error, which publishes nothing.
  abbrev pub IsSafe : Db → Hub → Response → Server → Type 0
  IsSafe db hub r s' = R db s'.db × IsSound s'.hub × ((r.status < 300) ⊎ (s'.hub ≡ hub))

  publish_read-IsSafe :
      (a : Db) (kind : EventType) (x : Result TaskRun × Db) (hub : Hub)
      → R a x.1
      → IsSound hub
      → Answers (IsSafe a hub) (answer no_content (publish_read kind x hub))
  publish_read-IsSafe a kind (ok task, db) hub h s =
      let evt : Event = record { kind = kind; task = task } in
      rw (publish_lem evt hub s) (h, offered-IsSound evt hub s, inl (omega arith))
  publish_read-IsSafe a kind (err e, db) hub h s = (h, s, inr refl)

  after_store-IsSafe :
      (a : Db) (run_id : String) (kind : EventType) (x : Result (Unit {0}) × Db) (hub : Hub)
      → R a x.1
      → IsSound hub
      → Answers (IsSafe a hub) (after_store run_id kind x hub)
  unfolding publish_latest
  after_store-IsSafe a run_id kind (ok _, db) hub h s =
      publish_read-IsSafe a kind _ hub (o.then_ a db _ h (get-Steps R o run_id db)) s
  after_store-IsSafe a run_id kind (err e, db) hub h s = (h, s, inr refl)

  after_create-IsSafe :
      (a : Db) (t : TaskRun) (x : Result (Unit {0}) × Db) (hub : Hub)
      → ((db : Db) → R db (touch t.task_name t.started_at db).1)
      → R a x.1
      → IsSound hub
      → Answers (IsSafe a hub) (after_create t x hub)
  after_create-IsSafe a t (ok _, db) hub touches h s =
      rw (publish_lem (started_event t) hub s)
        (o.then_ a db _ h (touches db), offered-IsSound (started_event t) hub s, inl (omega arith))
  after_create-IsSafe a t (err e, db) hub touches h s = (h, s, inr refl)

  module _ (s : Server) (sound : IsSound s.hub) where
    pub start-IsSafe :
        (body : Option StartRequest) (new_string : String) (now : Time)
        → ((req : StartRequest) (db : Db) → R db (create (started_run req new_string now) db).1)
        → ((task_name : String) (db : Db) → R db (touch task_name now db).1)
        → Answers (IsSafe s.db s.hub) (start body new_string now s)
    unfolding start
    start-IsSafe none new_string now creates touches = (o.start s.db, sound, inr refl)
    start-IsSafe (some req) new_string now creates touches =
        after_create-IsSafe s.db (started_run req new_string now) _ s.hub (touches req.task_name)
          (creates req s.db) sound

    pub heartbeat-IsSafe :
        (body : Option HeartbeatRequest) (now : Time)
        → ((run_id : String) (db : Db) → R db (store_heartbeat run_id now db).1)
        → Answers (IsSafe s.db s.hub) (heartbeat body now s)
    unfolding heartbeat
    heartbeat-IsSafe none now beats = (o.start s.db, sound, inr refl)
    heartbeat-IsSafe (some req) now beats =
        after_store-IsSafe s.db req.run_id EventType.heartbeat _ s.hub (beats req.run_id s.db) sound

    module _ (now : Time)
        (finishes_success : (run_id : String) (db : Db)
          → R db (finish run_id TaskStatus.success "" now db).1)
        (finishes_failed : (run_id message : String) (db : Db)
          → R db (finish run_id TaskStatus.failed message now db).1) where
      pub success-IsSafe :
          (body : Option SuccessRequest) → Answers (IsSafe s.db s.hub) (success body now s)
      unfolding success
      success-IsSafe none = (o.start s.db, sound, inr refl)
      success-IsSafe (some req) =
          after_store-IsSafe s.db req.run_id EventType.succeeded _ s.hub
            (finishes_success req.run_id s.db) sound

      pub failed-IsSafe :
          (body : Option FailedRequest) → Answers (IsSafe s.db s.hub) (failed body now s)
      unfolding failed
      failed-IsSafe none = (o.start s.db, sound, inr refl)
      failed-IsSafe (some req) =
          after_store-IsSafe s.db req.run_id EventType.failed _ s.hub
            (finishes_failed req.run_id req.error_message s.db) sound
