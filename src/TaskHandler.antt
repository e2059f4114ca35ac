-- ===== src/TaskHandler.antt =====
-- internal/handlers/task_handler.go: the requests of workers and of the dashboard on runs. The body
-- of a request is what gin's `ShouldBindJSON` makes of it, `none` for its error; the clock's
-- reading and the text of `uuid.NewString` are arguments.
pub mod Requests
pub mod Safety
pub mod Client
use chronos_monitor.Prelude.{String, str_eq, List, Option, none, some, Bool, if◌then◌else◌}
use chronos_monitor.Clock.{Time}
use chronos_monitor.Models.{
  TaskStatus, TaskRun, StartRequest, HeartbeatRequest, SuccessRequest, FailedRequest,
}
use chronos_monitor.Database.{Db, Error, not_found, driver, duplicate_key, Result, ok, err}
use chronos_monitor.Tasks.{
  create, heartbeat as store_heartbeat, finish, get as store_get, list as store_list,
}
use chronos_monitor.Schedules.{touch}
use chronos_monitor.Broker.{EventType, Event, Hub, publish}
use chronos_monitor.Server.{
  Server, Response, no_body, binding_error, started_id, one_task, many_tasks, Handled, with_db,
  answer, failure,
}

abbrev pub bad_binding : Response
bad_binding = record { status = 400; body = binding_error }

abbrev pub no_content : Response
no_content = record { status = 204; body = no_body }

abbrev pub respond_store_err : Error → String → Response
respond_store_err not_found message = failure 404 message
respond_store_err driver message = failure 500 "internal error"
respond_store_err duplicate_key message = failure 500 "internal error"

abbrev pub publish_read : EventType → Result TaskRun × Db → Hub → Option Server
publish_read kind (ok task, db) hub = with_db db (publish (record { kind = kind; task = task }) hub)
publish_read kind (err e, db) hub = some (record { db = db; hub = hub })

unfoldable pub publish_latest : String → EventType → Server → Option Server
publish_latest run_id kind s = publish_read kind (store_get run_id s.db) s.hub

-- `runID := req.RunID; if runID == "" { runID = uuid.NewString() }`
abbrev pub run_id_or : String → String → String
run_id_or run_id new_string = if str_eq run_id "" then new_string else run_id

abbrev pub started_run : StartRequest → String → Time → TaskRun
started_run req new_string now = record {
  run_id = run_id_or req.run_id new_string;
  task_name = req.task_name;
  source = req.source;
  status = TaskStatus.running;
  started_at = now;
  finished_at = none;
  last_heartbeat_at = none;
  ttl_seconds = req.ttl_seconds;
  duration_ms = none;
  error_message = "";
}

abbrev pub started_event : TaskRun → Event
started_event t = record {
  kind = EventType.started;
  task = record t { last_heartbeat_at = some t.started_at };
}

-- An error of `Touch` is only logged.
abbrev pub touch_and_answer : TaskRun → Db → Option Hub → Handled
touch_and_answer t db none = none
touch_and_answer t db (some hub) = some (
  record { status = 201; body = started_id t.run_id },
  record { db = (touch t.task_name t.started_at db).1; hub = hub },
)

abbrev pub after_create : TaskRun → Result (Unit {0}) × Db → Hub → Handled
after_create t (ok _, db) hub = touch_and_answer t db (publish (started_event t) hub)
after_create t (err e, db) hub =
    some (failure 500 "failed to record task start", record { db = db; hub = hub })

unfoldable pub start : Option StartRequest → String → Time → Server → Handled
start none new_string now s = some (bad_binding, s)
start (some req) new_string now s =
    let t = started_run req new_string now in after_create t (create t s.db) s.hub

-- What `Heartbeat`, `Success` and `Failed` do after the call of the store.
abbrev pub after_store : String → EventType → Result (Unit {0}) × Db → Hub → Handled
after_store run_id kind (ok _, db) hub =
    answer no_content (publish_latest run_id kind (record { db = db; hub = hub }))
after_store run_id kind (err e, db) hub =
    some (respond_store_err e "task run not found", record { db = db; hub = hub })

unfoldable pub heartbeat : Option HeartbeatRequest → Time → Server → Handled
heartbeat none now s = some (bad_binding, s)
heartbeat (some req) now s =
    after_store req.run_id EventType.heartbeat (store_heartbeat req.run_id now s.db) s.hub

unfoldable pub success : Option SuccessRequest → Time → Server → Handled
success none now s = some (bad_binding, s)
success (some req) now s =
    after_store req.run_id EventType.succeeded (finish req.run_id TaskStatus.success "" now s.db)
      s.hub

unfoldable pub failed : Option FailedRequest → Time → Server → Handled
failed none now s = some (bad_binding, s)
failed (some req) now s =
    after_store req.run_id EventType.failed
      (finish req.run_id TaskStatus.failed req.error_message now s.db) s.hub

abbrev pub answer_task : Result TaskRun × Db → Hub → Response × Server
answer_task (ok task, db) hub =
    (record { status = 200; body = one_task task }, record { db = db; hub = hub })
answer_task (err e, db) hub =
    (respond_store_err e "task run not found", record { db = db; hub = hub })

unfoldable pub get : String → Server → Response × Server
get run_id s = answer_task (store_get run_id s.db) s.hub

abbrev pub answer_tasks : Result (List TaskRun) × Db → Hub → Response × Server
answer_tasks (ok tasks, db) hub =
    (record { status = 200; body = many_tasks tasks }, record { db = db; hub = hub })
answer_tasks (err e, db) hub = (failure 500 "failed to list tasks", record { db = db; hub = hub })

unfoldable pub list : String → Server → Response × Server
list status s = answer_tasks (store_list status s.db) s.hub
