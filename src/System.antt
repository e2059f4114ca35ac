-- ===== src/System.antt =====
-- The server as a whole: cmd/server/main.go starts the sweeper, the missed-run detector and, where
-- they are configured, the retention job and the alert dispatcher, and serves requests. A step is a
-- request, a tick of a job, or a client of the hub that comes, goes or receives. Each is taken to
-- its end before the next; Threads has their interleavings, access by access.
pub mod Stores
pub mod Invariant
pub mod Runs
pub mod Samples
pub mod Alerts
mod Tests
use chronos_monitor.Prelude.{ℕ, Bool, String, ℤ, List, [], ◌∷◌, Option, none, some}
use chronos_monitor.Clock.{Time}
use chronos_monitor.Models.{
  StartRequest, HeartbeatRequest, SuccessRequest, FailedRequest, RegisterScheduleRequest,
}
use chronos_monitor.Broker.{Hub, subscribe, unsubscribe, receive}
use chronos_monitor.Server.{Server, Response, Handled, with_db}
use chronos_monitor.TaskHandler
use chronos_monitor.ScheduleHandler
use chronos_monitor.Sweeper.{sweep_once}
use chronos_monitor.Cleaner.{Cleaner, clean_once}
use chronos_monitor.MissedRun.{check_once}

-- The routes under /api/v1 but the event stream, with what the handlers take from the request.
pub data Request : Type 0 where
  start : Option StartRequest → String → Request
  heartbeat : Option HeartbeatRequest → Request
  success : Option SuccessRequest → Request
  failed : Option FailedRequest → Request
  get_task : String → Request
  list_tasks : String → Request
  register : Option RegisterScheduleRequest → Request
  list_schedules : Request
  delete_schedule : String → Request

pub data Step : Type 0 where
  serving : Request → Step
  sweeping checking : Step
  cleaning : Cleaner → Step
  joining : Step
  leaving receiving : ℕ → Step

abbrev pub state_of : Handled → Option Server
state_of none = none
state_of (some (r, s)) = some s

module _ (format : Time → String) (parse_standard : String → Option (Time → Time))
    (collates : String → String → Bool) where
  unfoldable pub serve : Request → Time → Server → Handled
  serve (start body new_string) now s = TaskHandler.start body new_string now s
  serve (heartbeat body) now s = TaskHandler.heartbeat body now s
  serve (success body) now s = TaskHandler.success body now s
  serve (failed body) now s = TaskHandler.failed body now s
  serve (get_task run_id) now s = some (TaskHandler.get run_id s)
  serve (list_tasks status) now s = some (TaskHandler.list status s)
  serve (register body) now s = some (ScheduleHandler.register parse_standard body now s)
  serve list_schedules now s = some (ScheduleHandler.list collates s)
  serve (delete_schedule task_name) now s = some (ScheduleHandler.delete task_name s)

  unfoldable pub step : Step → Time → Server → Option Server
  step (serving request) now s = state_of (serve request now s)
  step sweeping now s = sweep_once now s
  step checking now s = check_once format parse_standard now s
  step (cleaning c) now s = some (clean_once c now s)
  step joining now s = some (record s { hub = (subscribe s.hub).1 })
  step (leaving id) now s = with_db s.db (unsubscribe id s.hub)
  step (receiving id) now s = some (record s { hub = (receive id s.hub).1 })

  abbrev pub then_step : Option Server → (Server → Option Server) → Option Server
  then_step none f = none
  then_step (some s) f = f s

  -- Steps, each at the time that the clock shows.
  unfoldable pub steps : List (Step × Time) → Server → Option Server
  steps [] s = some s
  steps ((c, now) ∷ rest) s = then_step (step c now s) (steps rest)
