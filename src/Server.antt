-- ===== src/Server.antt =====
-- What the handlers of internal/handlers and the background jobs share: the database and the hub,
-- and the responses. A response is its status code and what the source puts into it; gin and
-- encoding/json, which write it, are third-party code or only print it.
use chronos_monitor.Prelude.{ℕ, String, List, Option, none, some}
use chronos_monitor.Models.{TaskRun, Schedule}
use chronos_monitor.Database.{Db}
use chronos_monitor.Broker.{Hub}

-- `TaskHandler`, `ScheduleHandler`, `StreamHandler` and the jobs hold the stores and the hub.
pub record Server : Type 0 where
  pub db : Db
  pub hub : Hub

pub data Body : Type 0 where
  no_body : Body
  -- `gin.H{"error": …}` with a text of the source, or of the library that found the error
  error_text : String → Body
  binding_error cron_error : Body
  started_id : String → Body
  one_task : TaskRun → Body
  many_tasks : List TaskRun → Body
  many_schedules : List Schedule → Body

pub record Response : Type 0 where
  pub status : ℕ
  pub body : Body

-- The response and the state that a request leaves; `none` for a panic of the hub.
abbrev pub Handled : Type 0
Handled = Option (Response × Server)

abbrev pub with_db : Db → Option Hub → Option Server
with_db db none = none
with_db db (some hub) = some (record { db = db; hub = hub })

abbrev pub answer : Response → Option Server → Handled
answer r none = none
answer r (some s) = some (r, s)

-- `c.JSON(code, gin.H{"error": text})`
abbrev pub failure : ℕ → String → Response
failure code text = record { status = code; body = error_text text }

-- What holds of the state that is left, without a panic.
abbrev pub Leaves : (Server → Type 0) → Option Server → Type 0
Leaves P none = ⊥
Leaves P (some s) = P s

abbrev pub Answers : (Response → Server → Type 0) → Handled → Type 0
Answers P none = ⊥
Answers P (some (r, s)) = P r s

pub Answers-imp :
    (P Q : Response → Server → Type 0) (x : Handled)
    → ((r : Response) (s : Server) → P r s → Q r s)
    → Answers P x
    → Answers Q x
Answers-imp P Q none f h = absurd h
Answers-imp P Q (some (r, s)) f h = f r s h
