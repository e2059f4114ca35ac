-- ===== src/DemoWorker.antt =====
-- cmd/demo-worker/main.go: the worker that reports made-up tasks to a server over HTTP. What
-- net/http does with a request is a parameter, `exchange`, over whatever state stands behind it; a
-- number that `math/rand` draws is an argument, of which `rand.Intn(n)` is the remainder. The pauses
-- and the lines in the log are left out, but for what the last line of a task tells.
pub mod Wire
pub mod Served
pub mod Tasks
pub mod Stuck
pub mod Keeps
mod Tests
use Prim.Native.String.{◌++◌ as join}
use chronos_monitor.Prelude.{
  ℕ, zero, suc, ◌%◌, leb, ◌==◌, ◌||◌, String, str_eq, ℤ, pos, List, [], ◌∷◌, Option, none, some,
  Bool, if◌then◌else◌,
}

-- The JSON object of a request.
pub data Fields : Type 0 where
  of_start : (task_name source : String) → (ttl_seconds : Option ℤ) → Fields
  of_run : (run_id : String) → Fields
  of_failure : (run_id error_message : String) → Fields

-- A POST, with its Authorization header, which is empty where none is set.
pub record Post : Type 0 where
  pub path : String
  pub fields : Fields
  pub authorization : String

-- A response: its status code, and the `run_id` that `Decode` finds in its body, `none` for an error.
pub record Reply : Type 0 where
  pub status : ℕ
  pub run_id : Option String

pub data PostError : Type 0 where
  no_response : PostError
  unexpected_status : String → ℕ → PostError
  undecoded : PostError

pub data Sent (A : Type 0) : Type 0 where
  sent : A → Sent A
  unsent : PostError → Sent A

-- The numbers that are drawn for one task.
pub record Draws : Type 0 where
  pub name : ℕ
  pub ttl : ℕ
  pub fate : ℕ

-- What the last line in the log tells of a task.
pub data Report : Type 0 where
  start_failed : PostError → Report
  stuck failed succeeded : String → Report
  failed_unsent succeeded_unsent : PostError → Report

-- `getEnv`; `os.Getenv` gives the empty text for a variable that is not set.
abbrev pub get_env : (String → String) → String → String → String
get_env getenv key fallback = if str_eq (getenv key) "" then fallback else getenv key

abbrev pub base_url : (String → String) → String
base_url getenv = get_env getenv "CHRONOS_BASE_URL" "http://localhost:8080"

abbrev pub worker_key : (String → String) → String
worker_key getenv = get_env getenv "CHRONOS_API_KEY" ""

-- `taskNames[rand.Intn(len(taskNames))]`
unfoldable pub name_of : ℕ → String
name_of draw =
    if draw % 4 == 0
    then "nightly-backup"
    else if draw % 4 == 1
    then "invoice-sync"
    else if draw % 4 == 2
    then "email-digest"
    else "report-export"

abbrev pub traceback : String
traceback = "Traceback (most recent call last):\n  connection refused to db:5432"

abbrev pub checked_status : String → ℕ → Reply → Sent Reply
checked_status path status reply =
    if leb 300 status then unsent (unexpected_status path status) else sent reply

abbrev pub checked : String → Option Reply → Sent Reply
checked path none = unsent no_response
checked path (some reply) = checked_status path reply.status reply

abbrev pub decoded : Option String → Sent String
decoded none = unsent undecoded
decoded (some run_id) = sent run_id

abbrev pub run_id_sent : Sent Reply → Sent String
run_id_sent (sent reply) = decoded reply.run_id
run_id_sent (unsent e) = unsent e

-- The header that `postJSON` sets.
abbrev pub authorization_of : String → String
authorization_of api_key = if str_eq api_key "" then "" else join "Bearer " api_key

abbrev pub start_path : String
start_path = "/api/v1/events/start"

abbrev pub heartbeat_path : String
heartbeat_path = "/api/v1/events/heartbeat"

abbrev pub success_path : String
success_path = "/api/v1/events/success"

abbrev pub failed_path : String
failed_path = "/api/v1/events/failed"

abbrev pub start_ttl : ℕ → Option ℤ
start_ttl draw = if draw % 10 == 0 then some (pos 3) else none

abbrev pub reported : {A : Type 0} → Report → (PostError → Report) → Sent A → Report
reported done lost (sent a) = done
reported done lost (unsent e) = lost e

module _ {W : Type 0} (exchange : Post → W → Option Reply × W) (api_key : String) where
  -- `postJSON`, without what it decodes
  unfoldable pub post_json : String → Fields → W → Sent Reply × W
  post_json path fields w =
      let (reply, w') =
        exchange (record { path = path; fields = fields; authorization = authorization_of api_key })
          w in
      (checked path reply, w')

  abbrev pub start : String → ℕ → W → Sent String × W
  start task_name ttl_draw w =
      let (reply, w') =
        post_json start_path (of_start task_name "demo-go-worker" (start_ttl ttl_draw)) w in
      (run_id_sent reply, w')

  abbrev pub heartbeat : String → W → Sent Reply × W
  heartbeat run_id = post_json heartbeat_path (of_run run_id)

  abbrev pub succeed : String → W → Sent Reply × W
  succeed run_id = post_json success_path (of_run run_id)

  abbrev pub fail : String → String → W → Sent Reply × W
  fail run_id error_message = post_json failed_path (of_failure run_id error_message)

  -- The loop of heartbeats, whose errors are only logged.
  unfoldable pub beat_times : ℕ → String → W → W
  beat_times zero run_id w = w
  beat_times (suc n) run_id w = beat_times n run_id (heartbeat run_id w).1

  abbrev pub fail_run : String → W → Report × W
  fail_run run_id w =
      let (e, w') = fail run_id traceback w in (reported (failed run_id) failed_unsent e, w')

  abbrev pub succeed_run : String → W → Report × W
  succeed_run run_id w =
      let (e, w') = succeed run_id (beat_times 2 run_id w) in
      (reported (succeeded run_id) succeeded_unsent e, w')

  -- `switch rand.Intn(10)`
  unfoldable pub go_on : ℕ → String → W → Report × W
  go_on fate run_id w =
      if fate % 10 == 0
      then (stuck run_id, w)
      else if fate % 10 == 1 || fate % 10 == 2
      then fail_run run_id w
      else succeed_run run_id w

  abbrev pub after_start : ℕ → Sent String × W → Report × W
  after_start fate (unsent e, w) = (start_failed e, w)
  after_start fate (sent run_id, w) = go_on fate run_id w

  unfoldable pub run_demo_task : Draws → W → Report × W
  run_demo_task draws w = after_start draws.fate (start (name_of draws.name) draws.ttl w)

  -- The first rounds of the loop of `main`, which has no end.
  unfoldable pub run_tasks : List Draws → W → W
  run_tasks [] w = w
  run_tasks (draws ∷ rest) w = run_tasks rest (run_demo_task draws w).1
