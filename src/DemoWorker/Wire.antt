-- ===== src/DemoWorker/Wire.antt =====
-- The worker against the server of this repository: the routes of internal/router/router.go for the
-- worker's requests, and what gin's binding and encoding/json make of their fields.
use Prim.Native.String.{◌++◌ as join}
use chronos_monitor.Prelude.{
  ◌≡◌, ◌⊎◌, ℕ, suc, String, str_eq, Option, none, some, Bool, if◌then◌else◌,
}
use chronos_monitor.Clock.{Time}
use chronos_monitor.Models.{StartRequest, HeartbeatRequest, SuccessRequest, FailedRequest}
use chronos_monitor.Server.{
  Server, Body, no_body, error_text, binding_error, cron_error, started_id, one_task, many_tasks,
  many_schedules, Handled,
}
use chronos_monitor.System.{Request, start, heartbeat, success, failed}
use chronos_monitor.Router.{handle}
use chronos_monitor.DemoWorker.{
  authorization_of, Fields, of_start, of_run, of_failure, Post, Reply, start_path, heartbeat_path,
  success_path, failed_path,
}

-- `ShouldBindJSON` of each request: an error where a required field is not there.
abbrev start_request : Fields → Option StartRequest
start_request (of_start task_name source ttl_seconds) =
    if str_eq task_name ""
    then none
    else some
        (record { task_name = task_name; run_id = ""; source = source; ttl_seconds = ttl_seconds })
start_request (of_run run_id) = none
start_request (of_failure run_id error_message) = none

abbrev run_id_of : Fields → Option String
run_id_of (of_start task_name source ttl_seconds) = none
run_id_of (of_run run_id) = if str_eq run_id "" then none else some run_id
run_id_of (of_failure run_id error_message) = if str_eq run_id "" then none else some run_id

abbrev error_message_of : Fields → String
error_message_of (of_failure run_id error_message) = error_message
error_message_of (of_start task_name source ttl_seconds) = ""
error_message_of (of_run run_id) = ""

abbrev heartbeat_request : Option String → Option HeartbeatRequest
heartbeat_request none = none
heartbeat_request (some run_id) = some (record { run_id = run_id })

abbrev success_request : Option String → Option SuccessRequest
success_request none = none
success_request (some run_id) = some (record { run_id = run_id })

abbrev failed_request : Option String → String → Option FailedRequest
failed_request none error_message = none
failed_request (some run_id) error_message =
    some (record { run_id = run_id; error_message = error_message })

-- The POST routes under /api/v1/events, `none` for another path.
unfoldable pub route : String → Fields → String → Option Request
route path fields new_string =
    if str_eq path start_path
    then some (start (start_request fields) new_string)
    else if str_eq path heartbeat_path
    then some (heartbeat (heartbeat_request (run_id_of fields)))
    else if str_eq path success_path
    then some (success (success_request (run_id_of fields)))
    else if str_eq path failed_path
    then some (failed (failed_request (run_id_of fields) (error_message_of fields)))
    else none

-- The `run_id` that `Decode` finds: an empty body is an error, and a field that is not there is left
-- empty.
abbrev run_id_in : Body → Option String
run_id_in no_body = none
run_id_in (started_id run_id) = some run_id
run_id_in (one_task task) = some task.run_id
run_id_in (error_text text) = some ""
run_id_in binding_error = some ""
run_id_in cron_error = some ""
run_id_in (many_tasks tasks) = some ""
run_id_in (many_schedules schedules) = some ""

-- The server, and how many requests came so far.
pub record World : Type 0 where
  pub server : Server
  pub posts : ℕ

-- `gin.Default` answers a panic of a handler with 500 and no body; what the handler had done by then
-- is not told.
abbrev pub replied : Handled → World → Option Reply × World
replied none w = (some (record { status = 500; run_id = none }), record w { posts = suc w.posts })
replied (some (r, s)) w = (
  some (record { status = r.status; run_id = run_id_in r.body }),
  record { server = s; posts = suc w.posts },
)

abbrev pub not_found_reply : Reply
not_found_reply = record { status = 404; run_id = some "" }

-- `carry` is what arrives of the value of a header that net/http sends: it trims the value, and is
-- `none` where the client refuses to send it. A header that is not set is the empty text.
module _ (format : Time → String) (parse_standard : String → Option (Time → Time))
    (collates : String → String → Bool) (key : String) (clock : ℕ → Time) (uuid : ℕ → String)
    (carry : String → Option String) where
  abbrev pub routed : String → Option Request → World → Option Reply × World
  routed authorization none w = (some not_found_reply, record w { posts = suc w.posts })
  routed authorization (some q) w =
      replied
        (handle format parse_standard collates key authorization "" q (clock w.posts) w.server) w

  abbrev pub carried : Option String → Post → World → Option Reply × World
  carried none post w = (none, w)
  carried (some authorization) post w =
      routed authorization (route post.path post.fields (uuid w.posts)) w

  -- The request number `n` comes in at `clock n`, and `uuid n` is the id that would be made for it.
  unfoldable pub exchange : Post → World → Option Reply × World
  exchange post w = carried (carry post.authorization) post w

-- The worker's requests pass: the server has no key, or what arrives of the worker's header is
-- "Bearer " and the server's key.
abbrev pub IsLetIn : String → (String → Option String) → String → Type 0
IsLetIn key carry api_key =
    (authorization : String) × (carry (authorization_of api_key) ≡ some authorization)
    × ((key ≡ "") ⊎ (authorization ≡ join "Bearer " key))
