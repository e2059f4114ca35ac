-- ===== src/Router/Routes.antt =====
-- internal/router/router.go: `New`, the routes that it registers, and how the engine that it returns
-- serves a request. gin, which finds the route of a request, is a parameter.
use chronos_monitor.Prelude.{
  ℕ, zero, suc, String, List, [], ◌∷◌, Option, none, some, Bool, true, false, if◌then◌else◌,
}
use chronos_monitor.Clock.{Time}
use chronos_monitor.Models.{
  StartRequest, HeartbeatRequest, SuccessRequest, FailedRequest, RegisterScheduleRequest,
}
use chronos_monitor.Broker.{subscribe}
use chronos_monitor.Server.{Server, Response, Handled}
use chronos_monitor.System.{
  Request, start, heartbeat, success, failed, get_task, list_tasks, register, list_schedules,
  delete_schedule, serve,
}
use chronos_monitor.Router.{Page, serve_embedded_ui, require_api_key}

-- A request as gin hands it on: the header and the query parameters, with the empty text for an
-- absent one, and what `ShouldBindJSON` makes of the body for each of the types that a handler
-- binds. `new_id` is what `uuid.NewString` would return.
pub record Incoming : Type 0 where
  pub method : String
  pub path : String
  pub authorization : String
  pub token : String
  pub status : String
  pub new_id : String
  pub start_body : Option StartRequest
  pub heartbeat_body : Option HeartbeatRequest
  pub success_body : Option SuccessRequest
  pub failed_body : Option FailedRequest
  pub register_body : Option RegisterScheduleRequest

-- What a route leads to. A handler is called with the request and the value of the parameter in
-- the path of its route.
pub data Target : Type 0 where
  health stream : Target
  calls : (Incoming → String → Request) → Target

-- `keyed`: the route is in the group v1, whose requests `requireAPIKey` sees first.
pub record Route : Type 0 where
  pub method : String
  pub path : String
  pub keyed : Bool
  pub target : Target

abbrev v1 : String → String → Target → Route
v1 method path target = record { method = method; path = path; keyed = true; target = target }

abbrev healthz : Route
healthz = record { method = "GET"; path = "/healthz"; keyed = false; target = health }

unfoldable pub routes : List Route
routes =
    healthz
    ∷ v1 "POST" "/api/v1/events/start" (calls (λ q x. start q.start_body q.new_id))
    ∷ v1 "POST" "/api/v1/events/heartbeat" (calls (λ q x. heartbeat q.heartbeat_body))
    ∷ v1 "POST" "/api/v1/events/success" (calls (λ q x. success q.success_body))
    ∷ v1 "POST" "/api/v1/events/failed" (calls (λ q x. failed q.failed_body))
    ∷ v1 "GET" "/api/v1/tasks" (calls (λ q x. list_tasks q.status))
    ∷ v1 "GET" "/api/v1/tasks/:runID" (calls (λ q run_id. get_task run_id))
    ∷ v1 "GET" "/api/v1/stream" stream
    ∷ v1 "POST" "/api/v1/schedules" (calls (λ q x. register q.register_body))
    ∷ v1 "GET" "/api/v1/schedules" (calls (λ q x. list_schedules))
    ∷ v1 "DELETE" "/api/v1/schedules/:taskName" (calls (λ q task_name. delete_schedule task_name))
    ∷ []

-- What gin finds for a method and a path: one of the registered routes, by its place among them,
-- with the value of its parameter. It answers some paths with a redirection of its own.
pub data Found : Type 0 where
  no_route : Found
  redirection : String → Found
  found : ℕ → String → Found

abbrev pub route_at : ℕ → List Route → Option Route
route_at i [] = none
route_at zero (r ∷ rs) = some r
route_at (suc i) (r ∷ rs) = route_at i rs

-- What is sent: `response` is a handler's or that of `requireAPIKey`, `streaming` the event stream
-- of a new subscriber.
pub data Sending : Type 0 where
  healthy : Sending
  redirected : String → Sending
  page : Page → Sending
  response : Response → Sending
  streaming : ℕ → Sending

-- `none` for a panic.
abbrev pub Dispatched : Type 0
Dispatched = Option (Sending × Server)

abbrev pub responded : Handled → Dispatched
responded none = none
responded (some (r, s)) = some (response r, s)

abbrev pub unless_refused : Option Response → Server → Dispatched → Dispatched
unless_refused (some refusal) s next = some (response refusal, s)
unless_refused none s next = next

module _ (format : Time → String) (parse_standard : String → Option (Time → Time))
    (collates : String → String → Bool) where
  unfoldable pub call : Target → Incoming → String → Time → Server → Dispatched
  call health q x now s = some (healthy, s)
  call stream q x now s =
      some (streaming (subscribe s.hub).0, record s { hub = (subscribe s.hub).1 })
  call (calls request) q x now s =
      responded (serve format parse_standard collates (request q x) now s)

  unfoldable pub reach : String → Route → Incoming → String → Time → Server → Dispatched
  reach api_key r q x now s =
      let next = call r.target q x now s in
      if r.keyed
      then unless_refused (require_api_key api_key q.authorization q.token) s next
      else next

  module _ (is_asset : String → Bool) (index_html : Option String) where
    abbrev no_route_found : Incoming → Server → Dispatched
    no_route_found q s = some (page (serve_embedded_ui is_asset index_html q.path), s)

    abbrev pub taken : String → Option Route → Incoming → String → Time → Server → Dispatched
    taken api_key none q x now s = no_route_found q s
    taken api_key (some r) q x now s = reach api_key r q x now s

    abbrev pub follow : String → Found → Incoming → Time → Server → Dispatched
    follow api_key no_route q now s = no_route_found q s
    follow api_key (redirection target) q now s = some (redirected target, s)
    follow api_key (found i x) q now s = taken api_key (route_at i routes) q x now s

    unfoldable pub dispatch :
        (List Route → String → String → Found) → String → Incoming → Time → Server → Dispatched
    dispatch find api_key q now s = follow api_key (find routes q.method q.path) q now s
