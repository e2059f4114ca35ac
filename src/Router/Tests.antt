-- ===== src/Router/Tests.antt =====
-- The API key at a concrete request.
use chronos_monitor.Prelude.{
  ℕ, suc, List, ◌∷◌, ◌&&◌, if◌then◌else◌, String, Bool, ne_of_test, pos, ◌≡◌, ◌⊎◌, refl, [], Option,
  none, some, true,
}
use chronos_monitor.Clock.{Time}
use chronos_monitor.System.Runs.{new_server, new_server-IsHealthy}
use chronos_monitor.Router.{
  file, index, serve_embedded_ui, unauthorized, bearer_token, constant_time_equal, require_api_key,
}
use chronos_monitor.Router.Access.{Presents}
use chronos_monitor.Router.Routes.{
  Incoming, Route, routes, Found, no_route, found, Sending, healthy, streaming, response, call,
  reach, dispatch,
}
use chronos_monitor.Router.Guarded.{IsKeptOut, dispatch_lem}
use chronos_monitor.Router.Serving.{Fits, dispatch-Sends}
use chronos_monitor.Server.{Server}
use chronos_monitor.Broker.{subscribe}
use chronos_monitor.System.Invariant.{IsHealthy}
use text.Mathlib.Text.{◌==◌ as str_eq}

abbrev format : Time → String
format at = "then"

abbrev parser : String → Option (Time → Time)
parser expression = none

abbrev collates : String → String → Bool
collates a b = true

-- A finder that knows the paths without a parameter.
abbrev is_route : Route → String → String → Bool
is_route r method path = str_eq r.method method && str_eq r.path path

abbrev find_from : ℕ → List Route → String → String → Found
find_from i [] method path = no_route
find_from i (r ∷ rs) method path =
    if is_route r method path then found i "" else find_from (suc i) rs method path

abbrev asking : String → String → Incoming
asking path authorization = record {
  method = "GET";
  path = path;
  authorization = authorization;
  token = "";
  status = "";
  new_id = "";
  start_body = none;
  heartbeat_body = none;
  success_body = none;
  failed_body = none;
  register_body = none;
}

abbrev is_asset : String → Bool
is_asset name = str_eq name "app.js"

abbrev sent_to : String → String → String → Option (Sending × Server)
sent_to key path authorization =
    dispatch format parser collates is_asset (some "<html>") (find_from 0) key
      (asking path authorization) (pos 0) (new_server [])

dispatch_lem_example :
    (Presents "secret" "Bearer secrets" ""
      × (sent_to "secret" "/api/v1/stream" "Bearer secrets"
          ≡ sent_to "" "/api/v1/stream" "Bearer secrets"))
    ⊎ ((Presents "secret" "Bearer secrets" "" → ⊥)
        × IsKeptOut (new_server []) (sent_to "secret" "/api/v1/stream" "Bearer secrets"))
dispatch_lem_example =
    dispatch_lem format parser collates is_asset (some "<html>") (find_from 0) "secret"
      (asking "/api/v1/stream" "Bearer secrets") (pos 0) (new_server [])
      (ne_of_test "secret" "" refl)

dispatch-Sends_example :
    (sent : Sending) × (s' : Server) × (sent_to "secret" "/api/v1/stream" "Bearer secret"
      ≡ some (sent, s'))
    × IsHealthy format parser collates s'
    × Fits (new_server []) s' sent
dispatch-Sends_example =
    dispatch-Sends format parser collates is_asset (some "<html>") (find_from 0) "secret"
      (asking "/api/v1/stream" "Bearer secret") (pos 0) (new_server [])
      (new_server-IsHealthy format parser collates [])

abbrev answer_of : Option (Sending × Server) → Option Sending
answer_of none = none
answer_of (some (sent, s)) = some sent

stream_with_key : answer_of (sent_to "secret" "/api/v1/stream" "Bearer secret") ≡ some (streaming 0)
unfolding dispatch routes reach call subscribe require_api_key bearer_token constant_time_equal
stream_with_key = refl

stream_without_key : answer_of (sent_to "secret" "/api/v1/stream" "") ≡ some (response unauthorized)
unfolding dispatch routes reach call require_api_key bearer_token constant_time_equal
stream_without_key = refl

health_without_key : answer_of (sent_to "secret" "/healthz" "") ≡ some healthy
unfolding dispatch routes reach call
health_without_key = refl

accepted_key : require_api_key "secret" "Bearer secret" "" ≡ none
unfolding require_api_key bearer_token constant_time_equal
accepted_key = refl

wrong_key : require_api_key "secret" "Bearer secrets" "secret" ≡ some unauthorized
unfolding require_api_key bearer_token constant_time_equal
wrong_key = refl

deep_link :
    serve_embedded_ui (λ name. str_eq name "app.js") (some "<html>") "/runs/7" ≡ index "<html>"
unfolding serve_embedded_ui
deep_link = refl

asset : serve_embedded_ui (λ name. str_eq name "app.js") (some "<html>") "/app.js" ≡ file "app.js"
unfolding serve_embedded_ui
asset = refl
