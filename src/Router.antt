-- ===== src/Router.antt =====
-- internal/router/router.go: the API key in front of /api/v1, and what serves any other path. gin
-- gives the header and the query parameter, an absent one as the empty text; the assets are a
-- parameter.
pub mod Access
pub mod Routes
pub mod Guarded
pub mod Serving
mod Tests
use Prim.Native.String.{len, slice}
use text.Mathlib.Text.{starts_with}
use chronos_monitor.Prelude.{
  ℕ, String, str_eq, List, Option, none, some, Bool, true, false, not, ◌==◌, ◌&&◌, if◌then◌else◌,
}
use chronos_monitor.Clock.{Time}
use chronos_monitor.Server.{Server, Response, Handled, failure}
use chronos_monitor.System.{Request, serve}

-- `strings.TrimPrefix`
abbrev pub trim_prefix : String → String → String
trim_prefix text prefix =
    if starts_with text prefix then slice text (len prefix) (len text) else text

unfoldable pub bearer_token : String → String → String
bearer_token authorization token =
    if starts_with authorization "Bearer " then trim_prefix authorization "Bearer " else token

-- `subtle.ConstantTimeCompare` is 1 for equal bytes.
unfoldable pub constant_time_equal : String → String → Bool
constant_time_equal a b = len a == len b && str_eq a b

abbrev pub unauthorized : Response
unauthorized = failure 401 "invalid or missing API key"

-- The response of `requireAPIKey`, or `none` where the next handler is called.
unfoldable pub require_api_key : String → String → String → Option Response
require_api_key api_key authorization token =
    if str_eq api_key ""
    then none
    else if not (constant_time_equal (bearer_token authorization token) api_key)
    then some unauthorized
    else none

abbrev pub next_unless : Option Response → Server → Handled → Handled
next_unless (some refusal) s next = some (refusal, s)
next_unless none s next = next

-- What `serveEmbeddedUI` sends.
pub data Page : Type 0 where
  api_not_found no_index : Page
  file : String → Page
  index : String → Page

abbrev pub index_page : Option String → Page
index_page none = no_index
index_page (some content) = index content

module _ (is_asset : String → Bool) (index_html : Option String) where
  unfoldable pub serve_embedded_ui : String → Page
  serve_embedded_ui path =
      let name = trim_prefix path "/" in
      if starts_with path "/api/"
      then api_not_found
      else if not (str_eq name "") && is_asset name
      then file name
      else index_page index_html

module _ (format : Time → String) (parse_standard : String → Option (Time → Time))
    (collates : String → String → Bool) where
  -- A request under /api/v1, with its Authorization header and its token parameter.
  unfoldable pub handle : String → String → String → Request → Time → Server → Handled
  handle api_key authorization token request now s =
      next_unless (require_api_key api_key authorization token) s
        (serve format parse_standard collates request now s)
