-- ===== src/Notifier.antt =====
-- internal/notifier/notifier.go: the text of an alert and the request to the webhook. A text of Go
-- is its bytes, since `truncate` cuts at a byte; json.Marshal and the HTTP client are third to the
-- package, so a payload is what is encoded, and the client's result is an argument.
pub mod Bytes
pub mod Length
mod Tests
use chronos_monitor.Prelude.{
  ℕ, String, str_eq, ℤ, List, [], ◌∷◌, ◌++◌, length, take, leb, Option, none, some, Bool, true,
  false, decimal, if◌then◌else◌,
}
use chronos_monitor.Models.{TaskStatus, TaskRun, status_text}
use chronos_monitor.Notifier.Bytes.{bytes}

abbrev pub max_error_message_len : ℕ
max_error_message_len = 500

abbrev pub truncate : List ℕ → ℕ → List ℕ
truncate s max = if leb (length s) max then s else take max s ++ bytes "... (truncated)"

abbrev pub icon : TaskStatus → String
icon TaskStatus.failed = "🔴"
icon TaskStatus.timeout = "⏰"
icon TaskStatus.missed = "👻"
icon TaskStatus.running = "⚠\u{fe0f}"
icon TaskStatus.success = "⚠\u{fe0f}"

abbrev pub verb : TaskStatus → String
verb TaskStatus.failed = "failed"
verb TaskStatus.timeout = "timed out"
verb TaskStatus.missed = "missed its expected run"
verb TaskStatus.running = "running"
verb TaskStatus.success = "success"

abbrev pub quoted_unless_empty : String → String → String → List ℕ
quoted_unless_empty before text after =
    if str_eq text "" then [] else bytes before ++ bytes text ++ bytes after

abbrev pub duration_line : Option ℤ → List ℕ
duration_line none = []
duration_line (some n) = bytes "\nDuration: " ++ bytes (decimal n) ++ bytes "ms"

abbrev pub error_lines : String → List ℕ
error_lines message =
    if str_eq message ""
    then []
    else bytes "\n```" ++ truncate (bytes message) max_error_message_len ++ bytes "```"

abbrev pub headline : TaskRun → List ℕ
headline task =
    bytes (icon task.status)
    ++ bytes " *"
    ++ bytes task.task_name
    ++ bytes "* "
    ++ bytes (verb task.status)

unfoldable pub format_message : TaskRun → List ℕ
format_message task =
    headline task
    ++ quoted_unless_empty " (run `" task.run_id "`)"
    ++ quoted_unless_empty " from `" task.source "`"
    ++ duration_line task.duration_ms
    ++ error_lines task.error_message

-- What is encoded as JSON for each format.
pub data Payload : Type 0 where
  text content : List ℕ → Payload
  raw : TaskRun → Payload

-- `WebhookNotifier`; its client is the parameter `post` of `notify`.
pub record WebhookNotifier : Type 0 where
  pub url : String
  pub format : String

abbrev pub new_webhook_notifier : String → String → WebhookNotifier
new_webhook_notifier url format = record { url = url; format = format }

unfoldable pub build_payload : WebhookNotifier → TaskRun → Payload
build_payload n task =
    if str_eq n.format "discord"
    then content (format_message task)
    else if str_eq n.format "generic"
    then raw task
    else text (format_message task)

pub data NotifyResult : Type 0 where
  sent send_failed : NotifyResult
  refused_with : ℕ → NotifyResult

-- The status code of the webhook's answer, or `none` for an error of the client.
abbrev pub notify_result : Option ℕ → NotifyResult
notify_result none = send_failed
notify_result (some code) = if leb 300 code then refused_with code else sent

unfoldable pub notify : (String → Payload → Option ℕ) → WebhookNotifier → TaskRun → NotifyResult
notify post n task = notify_result (post n.url (build_payload n task))
