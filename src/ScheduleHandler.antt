-- ===== src/ScheduleHandler.antt =====
-- internal/handlers/schedule_handler.go: registering, listing and deleting schedules. The cron
-- library's `ParseStandard` and the collation are the parameters that Schedules has.
pub mod Validation
pub mod Client
mod Tests
use mathlib.Core.Option
use chronos_monitor.Prelude.{
  String, str_eq, ℤ, pos, leb_ℤ, ltb_ℤ, List, Option, none, some, Bool, true, false, not, ◌&&◌,
  if◌then◌else◌,
}
use chronos_monitor.Clock.{Time}
use chronos_monitor.Models.{Schedule, RegisterScheduleRequest}
use chronos_monitor.Database.{Db, Result, ok, err}
use chronos_monitor.Schedules.{Expectation, upsert, list as store_list, delete as store_delete}
use chronos_monitor.Broker.{Hub}
use chronos_monitor.Server.{Server, Response, no_body, cron_error, many_schedules, failure}
use chronos_monitor.TaskHandler.{bad_binding, no_content, respond_store_err}

abbrev pub is_some {ℓ} : {A : Type ℓ} → Option A → Bool
is_some none = false
is_some (some a) = true

abbrev pub is_not_empty : Option String → Bool
is_not_empty none = false
is_not_empty (some text) = not (str_eq text "")

abbrev pub is_not_positive : Option ℤ → Bool
is_not_positive none = false
is_not_positive (some n) = leb_ℤ n (pos 0)

abbrev pub expectation_of : RegisterScheduleRequest → Expectation
expectation_of req = record {
  interval_seconds = req.expected_interval_seconds;
  cron_expression = req.cron_expression;
  grace_period_seconds = req.grace_period_seconds;
}

abbrev pub after_upsert : Result (Unit {0}) × Db → Hub → Response × Server
after_upsert (ok _, db) hub = (no_content, record { db = db; hub = hub })
after_upsert (err e, db) hub =
    (failure 500 "failed to register schedule", record { db = db; hub = hub })

abbrev pub not_exactly_one : Response
not_exactly_one =
    failure 400 "exactly one of expected_interval_seconds or cron_expression is required"

abbrev pub not_positive : Response
not_positive = failure 400 "expected_interval_seconds must be positive"

abbrev pub negative_grace : Response
negative_grace = failure 400 "grace_period_seconds must not be negative"

abbrev pub invalid_cron : Response
invalid_cron = record { status = 400; body = cron_error }

module _ (parse_standard : String → Option (Time → Time)) where
  abbrev pub parses : Option String → Bool
  parses none = false
  parses (some text) = is_some (parse_standard text)

  -- The switch of `Register`: `none` where no case of it returns.
  abbrev pub refusal_of : Bool → Bool → RegisterScheduleRequest → Option Response
  refusal_of true true req = some not_exactly_one
  refusal_of false false req = some not_exactly_one
  refusal_of true false req =
      if is_not_positive req.expected_interval_seconds then some not_positive else none
  refusal_of false true req = if parses req.cron_expression then none else some invalid_cron

  abbrev pub switch : RegisterScheduleRequest → Option Response
  switch req =
      refusal_of (is_some req.expected_interval_seconds) (is_not_empty req.cron_expression) req

  abbrev pub register_checked :
      Option Response → RegisterScheduleRequest → Time → Server → Response × Server
  register_checked (some refusal) req now s = (refusal, s)
  register_checked none req now s =
      if ltb_ℤ req.grace_period_seconds (pos 0)
      then (negative_grace, s)
      else after_upsert (upsert req.task_name (expectation_of req) now s.db) s.hub

  unfoldable pub register : Option RegisterScheduleRequest → Time → Server → Response × Server
  register none now s = (bad_binding, s)
  register (some req) now s = register_checked (switch req) req now s

abbrev pub answer_schedules : Result (List Schedule) × Db → Hub → Response × Server
answer_schedules (ok found, db) hub =
    (record { status = 200; body = many_schedules found }, record { db = db; hub = hub })
answer_schedules (err e, db) hub =
    (failure 500 "failed to list schedules", record { db = db; hub = hub })

unfoldable pub list : (String → String → Bool) → Server → Response × Server
list collates s = answer_schedules (store_list collates s.db) s.hub

abbrev pub after_delete : Result (Unit {0}) × Db → Hub → Response × Server
after_delete (ok _, db) hub = (no_content, record { db = db; hub = hub })
after_delete (err e, db) hub =
    (respond_store_err e "schedule not found", record { db = db; hub = hub })

unfoldable pub delete : String → Server → Response × Server
delete task_name s = after_delete (store_delete task_name s.db) s.hub
