-- ===== src/MissedRun.antt =====
-- internal/missedrun/detector.go: one tick of the missed-run detector. `format` stands for a time's
-- text in the layout RFC 3339, which the alert's message quotes.
pub mod Publishing
use chronos_monitor.Prelude.{String, ℤ, pos, List, [], ◌∷◌, Option, none, some, concat, decimal}
use chronos_monitor.Clock.{Time}
use chronos_monitor.Models.{TaskStatus, TaskRun, Schedule}
use chronos_monitor.Schedules.{detect_missed}
use chronos_monitor.Broker.{EventType, Event}
use chronos_monitor.Server.{Server}
use chronos_monitor.Sweeper.{after_sweep}

abbrev expectation_text : Option String → Option ℤ → String
expectation_text (some cron) interval = concat ("cron `" ∷ cron ∷ "`" ∷ [])
expectation_text none (some n) = concat ("every " ∷ decimal n ∷ "s" ∷ [])
expectation_text none none = "an unknown schedule"

module _ (format : Time → String) where
  abbrev last_seen_text : Option Time → String
  last_seen_text none = "never"
  last_seen_text (some at) = format at

  abbrev pub alert_text : Schedule → String
  alert_text sched = concat (
      "expected "
      ∷ expectation_text sched.cron_expression sched.expected_interval_seconds
      ∷ " (+"
      ∷ decimal sched.grace_period_seconds
      ∷ "s grace); last seen: "
      ∷ last_seen_text sched.last_seen_at
      ∷ [])

  -- A record made up for the alert, with zero values where nothing is set.
  unfoldable pub to_alert_task : Schedule → TaskRun
  to_alert_task sched = record {
    run_id = "";
    task_name = sched.task_name;
    source = "";
    status = TaskStatus.missed;
    started_at = pos 0;
    finished_at = none;
    last_heartbeat_at = none;
    ttl_seconds = none;
    duration_ms = none;
    error_message = alert_text sched;
  }

  abbrev pub missed_event : Schedule → Event
  missed_event sched = record { kind = EventType.schedule_missed; task = to_alert_task sched }

  unfoldable pub check_once : (String → Option (Time → Time)) → Time → Server → Option Server
  check_once parse_standard now s =
      after_sweep missed_event (detect_missed parse_standard now s.db) s.hub
