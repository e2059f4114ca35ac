-- ===== src/Startup.antt =====
-- cmd/server/main.go: which background jobs a configuration starts. `time.NewTicker` panics for an
-- interval that is not positive, in the goroutine of the job, which ends the program.
pub mod Intervals
pub mod Main
pub mod Exits
mod Tests
use chronos_monitor.Prelude.{
  String, str_eq, ℤ, pos, leb_ℤ, ltb_ℤ, List, [], ◌∷◌, Option, none, some, Bool, if◌then◌else◌,
}
use chronos_monitor.Clock.{Duration, duration_of, second}
use chronos_monitor.Config.{Config}
use chronos_monitor.Cleaner.{Cleaner, new_cleaner}
use chronos_monitor.Dispatcher.{Dispatcher, new_dispatcher}
use chronos_monitor.Notifier.{WebhookNotifier, new_webhook_notifier}

pub data Job : Type 0 where
  ttl_sweeper missed_run_detector : Duration → Job
  alert_dispatcher : Dispatcher → Job
  retention_cleaner : Cleaner → Job

-- `time.NewTicker`, `none` for its panic
abbrev pub new_ticker : Duration → Option Duration
new_ticker d = if leb_ℤ d (pos 0) then none else some d

-- The job at its loop; the dispatcher has no ticker.
abbrev pub ticked : Option Duration → Job → Option Job
ticked none job = none
ticked (some d) job = some job

abbrev pub start_job : Job → Option Job
start_job (ttl_sweeper d) = ticked (new_ticker d) (ttl_sweeper d)
start_job (missed_run_detector d) = ticked (new_ticker d) (missed_run_detector d)
start_job (alert_dispatcher d) = some (alert_dispatcher d)
start_job (retention_cleaner c) = ticked (new_ticker c.interval) (retention_cleaner c)

abbrev pub started_and : Option Job → Option (List Job) → Option (List Job)
started_and none rest = none
started_and (some job) none = none
started_and (some job) (some jobs) = some (job ∷ jobs)

unfoldable pub start_jobs : List Job → Option (List Job)
start_jobs [] = some []
start_jobs (job ∷ jobs) = started_and (start_job job) (start_jobs jobs)

-- The notifier and the dispatcher of a configuration.
abbrev pub notifier_of : Config → WebhookNotifier
notifier_of cfg = new_webhook_notifier cfg.alert_webhook_url cfg.alert_webhook_format

abbrev pub dispatcher_of : Config → Dispatcher
dispatcher_of cfg = new_dispatcher cfg.alert_rate_limit_per_minute (duration_of (pos 60) second)

abbrev pub dispatchers : Config → List Job → List Job
dispatchers cfg rest =
    if str_eq cfg.alert_webhook_url "" then rest else alert_dispatcher (dispatcher_of cfg) ∷ rest

abbrev pub cleaners : Config → List Job
cleaners cfg =
    if ltb_ℤ (pos 0) cfg.retention_days
    then retention_cleaner (new_cleaner cfg.retention_days cfg.retention_sweep_interval) ∷ []
    else []

unfoldable pub jobs_of : Config → List Job
jobs_of cfg =
    ttl_sweeper cfg.ttl_sweep_interval
    ∷ missed_run_detector cfg.missed_run_check_interval
    ∷ dispatchers cfg (cleaners cfg)
