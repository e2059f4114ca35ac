-- ===== src/ScheduleHandler/Tests.antt =====
-- Registrations at a concrete server.
use chronos_monitor.Prelude.{
  ◌+◌, ◌*◌, pos, ◌+ℤ◌, leb_ℤ, ◌≡◌, refl, ◌⊎◌, [], none, some, arith, if◌then◌else◌,
}
use chronos_monitor.Clock.{second}
use chronos_monitor.Models.{RegisterScheduleRequest}
use chronos_monitor.Database.{ok}
use chronos_monitor.Schedules.{
  scan_schedule, missed_row, get as get_schedule, detect_missed, upsert,
}
use chronos_monitor.Schedules.Invariant.{IsExpectation}
use chronos_monitor.Broker.{new_hub}
use chronos_monitor.Server.{Server}
use chronos_monitor.TaskHandler.{no_content}
use chronos_monitor.ScheduleHandler.{register, expectation_of, after_upsert}
use chronos_monitor.ScheduleHandler.Validation.{register_cases}
use chronos_monitor.ScheduleHandler.Client.{
  with_interval, new_row, register-detect, register-empty_cron,
}
use chronos_monitor.System.Samples.{parser, at, idle}

abbrev contradictory : RegisterScheduleRequest
contradictory = record {
  task_name = "report";
  expected_interval_seconds = some (pos 60);
  cron_expression = some "@daily";
  grace_period_seconds = pos 0;
}

register_cases_example :
    (IsExpectation parser (expectation_of contradictory)
      × (register parser (some contradictory) (at 1) idle
          ≡ after_upsert (upsert "report" (expectation_of contradictory) (at 1) idle.db) new_hub))
    ⊎ ((IsExpectation parser (expectation_of contradictory) → ⊥)
        × ((register parser (some contradictory) (at 1) idle).0.status ≡ 400)
        × ((register parser (some contradictory) (at 1) idle).1 ≡ idle))
register_cases_example = register_cases parser contradictory (at 1) idle

register-detect_example :
    (s : Server) × (register parser (some (with_interval "report" 59 5 none)) (at 1) idle
      ≡ (no_content, s))
    × ((get_schedule "report" (detect_missed parser (at 90) s.db).1).0
        ≡ ok (
            scan_schedule (
              if leb_ℤ (at 1 +ℤ pos (60 * second + 5 * second)) (at 90)
              then missed_row (at 90) (new_row "report" (at 1) 59 5 none)
              else new_row "report" (at 1) 59 5 none)))
register-detect_example =
    register-detect parser [] [] new_hub tt "report" tt (at 1) 59 5 (at 90) (omega arith)

register-empty_cron_example :
    (s : Server) × (register parser (some (with_interval "report" 59 5 (some ""))) (at 1) idle
      ≡ (no_content, s))
    × ((get_schedule "report" (detect_missed parser (at 90) s.db).1).0
        ≡ ok (scan_schedule (new_row "report" (at 1) 59 5 (some ""))))
register-empty_cron_example =
    register-empty_cron parser [] [] new_hub tt "report" tt (at 1) 59 5 (at 90) refl
