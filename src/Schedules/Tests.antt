-- ===== src/Schedules/Tests.antt =====
-- The schedule store at concrete tables.
use chronos_monitor.Prelude.{
  leb_ℤ, ℕ, String, ne_of_test, pos, ◌+◌, ◌*◌, ◌+ℤ◌, ◌≡◌, refl, List, [], ◌∷◌, map, Option, none,
  some, arith, if◌then◌else◌, str_eq,
}
use chronos_monitor.Clock.{Time, second}
use chronos_monitor.Database.{ScheduleRow, ok}
use chronos_monitor.Database.Keys.{IsDistinct}
use chronos_monitor.Database.Rounds.{swept_row, found_in}
use chronos_monitor.Tasks.Sweep.{quiet}
use chronos_monitor.Schedules.{
  Expectation, registered_row, missed_row, scan_schedule, get, detect_missed,
}
use chronos_monitor.Schedules.Detection.{schedule_key, is_missed, detect_missed_lem}
use chronos_monitor.Schedules.Client.{get-detect_interval, get-detect_cron}

-- A cron library that knows one expression: ten seconds after the reference.
abbrev parser : String → Option (Time → Time)
parser expression = if str_eq expression "@tenth" then some (λ t. t +ℤ pos (10 * second)) else none

abbrev minutely : Expectation
minutely = record {
  interval_seconds = some (pos 60);
  cron_expression = none;
  grace_period_seconds = pos 5;
}

abbrev tenth : Expectation
tenth = record {
  interval_seconds = none;
  cron_expression = some "@tenth";
  grace_period_seconds = pos 5;
}

abbrev report : ScheduleRow
report = registered_row "report" minutely (pos 0)

abbrev sync : ScheduleRow
sync = registered_row "sync" tenth (pos 0)

abbrev table : List ScheduleRow
table = report ∷ sync ∷ []

IsDistinct-table : IsDistinct schedule_key table
IsDistinct-table = ((ne_of_test "sync" "report" refl, tt), (tt, tt))

IsDistinct-swapped : IsDistinct schedule_key (sync ∷ report ∷ [])
IsDistinct-swapped = ((ne_of_test "report" "sync" refl, tt), (tt, tt))

abbrev at : ℕ → Time
at n = pos (n * second)

detect_missed_example : detect_missed parser (at 30) (quiet [] table) ≡ (
  record {
    found = found_in (is_missed parser (at 30)) (missed_row (at 30)) scan_schedule table;
    error = none;
  },
  quiet [] (map (swept_row (is_missed parser (at 30)) (missed_row (at 30))) table),
)
detect_missed_example = detect_missed_lem parser (at 30) [] table IsDistinct-table

get-detect_interval_example :
    (get "report" (detect_missed parser (at 30) (quiet [] table)).1).0
    ≡ ok (
        scan_schedule (
          if leb_ℤ (pos 0 +ℤ pos (60 * second + 5 * second)) (at 30)
          then missed_row (at 30) report
          else report))
get-detect_interval_example =
    get-detect_interval parser [] [] (sync ∷ []) report IsDistinct-table (at 30) 60 5 refl refl refl
      refl (omega arith)

get-detect_cron_example :
    (get "sync" (detect_missed parser (at 30) (quiet [] (sync ∷ report ∷ []))).1).0
    ≡ ok (
        scan_schedule (
          if leb_ℤ (pos 0 +ℤ pos (10 * second) +ℤ pos (5 * second)) (at 30)
          then missed_row (at 30) sync
          else sync))
get-detect_cron_example =
    get-detect_cron parser [] [] (report ∷ []) sync IsDistinct-swapped (at 30) "@tenth"
      (λ t. t +ℤ pos (10 * second)) 5 refl refl refl refl (omega arith)
