-- ===== src/Schedules/Registration.antt =====
-- What `Get` returns after a schedule was registered again or its task was started, when the
-- driver reports no error.
use chronos_monitor.Prelude.{◌≡◌, refl, ap, List, ◌∷◌, ◌++◌, some}
use chronos_monitor.Clock.{Time}
use chronos_monitor.Models.{ScheduleStatus}
use chronos_monitor.Database.{TaskRow, ScheduleRow, ok}
use chronos_monitor.Database.Keys.{IsDistinct}
use chronos_monitor.Database.OneRow.{IsDistinct-replace}
use chronos_monitor.Tasks.Sweep.{quiet}
use chronos_monitor.Schedules.{
  scan_schedule, Expectation, reregistered_row, touched_row, upsert, touch, get,
}
use chronos_monitor.Schedules.Detection.{schedule_key}
use chronos_monitor.Schedules.Methods.{get-present, touch-present, upsert-present}

module _ (tasks : List TaskRow) (pre rows : List ScheduleRow) (row : ScheduleRow)
    (d : IsDistinct schedule_key (pre ++ row ∷ rows)) where
  replaced :
      (f : ScheduleRow → ScheduleRow)
      → (f row).task_name ≡ row.task_name
      → IsDistinct schedule_key (pre ++ f row ∷ rows)
  replaced f e = IsDistinct-replace schedule_key pre rows row (f row) e d

  -- Registering a schedule that is there replaces its expectation: `Get` then returns it with the
  -- status and the last start that it had.
  pub get-upsert_present :
      (x : Expectation) (now : Time)
      → (get row.task_name (upsert row.task_name x now (quiet tasks (pre ++ row ∷ rows))).1).0
        ≡ ok (record (scan_schedule row) {
          expected_interval_seconds = x.interval_seconds;
          cron_expression = x.cron_expression;
          grace_period_seconds = x.grace_period_seconds;
          updated_at = now;
        })
  unfolding scan_schedule
  get-upsert_present x now = rw (upsert-present tasks pre rows row d x now) (
      ap (λ r. r.0)
        (get-present tasks pre rows (reregistered_row x now row)
          (replaced (reregistered_row x now) refl)))

  -- A start clears a missed schedule: after `Touch`, `Get` returns the schedule as "ok" and last
  -- seen at that time, with its expectation as it was.
  pub get-touch :
      (at : Time)
      → (get row.task_name (touch row.task_name at (quiet tasks (pre ++ row ∷ rows))).1).0
        ≡ ok (record (scan_schedule row) {
          last_seen_at = some at;
          status = ScheduleStatus.ok;
          updated_at = at;
        })
  unfolding scan_schedule
  get-touch at = rw (touch-present tasks pre rows row d at) (
      ap (λ r. r.0)
        (get-present tasks pre rows (touched_row at row) (replaced (touched_row at) refl)))
