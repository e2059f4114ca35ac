-- ===== src/ScheduleHandler/Client.antt =====
-- What becomes of a registration under a new name, when the driver reports no error.
use chronos_monitor.Prelude.{
  ℕ, suc, ◌+◌, ◌*◌, ◌<◌, String, pos, leb_ℤ, ◌+ℤ◌, ◌≡◌, refl, ◌∙◌, List, [], ◌∷◌, ◌++◌, Option,
  none, some, arith, if◌then◌else◌,
}
use chronos_monitor.Clock.{Time, second, int64_half}
use chronos_monitor.Models.{RegisterScheduleRequest}
use chronos_monitor.Database.{TaskRow, ScheduleRow, ok}
use chronos_monitor.Database.Keys.{IsDistinct, IsDistinct-concat, IsFresh}
use chronos_monitor.Tasks.Sweep.{quiet}
use chronos_monitor.Schedules.{scan_schedule, registered_row, missed_row, get, detect_missed}
use chronos_monitor.Schedules.Detection.{schedule_key}
use chronos_monitor.Schedules.Methods.{upsert-absent}
use chronos_monitor.Schedules.Client.{get-detect, get-detect_interval}
use chronos_monitor.Broker.{Hub}
use chronos_monitor.Server.{Server}
use chronos_monitor.TaskHandler.{no_content}
use chronos_monitor.ScheduleHandler.{register, expectation_of, switch}
use chronos_monitor.ScheduleHandler.Validation.{register-valid}

-- A request for an interval of n + 1 seconds and a grace period of g.
abbrev pub with_interval : String → ℕ → ℕ → Option String → RegisterScheduleRequest
with_interval task_name n g cron = record {
  task_name = task_name;
  expected_interval_seconds = some (pos (suc n));
  cron_expression = cron;
  grace_period_seconds = pos g;
}

-- The row that it makes at the time of the registration.
abbrev pub new_row : String → Time → ℕ → ℕ → Option String → ScheduleRow
new_row task_name now n g cron =
    registered_row task_name (expectation_of (with_interval task_name n g cron)) now

module _ (parse_standard : String → Option (Time → Time)) (tasks : List TaskRow)
    (rows : List ScheduleRow) (hub : Hub) (d : IsDistinct schedule_key rows) (task_name : String)
    (fresh : IsFresh schedule_key task_name rows) (now : Time) where
  appended :
      (n g : ℕ) (cron : Option String)
      → IsDistinct schedule_key (rows ++ new_row task_name now n g cron ∷ [])
  appended n g cron = IsDistinct-concat schedule_key rows (new_row task_name now n g cron) d fresh

  accepted :
      (n g : ℕ) (cron : Option String)
      → switch parse_standard (with_interval task_name n g cron) ≡ none
      → register parse_standard
          (some (with_interval task_name n g cron))
          now
          (record { db = quiet tasks rows; hub = hub })
        ≡ (
          no_content,
          record { db = quiet tasks (rows ++ new_row task_name now n g cron ∷ []); hub = hub },
        )
  accepted n g cron h =
      rw
        (
          register-valid parse_standard (with_interval task_name n g cron) now _ h (ground arith),
          upsert-absent tasks task_name rows fresh
              (expectation_of (with_interval task_name n g cron)) now,
        )
        refl

  -- A new schedule with an interval of n + 1 seconds and a grace period of g, whose sum int64
  -- nanoseconds can hold, is registered with 204, and a detection at a time `later` flags it exactly
  -- when both have passed since the registration, if no run was started in between.
  pub register-detect :
      (n g : ℕ) (later : Time)
      → (suc n + g) * second < int64_half
      → (s : Server) × (register parse_standard
            (some (with_interval task_name n g none))
            now
            (record { db = quiet tasks rows; hub = hub })
          ≡ (no_content, s))
        × ((get task_name (detect_missed parse_standard later s.db).1).0
            ≡ ok (
                scan_schedule (
                  if leb_ℤ (now +ℤ pos (suc n * second + g * second)) later
                  then missed_row later (new_row task_name now n g none)
                  else new_row task_name now n g none)))
  register-detect n g later small = (
    record { db = quiet tasks (rows ++ new_row task_name now n g none ∷ []); hub = hub },
    accepted n g none (ground arith),
    get-detect_interval parse_standard tasks rows [] (new_row task_name now n g none)
        (appended n g none) later (suc n) g refl refl refl refl small,
  )

  -- A registration with a positive interval and the empty cron expression is answered with 204. If
  -- the cron library does not parse the empty expression, then no detection flags the schedule,
  -- however late it is.
  pub register-empty_cron :
      (n g : ℕ) (later : Time)
      → parse_standard "" ≡ none
      → (s : Server) × (register parse_standard
            (some (with_interval task_name n g (some "")))
            now
            (record { db = quiet tasks rows; hub = hub })
          ≡ (no_content, s))
        × ((get task_name (detect_missed parse_standard later s.db).1).0
            ≡ ok (scan_schedule (new_row task_name now n g (some ""))))
  register-empty_cron n g later h = (
    record { db = quiet tasks (rows ++ new_row task_name now n g (some "") ∷ []); hub = hub },
    accepted n g (some "") (ground arith),
    get-detect parse_standard tasks rows [] (new_row task_name now n g (some ""))
          (appended n g (some "")) later
        ∙ rw h refl,
  )
