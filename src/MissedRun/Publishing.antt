-- ===== src/MissedRun/Publishing.antt =====
-- What a tick of the missed-run detector writes and publishes.
use chronos_monitor.Prelude.{ℕ, String, ◌≡◌, refl, List, ◌++◌, map, take, Option, some, true}
use chronos_monitor.Clock.{Time}
use chronos_monitor.Database.{TaskRow, ScheduleRow}
use chronos_monitor.Database.Keys.{IsDistinct}
use chronos_monitor.Database.Rounds.{swept_row, found_in}
use chronos_monitor.Tasks.Sweep.{quiet}
use chronos_monitor.Schedules.{scan_schedule, missed_row}
use chronos_monitor.Schedules.Detection.{schedule_key, is_missed, detect_missed_lem}
use chronos_monitor.Broker.{Hub, capacity, has_sub}
use chronos_monitor.Broker.Publishing.{IsSound}
use chronos_monitor.Broker.Runs.{publish_all_lem}
use chronos_monitor.MissedRun.{missed_event, check_once}

-- With no driver error, a tick on a table with distinct names and a sound hub flags the schedules
-- that are "ok" and whose deadline has come and no others, leaves the runs alone, and each
-- subscriber holds what it held and then one event for each flagged schedule in the order of the
-- table, made from the row as it now stands, cut off at 16 events.
pub check_once_lem :
    (format : Time → String) (parse_standard : String → Option (Time → Time)) (now : Time)
    (tasks : List TaskRow) (rows : List ScheduleRow) (hub : Hub) (id : ℕ)
    → IsDistinct schedule_key rows
    → IsSound hub
    → has_sub id hub.subs ≡ true
    → (hub' : Hub) × (check_once format parse_standard now
          (record { db = quiet tasks rows; hub = hub })
        ≡ some (record {
          db = quiet tasks (map (swept_row (is_missed parse_standard now) (missed_row now)) rows);
          hub = hub';
        }))
      × ((hub'.channels id).queue
          ≡ take capacity (
              (hub.channels id).queue
              ++ map
                  (missed_event format)
                  (found_in (is_missed parse_standard now) (missed_row now) scan_schedule rows)))
unfolding check_once
check_once_lem format parse_standard now tasks rows hub id d s h =
    let evts =
      map (missed_event format)
        (found_in (is_missed parse_standard now) (missed_row now) scan_schedule rows) in
    let (hub', e, q) = publish_all_lem evts hub id s h in
    (hub', rw (detect_missed_lem parse_standard now tasks rows d, e) refl, q)
