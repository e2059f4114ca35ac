-- ===== src/System/Tests.antt =====
-- The handlers, the jobs and the whole server at concrete states.
use chronos_monitor.Prelude.{
  ne_of_test, pos, ◌-ℤ◌, ◌*ℤ◌, ◌≡◌, refl, List, [], ◌∷◌, ◌++◌, map, take, none, some, String,
  str_eq, if◌then◌else◌, arith,
}
use chronos_monitor.Clock.{Time, sub, duration_of, wrap64}
use chronos_monitor.Models.{TaskStatus, TaskRun}
use chronos_monitor.Database.{ScheduleRow}
use chronos_monitor.Database.Table.{update_where}
use chronos_monitor.Database.Rounds.{swept_row, found_in}
use chronos_monitor.Tasks.{scan_task_run, sweep_timeouts}
use chronos_monitor.Tasks.Sweep.{quiet, is_overdue, timed_out_row}
use chronos_monitor.Schedules.{has_name, touched_row, scan_schedule, missed_row, registered_row}
use chronos_monitor.Schedules.Detection.{is_missed}
use chronos_monitor.Broker.{Event, Hub, new_hub, subscribe, has_sub, receive, capacity}
use chronos_monitor.Broker.Publishing.{offered}
use chronos_monitor.Broker.Soundness.{new_hub-IsSound}
use chronos_monitor.Dispatcher.{Dispatcher, new_dispatcher, notified, handle}
use chronos_monitor.Server.{Server, started_id, one_task}
use chronos_monitor.TaskHandler.{start, failed, get, no_content, started_run, started_event}
use chronos_monitor.TaskHandler.Requests.{at_hub}
use chronos_monitor.TaskHandler.Client.{get-start, failed-notified}
use chronos_monitor.Sweeper.{sweep_once, timeout_event}
use chronos_monitor.Sweeper.Publishing.{sweep_once_lem}
use chronos_monitor.Sweeper.Lost.{half_way, sweep_once-lost}
use chronos_monitor.MissedRun.{check_once, missed_event}
use chronos_monitor.MissedRun.Publishing.{check_once_lem}
use chronos_monitor.System.{Step, serving, sweeping, joining, start as start_request}
use chronos_monitor.Config.{load, get_env_int}
use chronos_monitor.Config.Atoi.{atoi, unsigned, digits_after}
use chronos_monitor.Startup.{notifier_of, dispatcher_of}
use chronos_monitor.Notifier.{build_payload}
use chronos_monitor.Loops.{woken, Dispatched, dispatch_loop}
use chronos_monitor.System.Alerts.{posts_of, overdue, sweep-posts}
use chronos_monitor.System.Samples.{
  parser, format, at, backup, running_row, watched, watched-IsSound,
}

get-start_example :
    (s : Server) × (start (some backup) "u1" (at 1) (at_hub (quiet [] []) new_hub)
      ≡ some (record { status = 201; body = started_id "u1" }, s))
    × ((get "u1" s).0 ≡ record {
      status = 200;
      body = one_task (started_event (started_run backup "u1" (at 1))).task;
    })
    × (s.hub ≡ offered (started_event (started_run backup "u1" (at 1))) [] new_hub)
    × (s.db.task_schedules ≡ update_where (has_name "nightly-backup") (touched_row (at 1)) [])
get-start_example = get-start backup "u1" (at 1) [] [] new_hub tt tt new_hub-IsSound

abbrev unlimited : Dispatcher
unlimited = new_dispatcher (pos 0) (at 60)

failed-notified_example :
    (task : TaskRun) × (s : Server) × (evt : Event) × (failed
        (some (record { run_id = "a"; error_message = "boom" }))
        (at 4)
        (at_hub (quiet (running_row "a" ∷ []) []) watched)
      ≡ some (no_content, s))
    × ((get "a" s).0 ≡ record { status = 200; body = one_task task })
    × (task.status ≡ TaskStatus.failed)
    × (task.error_message ≡ "boom")
    × ((receive 0 s.hub).0 ≡ some evt)
    × ((handle evt (at 5) unlimited).0 ≡ notified task)
unfolding has_sub subscribe
failed-notified_example =
    failed-notified "boom" (at 4) (at 5) [] [] (running_row "a") [] watched 0 unlimited (tt, tt)
      watched-IsSound refl refl refl

sweep_once_example :
    (hub' : Hub) × (sweep_once
        (at 60)
        (record { db = quiet (running_row "a" ∷ []) []; hub = watched })
      ≡ some (record {
        db =
            quiet
              (map (swept_row (is_overdue (at 60)) (timed_out_row (at 60))) (running_row "a" ∷ []))
              [];
        hub = hub';
      }))
    × ((hub'.channels 0).queue
        ≡ take capacity (
            (watched.channels 0).queue
            ++ map timeout_event (
                found_in
                  (is_overdue (at 60))
                  (timed_out_row (at 60))
                  scan_task_run
                  (running_row "a" ∷ []))))
unfolding has_sub subscribe
sweep_once_example =
    sweep_once_lem (at 60) (running_row "a" ∷ []) [] watched 0 (tt, tt) watched-IsSound refl

-- An environment with a Discord webhook and no rate limit.
abbrev alerting : String → String
alerting key =
    if str_eq key "CHRONOS_ALERT_WEBHOOK_URL"
    then "https://example.org/hook"
    else if str_eq key "CHRONOS_ALERT_WEBHOOK_FORMAT"
    then "discord"
    else if str_eq key "CHRONOS_ALERT_RATE_LIMIT_PER_MINUTE"
    then "0"
    else ""

sweep-posts_example :
    (s : Server) × (x : Dispatched) × (sweep_once
        (at 60)
        (record { db = quiet (running_row "a" ∷ []) []; hub = (subscribe new_hub).1 })
      ≡ some s)
    × (dispatch_loop
          (woken (at 61) ∷ [])
          (subscribe new_hub).0
          (dispatcher_of (load alerting))
          s.hub
        ≡ some x)
    × (posts_of (notifier_of (load alerting)) x.actions
        ≡ map
            (λ task. ("https://example.org/hook", build_payload (notifier_of (load alerting)) task))
            (overdue (at 60) (running_row "a" ∷ [])))
unfolding atoi unsigned digits_after found_in load get_env_int duration_of wrap64 ◌*ℤ◌ sub ◌-ℤ◌
sweep-posts_example =
    sweep-posts (load alerting) (at 60) (at 61 ∷ []) (running_row "a" ∷ []) [] new_hub (tt, tt)
      new_hub-IsSound refl (omega arith) (omega arith)

sweep_once-lost_example :
    (sweep_once (at 60) (half_way (running_row "a") (running_row "b") [] watched)
      ≡ some (record {
        db = quiet (timed_out_row (at 60) (running_row "a") ∷ running_row "b" ∷ []) [];
        hub = watched;
      }))
    × ((sweep_timeouts
          (at 90)
          (quiet (timed_out_row (at 60) (running_row "a") ∷ running_row "b" ∷ []) [])).0.found
        ≡ found_in
            (is_overdue (at 90))
            (timed_out_row (at 90))
            scan_task_run
            (running_row "b" ∷ []))
unfolding sub ◌-ℤ◌ duration_of wrap64 ◌*ℤ◌
sweep_once-lost_example =
    sweep_once-lost (at 60) (at 90) (running_row "a") (running_row "b") [] watched
      (ne_of_test "b" "a" refl) refl refl

abbrev overdue_row : ScheduleRow
overdue_row =
    registered_row "report"
      (record {
        interval_seconds = some (pos 60);
        cron_expression = none;
        grace_period_seconds = pos 5;
      })
      (pos 0)

check_once_example :
    (hub' : Hub) × (check_once format parser
        (at 90)
        (record { db = quiet [] (overdue_row ∷ []); hub = watched })
      ≡ some (record {
        db =
            quiet []
              (map (swept_row (is_missed parser (at 90)) (missed_row (at 90))) (overdue_row ∷ []));
        hub = hub';
      }))
    × ((hub'.channels 0).queue
        ≡ take capacity (
            (watched.channels 0).queue
            ++ map (missed_event format) (
                found_in
                  (is_missed parser (at 90))
                  (missed_row (at 90))
                  scan_schedule
                  (overdue_row ∷ []))))
unfolding has_sub subscribe
check_once_example =
    check_once_lem format parser (at 90) [] (overdue_row ∷ []) watched 0 (tt, tt) watched-IsSound
      refl

-- A subscriber joins, a run starts and is swept a minute later.
abbrev script : List (Step × Time)
script =
    (joining, at 0) ∷ (serving (start_request (some backup) "u1"), at 1) ∷ (sweeping, at 61) ∷ []
