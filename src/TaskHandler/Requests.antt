-- ===== src/TaskHandler/Requests.antt =====
-- What the handlers answer and leave when the driver reports no error, and what they publish.
use chronos_monitor.Prelude.{String, ◌≡◌, refl, sym, List, [], ◌∷◌, ◌++◌, some, false}
use chronos_monitor.Clock.{Time, sub, milliseconds}
use chronos_monitor.Models.{TaskStatus, StartRequest, is_running}
use chronos_monitor.Database.{TaskRow, ScheduleRow, Db, exec}
use chronos_monitor.Database.Table.{update_where}
use chronos_monitor.Database.Keys.{IsDistinct, IsFresh}
use chronos_monitor.Database.OneRow.{IsDistinct-replace}
use chronos_monitor.Tasks.{created_row, finish_row, beat, scan_task_run}
use chronos_monitor.Tasks.Invariant.{run_key}
use chronos_monitor.Tasks.Sweep.{quiet}
use chronos_monitor.Tasks.Methods.{
  create-fresh, get-present, heartbeat-running, heartbeat-ended, finish-present,
}
use chronos_monitor.Schedules.{has_name, touched_row, touch}
use chronos_monitor.Broker.{EventType, Hub}
use chronos_monitor.Broker.Publishing.{IsSound, offered, publish_lem}
use chronos_monitor.Server.{Server, started_id, failure}
use chronos_monitor.TaskHandler.{
  run_id_or, started_run, started_event, no_content, start, heartbeat, success, failed,
  publish_latest,
}

abbrev pub at_hub : Db → Hub → Server
at_hub db hub = record { db = db; hub = hub }

touch-quiet :
    (task_name : String) (at : Time) (rows : List TaskRow) (schedules : List ScheduleRow)
    → (touch task_name at (quiet rows schedules)).1
      ≡ quiet rows (update_where (has_name task_name) (touched_row at) schedules)
unfolding touch exec
touch-quiet task_name at rows schedules = refl

module _ (schedules : List ScheduleRow) (hub : Hub) (s : IsSound hub) where
  pub start-fresh :
      (req : StartRequest) (new_string : String) (now : Time) (rows : List TaskRow)
      → IsFresh run_key (run_id_or req.run_id new_string) rows
      → start (some req) new_string now (at_hub (quiet rows schedules) hub)
        ≡ some (
          record { status = 201; body = started_id (run_id_or req.run_id new_string) },
          at_hub
              (quiet
                (rows ++ created_row (started_run req new_string now) ∷ [])
                (update_where (has_name req.task_name) (touched_row now) schedules))
              (offered (started_event (started_run req new_string now)) hub.subs hub),
        )
  unfolding start
  start-fresh req new_string now rows h =
      rw
        (
          create-fresh schedules (started_run req new_string now) rows h,
          publish_lem (started_event (started_run req new_string now)) hub s,
          touch-quiet req.task_name now (rows ++ created_row (started_run req new_string now) ∷ [])
              schedules,
        )
        refl

  module _ (pre rows : List TaskRow) (row : TaskRow)
      (d : IsDistinct run_key (pre ++ row ∷ rows)) where
    abbrev with_row : TaskRow → Db
    with_row row' = quiet (pre ++ row' ∷ rows) schedules

    abbrev pub told : EventType → TaskRow → Hub
    told kind row' = offered (record { kind = kind; task = scan_task_run row' }) hub.subs hub

    -- The row as it is now is what is published.
    publish_latest-present :
        (kind : EventType) (row' : TaskRow)
        → run_key row' ≡ run_key row
        → publish_latest row.run_id kind (at_hub (with_row row') hub)
          ≡ some (at_hub (with_row row') (told kind row'))
    unfolding publish_latest
    publish_latest-present kind row' e =
        let here =
          get-present schedules pre rows row' (IsDistinct-replace run_key pre rows row row' e d) in
        rw (sym e)
          (rw (here, publish_lem (record { kind = kind; task = scan_task_run row' }) hub s) refl)

    pub heartbeat-present :
        (now : Time)
        → row.status ≡ TaskStatus.running
        → heartbeat (some (record { run_id = row.run_id })) now (at_hub (with_row row) hub)
          ≡ some (
            no_content,
            at_hub (with_row (beat now row)) (told EventType.heartbeat (beat now row)),
          )
    unfolding heartbeat
    heartbeat-present now e =
        rw
          (
            heartbeat-running schedules pre rows row d now e,
            publish_latest-present EventType.heartbeat (beat now row) refl,
          )
          refl

    pub heartbeat-late :
        (now : Time)
        → is_running row.status ≡ false
        → heartbeat (some (record { run_id = row.run_id })) now (at_hub (with_row row) hub)
          ≡ some (failure 404 "task run not found", at_hub (with_row row) hub)
    unfolding heartbeat
    heartbeat-late now e = rw (heartbeat-ended schedules pre rows row d now e) refl

    abbrev pub ended : TaskStatus → String → Time → TaskRow
    ended status message now =
        finish_row status now (milliseconds (sub now row.started_at)) message row

    pub success-present :
        (now : Time)
        → success (some (record { run_id = row.run_id })) now (at_hub (with_row row) hub)
          ≡ some (
            no_content,
            at_hub
                (with_row (ended TaskStatus.success "" now))
                (told EventType.succeeded (ended TaskStatus.success "" now)),
          )
    unfolding success
    success-present now =
        rw
          (
            finish-present schedules pre rows row d TaskStatus.success "" now,
            publish_latest-present EventType.succeeded (ended TaskStatus.success "" now) refl,
          )
          refl

    pub failed-present :
        (message : String) (now : Time)
        → failed
            (some (record { run_id = row.run_id; error_message = message }))
            now
            (at_hub (with_row row) hub)
          ≡ some (
            no_content,
            at_hub
                (with_row (ended TaskStatus.failed message now))
                (told EventType.failed (ended TaskStatus.failed message now)),
          )
    unfolding failed
    failed-present message now =
        rw
          (
            finish-present schedules pre rows row d TaskStatus.failed message now,
            publish_latest-present EventType.failed (ended TaskStatus.failed message now) refl,
          )
          refl
