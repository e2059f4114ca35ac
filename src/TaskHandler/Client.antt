-- ===== src/TaskHandler/Client.antt =====
-- What a client and the subscribers see of a request, when the driver reports no error.
use chronos_monitor.Prelude.{ℕ, String, ◌≡◌, refl, List, [], ◌∷◌, ◌++◌, some, true, pos, leb_ℤ}
use chronos_monitor.Clock.{Time}
use chronos_monitor.Models.{TaskStatus, TaskRun, StartRequest}
use chronos_monitor.Database.{TaskRow, ScheduleRow}
use chronos_monitor.Database.Table.{update_where}
use chronos_monitor.Database.Keys.{IsDistinct, IsDistinct-concat, IsFresh}
use chronos_monitor.Database.OneRow.{IsDistinct-replace}
use chronos_monitor.Tasks.{created_row, scan_task_run}
use chronos_monitor.Tasks.Invariant.{run_key}
use chronos_monitor.Tasks.Sweep.{quiet}
use chronos_monitor.Tasks.Methods.{get-present}
use chronos_monitor.Schedules.{has_name, touched_row}
use chronos_monitor.Broker.{EventType, Event, Hub, has_sub, receive}
use chronos_monitor.Broker.Publishing.{IsSound, offered}
use chronos_monitor.Dispatcher.{Dispatcher, notified, handle, allow}
use chronos_monitor.Server.{Server, started_id, one_task}
use chronos_monitor.TaskHandler.{
  run_id_or, started_run, started_event, no_content, start, failed, get,
}
use chronos_monitor.TaskHandler.Requests.{at_hub, start-fresh, failed-present, ended}

module _ (schedules : List ScheduleRow) (hub : Hub) where
  pub get-row :
      (pre rows : List TaskRow) (row : TaskRow)
      → IsDistinct run_key (pre ++ row ∷ rows)
      → (get row.run_id (at_hub (quiet (pre ++ row ∷ rows) schedules) hub)).0
        ≡ record { status = 200; body = one_task (scan_task_run row) }
  unfolding get
  get-row pre rows row d = rw (get-present schedules pre rows row d) refl

-- A start under a new run id is answered with 201 and that id. Then reading the run answers with
-- 200 and the very task that was offered to every subscriber, and each schedule of its name is "ok"
-- and last seen at the start.
pub get-start :
    (req : StartRequest) (new_string : String) (now : Time) (rows : List TaskRow)
    (schedules : List ScheduleRow) (hub : Hub)
    → IsDistinct run_key rows
    → IsFresh run_key (run_id_or req.run_id new_string) rows
    → IsSound hub
    → (s : Server) × (start (some req) new_string now (at_hub (quiet rows schedules) hub)
        ≡ some (record { status = 201; body = started_id (run_id_or req.run_id new_string) }, s))
      × ((get (run_id_or req.run_id new_string) s).0 ≡ record {
        status = 200;
        body = one_task (started_event (started_run req new_string now)).task;
      })
      × (s.hub ≡ offered (started_event (started_run req new_string now)) hub.subs hub)
      × (s.db.task_schedules ≡ update_where (has_name req.task_name) (touched_row now) schedules)
unfolding scan_task_run
get-start req new_string now rows schedules hub d f s =
    let row = created_row (started_run req new_string now) in
    (
      _,
      start-fresh schedules hub s req new_string now rows f,
      get-row _ _ rows [] row (IsDistinct-concat run_key rows row d f),
      refl,
      refl,
    )

offer-empty :
    (evt : Event) (id : ℕ) (hub : Hub)
    → has_sub id hub.subs ≡ true
    → (hub.channels id).queue ≡ []
    → (receive id (offered evt hub.subs hub)).0 ≡ some evt
unfolding receive
offer-empty evt id hub h e = rw (h, e) refl

handle-unlimited :
    (task : TaskRun) (now : Time) (d : Dispatcher)
    → leb_ℤ d.limit (pos 0) ≡ true
    → (handle (record { kind = EventType.failed; task = task }) now d).0 ≡ notified task
unfolding handle allow
handle-unlimited task now d h = rw h refl

-- A reported failure of a stored run is answered with 204, and reading the run then answers with
-- 200 and the failed task with its error text. The same task is what a subscriber with nothing
-- pending receives, and what a dispatcher without a limit hands to the notifier.
pub failed-notified :
    (message : String) (now later : Time) (pre rows : List TaskRow) (row : TaskRow)
    (schedules : List ScheduleRow) (hub : Hub) (id : ℕ) (d : Dispatcher)
    → IsDistinct run_key (pre ++ row ∷ rows)
    → IsSound hub
    → has_sub id hub.subs ≡ true
    → (hub.channels id).queue ≡ []
    → leb_ℤ d.limit (pos 0) ≡ true
    → (task : TaskRun) × (s : Server) × (evt : Event) × (failed
          (some (record { run_id = row.run_id; error_message = message }))
          now
          (at_hub (quiet (pre ++ row ∷ rows) schedules) hub)
        ≡ some (no_content, s))
      × ((get row.run_id s).0 ≡ record { status = 200; body = one_task task })
      × (task.status ≡ TaskStatus.failed)
      × (task.error_message ≡ message)
      × ((receive id s.hub).0 ≡ some evt)
      × ((handle evt later d).0 ≡ notified task)
unfolding scan_task_run
failed-notified message now later pre rows row schedules hub id d k s h e u =
    let row' = ended schedules hub s pre rows row k TaskStatus.failed message now in
    (
      scan_task_run row',
      _,
      record { kind = EventType.failed; task = scan_task_run row' },
      failed-present schedules hub s pre rows row k message now,
      get-row schedules _ pre rows row' (IsDistinct-replace run_key pre rows row row' refl k),
      refl,
      refl,
      offer-empty _ id hub h e,
      handle-unlimited (scan_task_run row') later d u,
    )
