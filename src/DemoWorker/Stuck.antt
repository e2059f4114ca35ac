-- ===== src/DemoWorker/Stuck.antt =====
-- The worker's stuck task, which its comment and its log promise will be timed out.
use chronos_monitor.Prelude.{
  Option, ℤ, Bool, ℕ, suc, ◌%◌, ◌==◌, String, str_eq, ◌≡◌, refl, ap, ◌∙◌, List, [], ◌∷◌, ◌++◌, none,
  some, true, false,
}
use chronos_monitor.Clock.{Time}
use chronos_monitor.Models.{TaskStatus, TaskRun, StartRequest}
use chronos_monitor.Database.{TaskRow, ScheduleRow, ok}
use chronos_monitor.Database.Keys.{IsDistinct, IsDistinct-concat, IsFresh}
use chronos_monitor.Database.Table.{update_where}
use chronos_monitor.Tasks.{created_row, scan_task_run, get, sweep_timeouts}
use chronos_monitor.Tasks.Client.{get-sweep}
use chronos_monitor.Tasks.Invariant.{run_key}
use chronos_monitor.Tasks.Sweep.{quiet, is_overdue, overdue_with, timed_out_row}
use chronos_monitor.Database.Rounds.{swept_row}
use chronos_monitor.Schedules.{has_name, touched_row}
use chronos_monitor.Broker.{Hub}
use chronos_monitor.Broker.Publishing.{IsSound, offered}
use chronos_monitor.TaskHandler.{started_run, started_event}
use chronos_monitor.DemoWorker.{Draws, stuck, name_of, start_ttl, after_start, go_on, run_demo_task}
use chronos_monitor.DemoWorker.Wire.{IsLetIn, World}
use chronos_monitor.DemoWorker.Served.{ask, world, post_start}
use chronos_monitor.DemoWorker.Tasks.{name_of-named}

kept :
    (now : Time) (row : TaskRow)
    → is_overdue now row ≡ false
    → swept_row (is_overdue now) (timed_out_row now) row ≡ row
kept now row e = rw e refl

-- A run without a TTL is never overdue.
endless_row :
    (status : TaskStatus) (ttl : Option ℤ) (row : TaskRow) (now : Time)
    → ttl ≡ none
    → overdue_with status ttl now row ≡ false
endless_row TaskStatus.running none row now e = refl
endless_row TaskStatus.running (some n) row now e = cc
endless_row _ ttl row now e = refl

endless_sweep :
    (schedules : List ScheduleRow) (rows : List TaskRow) (row : TaskRow)
    → IsDistinct run_key (rows ++ row ∷ [])
    → (later : Time) → row.ttl_seconds ≡ none
    → (get row.run_id (sweep_timeouts later (quiet (rows ++ row ∷ []) schedules)).1).0
      ≡ ok (scan_task_run row)
endless_sweep schedules rows row d later e =
    let early : is_overdue later row ≡ false = endless_row row.status row.ttl_seconds row later e in
    get-sweep schedules rows [] row d later ∙ ap (λ r. ok (scan_task_run r)) (kept later row early)

module _ (format : Time → String) (parse_standard : String → Option (Time → Time))
    (collates : String → String → Bool) (key : String) (clock : ℕ → Time) (uuid : ℕ → String)
    (carry : String → Option String) (api_key : String) (let_in : IsLetIn key carry api_key) where
  -- With no driver error, a sound hub, a new run id that is not empty, and the worker let in (the
  -- server has no key, or what arrives of the worker's Authorization header is "Bearer " and the
  -- server's key), a task of the worker that is drawn as stuck while the draw for its TTL is not 0
  -- is reported as stuck, but no sweep times it out, whatever time it comes at: reading the run
  -- still gives a running task.
  pub run_demo_task-stuck :
      (draws : Draws) (rows : List TaskRow) (schedules : List ScheduleRow) (hub : Hub) (n : ℕ)
      (later : Time)
      → IsDistinct run_key rows
      → IsFresh run_key (uuid n) rows
      → str_eq (uuid n) "" ≡ false
      → IsSound hub
      → (draws.fate % 10 == 0) ≡ true
      → (draws.ttl % 10 == 0) ≡ false
      → (w : World) × (task : TaskRun) × (run_demo_task
            (ask format parse_standard collates key clock uuid carry api_key let_in)
            api_key
            draws
            (world rows schedules hub n)
          ≡ (stuck (uuid n), w))
        × ((get (uuid n) (sweep_timeouts later w.server.db).1).0 ≡ ok task)
        × (task.status ≡ TaskStatus.running)
  unfolding run_demo_task go_on scan_task_run
  run_demo_task-stuck draws rows schedules hub n later d fresh named sound hangs endless =
      let req : StartRequest = record {
        task_name = name_of draws.name;
        run_id = "";
        source = "demo-go-worker";
        ttl_seconds = start_ttl draws.ttl;
      } in
      let row = created_row (started_run req (uuid n) (clock n)) in
      let schedules' =
        update_where (has_name (name_of draws.name)) (touched_row (clock n)) schedules in
      let endless_ttl : start_ttl draws.ttl ≡ none = rw endless refl in
      let started =
        post_start format parse_standard collates key clock uuid carry api_key let_in rows d
          (name_of draws.name) draws.ttl schedules hub n (name_of-named draws.name) fresh sound in
      (
        world (rows ++ row ∷ []) schedules'
            (offered (started_event (started_run req (uuid n) (clock n))) hub.subs hub) (suc n),
        scan_task_run row,
        ap
              (after_start (ask format parse_standard collates key clock uuid carry api_key let_in)
                api_key draws.fate)
              started
            ∙ rw hangs refl,
        endless_sweep schedules' rows row (IsDistinct-concat run_key rows row d fresh) later
            endless_ttl,
        refl,
      )
