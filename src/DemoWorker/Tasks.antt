-- ===== src/DemoWorker/Tasks.antt =====
-- What one task of the worker leaves in the store of a server whose driver reports no error.
use chronos_monitor.Prelude.{
  ℕ, suc, ◌%◌, ◌==◌, ◌||◌, String, str_eq, ◌≡◌, refl, sym, ap, ◌∙◌, List, [], ◌∷◌, ◌++◌, Option,
  none, Bool, false, Bool-cases, inl, inr, if◌then◌else◌,
}
use chronos_monitor.Clock.{Time}
use chronos_monitor.Models.{TaskStatus, TaskRun, StartRequest}
use chronos_monitor.Database.{TaskRow, ScheduleRow}
use chronos_monitor.Database.Keys.{IsDistinct, IsDistinct-concat, IsFresh}
use chronos_monitor.Database.OneRow.{IsDistinct-replace}
use chronos_monitor.Database.Table.{update_where}
use chronos_monitor.Tasks.{created_row, beat, scan_task_run}
use chronos_monitor.Tasks.Invariant.{run_key}
use chronos_monitor.Schedules.{has_name, touched_row}
use chronos_monitor.Broker.{EventType, Hub}
use chronos_monitor.Broker.Publishing.{IsSound, offered}
use chronos_monitor.Broker.Soundness.{offered-IsSound}
use chronos_monitor.Server.{one_task}
use chronos_monitor.TaskHandler.{started_run, started_event, get}
use chronos_monitor.TaskHandler.Client.{get-row}
use chronos_monitor.DemoWorker.{
  Draws, Report, stuck, failed, succeeded, name_of, traceback, start_ttl, beat_times, heartbeat,
  fail_run, succeed_run, go_on, run_demo_task,
}
use chronos_monitor.DemoWorker.Wire.{IsLetIn, World}
use chronos_monitor.DemoWorker.Served.{
  ask, world, told_hub, post_start, post_heartbeat, post_success, post_failed,
}

pub name_of-named : (draw : ℕ) → str_eq (name_of draw) "" ≡ false
unfolding name_of
name_of-named draw = elim (Bool-cases (draw % 4 == 0)) [
  | inl first ↦ rw first refl
  | inr later ↦ rw later (elim (Bool-cases (draw % 4 == 1)) [
    | inl second ↦ rw second refl
    | inr last ↦ rw last (elim (Bool-cases (draw % 4 == 2)) [
      | inl third ↦ rw third refl
      | inr fourth ↦ rw fourth refl
    ])
  ])
]

-- What a task is meant to come to.
pub data Fate : Type 0 where
  hangs fails succeeds : Fate

abbrev pub fate_of : ℕ → Fate
fate_of draw =
    if draw % 10 == 0
    then Fate.hangs
    else if draw % 10 == 1 || draw % 10 == 2
    then Fate.fails
    else Fate.succeeds

abbrev pub report_of : Fate → String → Report
report_of Fate.hangs run_id = stuck run_id
report_of Fate.fails run_id = failed run_id
report_of Fate.succeeds run_id = succeeded run_id

abbrev pub status_of : Fate → TaskStatus
status_of Fate.hangs = TaskStatus.running
status_of Fate.fails = TaskStatus.failed
status_of Fate.succeeds = TaskStatus.success

abbrev pub message_of : Fate → String
message_of Fate.hangs = ""
message_of Fate.fails = traceback
message_of Fate.succeeds = ""

-- What the server tells of the run, and the report of the worker.
abbrev pub Ends : Fate → String → String → Report × World → Type 0
Ends fate run_id task_name x =
    (task : TaskRun) × (x.0 ≡ report_of fate run_id)
    × ((get run_id x.1.server).0 ≡ record { status = 200; body = one_task task })
    × (task.status ≡ status_of fate)
    × (task.error_message ≡ message_of fate)
    × (task.task_name ≡ task_name)

module _ (format : Time → String) (parse_standard : String → Option (Time → Time))
    (collates : String → String → Bool) (key : String) (clock : ℕ → Time) (uuid : ℕ → String)
    (carry : String → Option String) (api_key : String) (let_in : IsLetIn key carry api_key) where
  module _ (rows : List TaskRow) (row : TaskRow) (d : IsDistinct run_key (rows ++ row ∷ []))
      (named : str_eq row.run_id "" ≡ false) (run : row.status ≡ TaskStatus.running)
      (silent : row.error_message ≡ none) (schedules : List ScheduleRow) (hub : Hub)
      (sound : IsSound hub) (n : ℕ) where
    abbrev asking : World
    asking = world (rows ++ row ∷ []) schedules hub n

    abbrev EndsHere : Fate → Report × World → Type 0
    EndsHere fate = Ends fate row.run_id row.task_name

    -- The row that the run's last request leaves is what a client reads.
    read_back :
        (row' : TaskRow) (hub' : Hub) (k : ℕ) (fate : Fate)
        → row'.run_id ≡ row.run_id
        → (scan_task_run row').status ≡ status_of fate
        → (scan_task_run row').error_message ≡ message_of fate
        → row'.task_name ≡ row.task_name
        → EndsHere fate (report_of fate row.run_id, world (rows ++ row' ∷ []) schedules hub' k)
    unfolding scan_task_run
    read_back row' hub' k fate id status message name = (
      scan_task_run row',
      refl,
      rw (sym id)
          (get-row schedules hub' rows [] row' (IsDistinct-replace run_key rows [] row row' id d)),
      status,
      message,
      name,
    )

    hung : EndsHere Fate.hangs (stuck row.run_id, asking)
    unfolding scan_task_run
    hung = read_back row hub n Fate.hangs refl run (rw silent refl) refl

    fell : EndsHere Fate.fails (
        fail_run
          (ask format parse_standard collates key clock uuid carry api_key let_in)
          api_key
          row.run_id
          asking)
    unfolding scan_task_run
    fell =
        rw
          (post_failed format parse_standard collates key clock uuid carry api_key let_in rows row d
            named schedules hub sound n traceback)
          (read_back _ _ (suc n) Fate.fails refl refl refl refl)

    -- The row and the hub after one heartbeat.
    abbrev once : TaskRow
    once = beat (clock n) row

    once-IsDistinct : IsDistinct run_key (rows ++ once ∷ [])
    once-IsDistinct = IsDistinct-replace run_key rows [] row once refl d

    abbrev once_hub : Hub
    once_hub =
        told_hub format parse_standard collates key clock uuid carry api_key let_in rows row d named
          schedules hub sound n EventType.heartbeat once

    went_well : EndsHere Fate.succeeds (
        succeed_run
          (ask format parse_standard collates key clock uuid carry api_key let_in)
          api_key
          row.run_id
          asking)
    unfolding scan_task_run beat_times
    went_well =
        let post = ask format parse_standard collates key clock uuid carry api_key let_in in
        let sound' : IsSound once_hub = offered-IsSound _ hub sound in
        let twice = beat (clock (suc n)) once in
        let d'' = IsDistinct-replace run_key rows [] once twice refl once-IsDistinct in
        let hub'' =
          told_hub format parse_standard collates key clock uuid carry api_key let_in rows once
            once-IsDistinct named schedules once_hub sound' (suc n) EventType.heartbeat twice in
        let first =
          post_heartbeat format parse_standard collates key clock uuid carry api_key let_in rows row
            d named schedules hub sound n run in
        let second =
          post_heartbeat format parse_standard collates key clock uuid carry api_key let_in rows
            once once-IsDistinct named schedules once_hub sound' (suc n) run in
        let beats : beat_times post api_key 2 row.run_id asking
            ≡ world (rows ++ twice ∷ []) schedules hub'' (suc (suc n)) =
          ap (λ x. (heartbeat post api_key row.run_id x.1).1) first ∙ ap (λ x. x.1) second in
        rw
          (
            beats,
            post_success format parse_standard collates key clock uuid carry api_key let_in rows
                twice d'' named schedules hub'' (offered-IsSound _ once_hub sound') (suc (suc n)),
          )
          (read_back _ _ (suc (suc (suc n))) Fate.succeeds refl refl refl refl)

    went_on :
        (draw : ℕ)
        → EndsHere (fate_of draw) (
            go_on
              (ask format parse_standard collates key clock uuid carry api_key let_in)
              api_key
              draw
              row.run_id
              asking)
    unfolding go_on
    went_on draw = elim (Bool-cases (draw % 10 == 0)) [
      | inl first ↦ rw first hung
      | inr later ↦ rw later (elim (Bool-cases (draw % 10 == 1 || draw % 10 == 2)) [
        | inl second ↦ rw second fell
        | inr other ↦ rw other went_well
      ])
    ]

  -- With no driver error, a sound hub, a new run id that is not empty, and the worker let in (the
  -- server has no key, or what arrives of the worker's Authorization header is "Bearer " and the
  -- server's key), a task of the worker comes to what its draw means it to: the worker reports a
  -- stuck, a failed or a succeeded run, and reading the run from the server answers with 200 and a
  -- task of the drawn name that is running, failed with the worker's traceback, or successful.
  pub run_demo_task-Ends :
      (draws : Draws) (rows : List TaskRow) (schedules : List ScheduleRow) (hub : Hub) (n : ℕ)
      → IsDistinct run_key rows
      → IsFresh run_key (uuid n) rows
      → str_eq (uuid n) "" ≡ false
      → IsSound hub
      → Ends (fate_of draws.fate) (uuid n) (name_of draws.name) (
          run_demo_task
            (ask format parse_standard collates key clock uuid carry api_key let_in)
            api_key
            draws
            (world rows schedules hub n))
  unfolding run_demo_task
  run_demo_task-Ends draws rows schedules hub n d fresh named sound =
      let req : StartRequest = record {
        task_name = name_of draws.name;
        run_id = "";
        source = "demo-go-worker";
        ttl_seconds = start_ttl draws.ttl;
      } in
      let run = started_run req (uuid n) (clock n) in
      rw
        (post_start format parse_standard collates key clock uuid carry api_key let_in rows d
          (name_of draws.name) draws.ttl schedules hub n (name_of-named draws.name) fresh sound)
        (went_on rows (created_row run) (IsDistinct-concat run_key rows (created_row run) d fresh)
          named refl refl
          (update_where (has_name (name_of draws.name)) (touched_row (clock n)) schedules)
          (offered (started_event run) hub.subs hub) (offered-IsSound (started_event run) hub sound)
          (suc n) draws.fate)
