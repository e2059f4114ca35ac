-- ===== src/DemoWorker/Served.antt =====
-- A task of the worker against a server whose driver reports no error.
use Prim.Native.String.{◌++◌ as join}
use chronos_monitor.Prelude.{
  ◌⊎◌, ℕ, suc, String, str_eq, eq_iff, ◌≡◌, ◌≢◌, refl, List, [], ◌∷◌, ◌++◌, Option, none, Bool,
  false, Bool-cases, inl, inr,
}
use chronos_monitor.Clock.{Time}
use chronos_monitor.Models.{TaskStatus, StartRequest}
use chronos_monitor.Database.{TaskRow, ScheduleRow}
use chronos_monitor.Database.Keys.{IsDistinct, IsFresh}
use chronos_monitor.Tasks.{created_row, beat}
use chronos_monitor.Tasks.Invariant.{run_key}
use chronos_monitor.Tasks.Sweep.{quiet}
use chronos_monitor.Schedules.{has_name, touched_row}
use chronos_monitor.Database.Table.{update_where}
use chronos_monitor.Broker.{EventType, Hub}
use chronos_monitor.Broker.Publishing.{IsSound, offered}
use chronos_monitor.Server.{Server}
use chronos_monitor.System.{Request, serve}
use chronos_monitor.TaskHandler.{started_run, started_event}
use chronos_monitor.TaskHandler.Requests.{
  at_hub, start-fresh, heartbeat-present, success-present, failed-present, told, ended,
}
use chronos_monitor.Router.{require_api_key, handle}
use chronos_monitor.Router.Access.{accepts_iff, token_of_Presents}
use chronos_monitor.DemoWorker.{
  Post, Reply, sent, start_ttl, post_json, start, heartbeat, succeed, fail,
}
use chronos_monitor.DemoWorker.Wire.{IsLetIn, World, route, exchange}

pub not_empty : (text : String) → str_eq text "" ≡ false → text ≢ ""
not_empty text h e = let same = (eq_iff text "").1 e in cc

unlocked : (authorization : String) → require_api_key "" authorization "" ≡ none
unfolding require_api_key
unlocked authorization = refl

-- "Bearer " and the key satisfies the check of the key.
authorized : (key : String) → require_api_key key (join "Bearer " key) "" ≡ none
authorized key = elim (Bool-cases (str_eq key "")) [
  | inl empty ↦ let e = (eq_iff key "").0 empty in rw e (unlocked _)
  | inr full ↦
      (accepts_iff key (join "Bearer " key) "" (not_empty key full)).1
        (token_of_Presents key _ "" (inl refl))
]

passes :
    (key authorization : String)
    → (key ≡ "") ⊎ (authorization ≡ join "Bearer " key)
    → require_api_key key authorization "" ≡ none
passes key authorization (inl open_) = rw open_ (unlocked authorization)
passes key authorization (inr same) = rw same (authorized key)

abbrev pub world : List TaskRow → List ScheduleRow → Hub → ℕ → World
world rows schedules hub n = record { server = at_hub (quiet rows schedules) hub; posts = n }

module _ (format : Time → String) (parse_standard : String → Option (Time → Time))
    (collates : String → String → Bool) (key : String) (clock : ℕ → Time) (uuid : ℕ → String)
    (carry : String → Option String) (api_key : String) (let_in : IsLetIn key carry api_key) where
  abbrev pub ask : Post → World → Option Reply × World
  ask = exchange format parse_standard collates key clock uuid carry

  handled :
      (q : Request) (now : Time) (s : Server)
      → handle format parse_standard collates key let_in.0 "" q now s
        ≡ serve format parse_standard collates q now s
  unfolding handle
  handled q now s = rw (passes key let_in.0 let_in.2) refl

  module _ (rows : List TaskRow) (d : IsDistinct run_key rows) where
    pub post_start :
        (task_name : String) (draw : ℕ) (schedules : List ScheduleRow) (hub : Hub) (n : ℕ)
        → str_eq task_name "" ≡ false
        → IsFresh run_key (uuid n) rows
        → IsSound hub
        → let req : StartRequest = record {
          task_name = task_name;
          run_id = "";
          source = "demo-go-worker";
          ttl_seconds = start_ttl draw;
        } in
          let run = started_run req (uuid n) (clock n) in
          start ask api_key task_name draw (world rows schedules hub n) ≡ (
            sent (uuid n),
            world
                (rows ++ created_row run ∷ [])
                (update_where (has_name task_name) (touched_row (clock n)) schedules)
                (offered (started_event run) hub.subs hub)
                (suc n),
          )
    unfolding post_json exchange route serve
    post_start task_name draw schedules hub n named fresh sound =
        rw (let_in.1, named, handled _ (clock n) (at_hub (quiet rows schedules) hub))
          (rw (start-fresh schedules hub sound _ (uuid n) (clock n) rows fresh) refl)

  abbrev pub no_content_reply : Reply
  no_content_reply = record { status = 204; run_id = none }

  module _ (rows : List TaskRow) (row : TaskRow) (d : IsDistinct run_key (rows ++ row ∷ []))
      (named : str_eq row.run_id "" ≡ false) (schedules : List ScheduleRow) (hub : Hub)
      (sound : IsSound hub) (n : ℕ) where
    abbrev pub told_hub : EventType → TaskRow → Hub
    told_hub = told schedules hub sound rows [] row d

    abbrev pub at_end : TaskStatus → String → TaskRow
    at_end status message = ended schedules hub sound rows [] row d status message (clock n)

    abbrev pub asked : World
    asked = world (rows ++ row ∷ []) schedules hub n

    pub post_heartbeat :
        row.status ≡ TaskStatus.running
        → heartbeat ask api_key row.run_id asked ≡ (
          sent no_content_reply,
          world
              (rows ++ beat (clock n) row ∷ [])
              schedules
              (told_hub EventType.heartbeat (beat (clock n) row))
              (suc n),
        )
    unfolding post_json exchange route serve
    post_heartbeat run =
        rw (let_in.1, named, handled _ (clock n) (at_hub (quiet (rows ++ row ∷ []) schedules) hub))
          (rw (heartbeat-present schedules hub sound rows [] row d (clock n) run) refl)

    pub post_success : succeed ask api_key row.run_id asked ≡ (
      sent no_content_reply,
      world
          (rows ++ at_end TaskStatus.success "" ∷ [])
          schedules
          (told_hub EventType.succeeded (at_end TaskStatus.success ""))
          (suc n),
    )
    unfolding post_json exchange route serve
    post_success =
        rw (let_in.1, named, handled _ (clock n) (at_hub (quiet (rows ++ row ∷ []) schedules) hub))
          (rw (success-present schedules hub sound rows [] row d (clock n)) refl)

    pub post_failed :
        (message : String)
        → fail ask api_key row.run_id message asked ≡ (
          sent no_content_reply,
          world
              (rows ++ at_end TaskStatus.failed message ∷ [])
              schedules
              (told_hub EventType.failed (at_end TaskStatus.failed message))
              (suc n),
        )
    unfolding post_json exchange route serve
    post_failed message =
        rw (let_in.1, named, handled _ (clock n) (at_hub (quiet (rows ++ row ∷ []) schedules) hub))
          (rw (failed-present schedules hub sound rows [] row d message (clock n)) refl)
