-- ===== src/DemoWorker/Keeps.antt =====
-- Whatever the worker draws and whatever becomes of the server's statements, the worker does the
-- server no harm; and with a key that is not the server's it reaches nothing.
use Prim.Native.String.{◌++◌ as join}
use chronos_monitor.Prelude.{
  sym, ap, ◌∙◌, ◌⊎◌, ℕ, zero, suc, ◌%◌, ◌==◌, ◌||◌, String, ◌≡◌, ◌≢◌, refl, List, [], ◌∷◌, Option,
  none, some, Bool, Bool-cases, Option-cases, inl, inr,
}
use chronos_monitor.Clock.{Time}
use chronos_monitor.Server.{Response, Server}
use chronos_monitor.System.{Request}
use chronos_monitor.System.Invariant.{IsHealthy, serve_lem}
use chronos_monitor.Router.{require_api_key, handle, unauthorized}
use chronos_monitor.Router.Access.{access_cases}
use chronos_monitor.DemoWorker.{
  no_response, Fields, of_run, of_failure, traceback, heartbeat_path, success_path, failed_path,
  Draws, Post, Reply, Sent, sent, unsent, start_failed, unexpected_status, start_path,
  authorization_of, post_json, beat_times, go_on, after_start, run_demo_task, run_tasks,
}
use chronos_monitor.DemoWorker.Wire.{World, carried, routed, exchange, route}

-- What every exchange keeps, the worker keeps.
module _ {W : Type 0} (exchange : Post → W → Option Reply × W) (api_key : String) (P : W → Type 0)
    (keeps : (post : Post) (w : W) → P w → P (exchange post w).1) where
  post_json-Keeps :
      (path : String) (fields : Fields) (w : W)
      → P w
      → P (post_json exchange api_key path fields w).1
  unfolding post_json
  post_json-Keeps path fields w h = keeps _ w h

  beat_times-Keeps :
      (n : ℕ) (run_id : String) (w : W) → P w → P (beat_times exchange api_key n run_id w)
  unfolding beat_times
  beat_times-Keeps zero run_id w h = h
  beat_times-Keeps (suc n) run_id w h =
      beat_times-Keeps n run_id _ (post_json-Keeps heartbeat_path (of_run run_id) w h)

  go_on-Keeps :
      (fate : ℕ) (run_id : String) (w : W) → P w → P (go_on exchange api_key fate run_id w).1
  unfolding go_on
  go_on-Keeps fate run_id w h = elim (Bool-cases (fate % 10 == 0)) [
    | inl first ↦ rw first h
    | inr later ↦ rw later (elim (Bool-cases (fate % 10 == 1 || fate % 10 == 2)) [
      | inl second ↦ rw second (post_json-Keeps failed_path (of_failure run_id traceback) w h)
      | inr other ↦
          rw other (post_json-Keeps success_path (of_run run_id) _ (beat_times-Keeps 2 run_id w h))
    ])
  ]

  after_start-Keeps :
      (fate : ℕ) (x : Sent String × W) → P x.1 → P (after_start exchange api_key fate x).1
  after_start-Keeps fate (sent run_id, w) h = go_on-Keeps fate run_id w h
  after_start-Keeps fate (unsent e, w) h = h

  run_demo_task-Keeps : (draws : Draws) (w : W) → P w → P (run_demo_task exchange api_key draws w).1
  unfolding run_demo_task
  run_demo_task-Keeps draws w h = after_start-Keeps draws.fate _ (post_json-Keeps start_path _ w h)

  pub run_tasks-Keeps : (draws : List Draws) (w : W) → P w → P (run_tasks exchange api_key draws w)
  unfolding run_tasks
  run_tasks-Keeps [] w h = h
  run_tasks-Keeps (d ∷ rest) w h = run_tasks-Keeps rest _ (run_demo_task-Keeps d w h)

refused_header :
    (key authorization : String)
    → key ≢ ""
    → authorization ≢ join "Bearer " key
    → require_api_key key authorization "" ≡ some unauthorized
refused_header key authorization locked other = elim (access_cases key authorization "" locked) [
  | inl (inl same, passed) ↦ absurd (other same)
  | inl (inr (h, empty), passed) ↦ absurd (locked (sym empty))
  | inr (lacks, refused) ↦ refused
]

module _ (format : Time → String) (parse_standard : String → Option (Time → Time))
    (collates : String → String → Bool) (key : String) (clock : ℕ → Time) (uuid : ℕ → String)
    (carry : String → Option String) where
  abbrev Good : World → Type 0
  Good w = IsHealthy format parse_standard collates w.server

  serves :
      (q : Request) (authorization : String) (w : World)
      → Good w
      → (r : Response) × (s : Server) × (handle format parse_standard collates key authorization ""
            q
            (clock w.posts)
            w.server
          ≡ some (r, s))
        × IsHealthy format parse_standard collates s
  unfolding handle
  serves q authorization w h = elim (Option-cases (require_api_key key authorization "")) [
    | inl open_ ↦
        let (r, s, e, k, published) =
          serve_lem format parse_standard collates q (clock w.posts) w.server h in
        (r, s, rw open_ e, k)
    | inr (refusal, shut) ↦ (refusal, w.server, rw shut refl, h)
  ]

  routed-Good :
      (authorization : String) (q : Option Request) (w : World)
      → Good w
      → Good (routed format parse_standard collates key clock uuid carry authorization q w).1
  routed-Good authorization none w h = h
  routed-Good authorization (some q) w h = let (r, s, e, k) = serves q authorization w h in rw e k

  carried-Good :
      (header : Option String) (post : Post) (w : World)
      → Good w
      → Good (carried format parse_standard collates key clock uuid carry header post w).1
  carried-Good none post w h = h
  carried-Good (some authorization) post w h =
      routed-Good authorization (route post.path post.fields (uuid w.posts)) w h

  exchange-Good :
      (post : Post) (w : World)
      → Good w
      → Good (exchange format parse_standard collates key clock uuid carry post w).1
  unfolding exchange
  exchange-Good post w h = carried-Good (carry post.authorization) post w h

  -- However many tasks the worker runs against a server in good order, with whatever key, draws,
  -- times and outcomes of the server's statements, the server is still in good order.
  pub run_tasks-IsHealthy :
      (api_key : String) (draws : List Draws) (w : World)
      → IsHealthy format parse_standard collates w.server
      → IsHealthy format parse_standard collates
          (run_tasks
            (exchange format parse_standard collates key clock uuid carry)
            api_key
            draws
            w).server
  run_tasks-IsHealthy api_key draws w h =
      run_tasks-Keeps (exchange format parse_standard collates key clock uuid carry) api_key Good
        exchange-Good draws w h

  -- With a key set on the server, and unless "Bearer " and that key is what arrives of the worker's
  -- Authorization header, a task of the worker ends with its first request, and the server is as it
  -- was: where the client refuses to send the header, the worker reports that it had no response,
  -- and otherwise that the start was answered with 401.
  pub run_demo_task-refused :
      (api_key : String) (draws : Draws) (w : World)
      → key ≢ ""
      → carry (authorization_of api_key) ≢ some (join "Bearer " key)
      → ((carry (authorization_of api_key) ≡ none)
          × (run_demo_task
                (exchange format parse_standard collates key clock uuid carry)
                api_key
                draws
                w
              ≡ (start_failed no_response, w)))
        ⊎ ((authorization : String) × (carry (authorization_of api_key) ≡ some authorization)
            × (run_demo_task
                  (exchange format parse_standard collates key clock uuid carry)
                  api_key
                  draws
                  w
                ≡ (
                  start_failed (unexpected_status start_path 401),
                  record w { posts = suc w.posts },
                )))
  unfolding run_demo_task post_json exchange route handle
  run_demo_task-refused api_key draws w locked other =
      elim (Option-cases (carry (authorization_of api_key))) [
        | inl unsent_ ↦ inl (unsent_, rw unsent_ refl)
        | inr (authorization, arrived) ↦
            let refused =
              refused_header key authorization locked (λ same. other (arrived ∙ ap some same)) in
            inr (authorization, arrived, rw (arrived, refused) refl)
      ]
