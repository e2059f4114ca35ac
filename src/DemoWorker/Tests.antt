-- ===== src/DemoWorker/Tests.antt =====
-- The worker at concrete draws, against a server that has just started.
use Prim.Native.String.{◌++◌ as join}
use chronos_monitor.Prelude.{
  Option, some, none, ◌⊎◌, inr, ◌≢◌, ℕ, ◌≡◌, refl, String, [], ◌∷◌, ne_of_test,
}
use chronos_monitor.Clock.{Time}
use chronos_monitor.Models.{TaskStatus, TaskRun}
use chronos_monitor.Database.{done, refused, ok}
use chronos_monitor.Tasks.{get, sweep_timeouts}
use chronos_monitor.Broker.{new_hub}
use chronos_monitor.Broker.Soundness.{new_hub-IsSound}
use chronos_monitor.System.Invariant.{IsHealthy}
use chronos_monitor.System.Runs.{new_server, new_server-IsHealthy}
use chronos_monitor.System.Samples.{parser, format, collates, at}
use chronos_monitor.DemoWorker.{
  authorization_of, no_response, Draws, stuck, start_failed, unexpected_status, name_of, start_path,
  run_demo_task, run_tasks,
}
use chronos_monitor.DemoWorker.Wire.{IsLetIn, World, exchange}
use chronos_monitor.DemoWorker.Served.{ask}
use chronos_monitor.DemoWorker.Tasks.{Fate, Ends, run_demo_task-Ends}
use chronos_monitor.DemoWorker.Stuck.{run_demo_task-stuck}
use chronos_monitor.DemoWorker.Keeps.{run_tasks-IsHealthy, run_demo_task-refused}

abbrev key : String
key = "secret"

-- A request each second, all under the one id that is needed.
abbrev clock : ℕ → Time
clock n = at n

abbrev uuid : ℕ → String
uuid n = "u1"

-- net/http, of which a header without spaces at its ends is all that matters here.
abbrev carry : String → Option String
carry value = some value

abbrev let_in : IsLetIn key carry key
let_in = ("Bearer secret", refl, inr refl)

abbrev first_world : World
first_world = record { server = new_server []; posts = 0 }

abbrev lucky : Draws
lucky = record { name = 5; ttl = 0; fate = 13 }

abbrev hanging : Draws
hanging = record { name = 5; ttl = 7; fate = 20 }

names : name_of 5 ≡ "invoice-sync"
unfolding name_of
names = refl

run_demo_task-Ends_example : Ends Fate.succeeds "u1" (name_of 5) (
    run_demo_task
      (ask format parser collates key clock uuid carry key let_in)
      key
      lucky
      first_world)
run_demo_task-Ends_example =
    run_demo_task-Ends format parser collates key clock uuid carry key let_in lucky [] [] new_hub 0
      tt tt refl new_hub-IsSound

run_demo_task-stuck_example :
    (w : World) × (task : TaskRun) × (run_demo_task
        (ask format parser collates key clock uuid carry key let_in)
        key
        hanging
        first_world
      ≡ (stuck "u1", w))
    × ((get "u1" (sweep_timeouts (at 1000) w.server.db).1).0 ≡ ok task)
    × (task.status ≡ TaskStatus.running)
run_demo_task-stuck_example =
    run_demo_task-stuck format parser collates key clock uuid carry key let_in hanging [] [] new_hub
      0 (at 1000) tt tt refl new_hub-IsSound refl refl

abbrev failing_world : World
failing_world = record { server = new_server (done ∷ refused ∷ []); posts = 0 }

run_tasks-IsHealthy_example :
    IsHealthy format parser collates
      (run_tasks
        (exchange format parser collates key clock uuid carry)
        key
        (lucky ∷ hanging ∷ [])
        failing_world).server
run_tasks-IsHealthy_example =
    run_tasks-IsHealthy format parser collates key clock uuid carry key (lucky ∷ hanging ∷ [])
      failing_world (new_server-IsHealthy format parser collates (done ∷ refused ∷ []))

not_let_in : carry (authorization_of "guess") ≢ some (join "Bearer " key)
not_let_in e = ne_of_test "Bearer guess" "Bearer secret" refl cc

run_demo_task-refused_example :
    ((carry (authorization_of "guess") ≡ none)
      × (run_demo_task
            (exchange format parser collates key clock uuid carry)
            "guess"
            lucky
            first_world
          ≡ (start_failed no_response, first_world)))
    ⊎ ((authorization : String) × (carry (authorization_of "guess") ≡ some authorization)
        × (run_demo_task
              (exchange format parser collates key clock uuid carry)
              "guess"
              lucky
              first_world
            ≡ (
              start_failed (unexpected_status start_path 401),
              record { server = new_server []; posts = 1 },
            )))
run_demo_task-refused_example =
    run_demo_task-refused format parser collates key clock uuid carry "guess" lucky first_world
      (ne_of_test "secret" "" refl) not_let_in
