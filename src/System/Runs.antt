-- ===== src/System/Runs.antt =====
-- Whole runs of the server.
use chronos_monitor.Prelude.{Bool, String, ◌≡◌, refl, List, [], ◌∷◌, Option, some}
use chronos_monitor.Clock.{Time}
use chronos_monitor.Database.{Outcome}
use chronos_monitor.Broker.{new_hub}
use chronos_monitor.Broker.Soundness.{new_hub-IsSound}
use chronos_monitor.Server.{Server}
use chronos_monitor.System.{Step, steps}
use chronos_monitor.System.Invariant.{IsHealthy, step-IsHealthy}

-- A server that has just started on an empty database.
abbrev pub new_server : List Outcome → Server
new_server outcomes = record {
  db = record { task_runs = []; task_schedules = []; outcomes = outcomes };
  hub = new_hub;
}

module _ (format : Time → String) (parse_standard : String → Option (Time → Time))
    (collates : String → String → Bool) where
  steps-IsHealthy :
      (cs : List (Step × Time)) (s : Server)
      → IsHealthy format parse_standard collates s
      → (s' : Server) × (steps format parse_standard collates cs s ≡ some s')
        × IsHealthy format parse_standard collates s'
  unfolding steps
  steps-IsHealthy [] s h = (s, refl, h)
  steps-IsHealthy ((c, now) ∷ rest) s h =
      let (mid, e, k) = step-IsHealthy format parse_standard collates c now s h in
      let (end, e', k') = steps-IsHealthy rest mid k in (end, rw (e, e') refl, k')

  pub new_server-IsHealthy :
      (outcomes : List Outcome) → IsHealthy format parse_standard collates (new_server outcomes)
  new_server-IsHealthy outcomes = record {
    db = record {
      runs = record { distinct = tt; shaped = tt };
      schedules = record { distinct = tt; valid = tt };
    };
    hub = new_hub-IsSound;
  }

  -- Whatever requests, ticks of the jobs and coming and going of subscribers a new server sees, in
  -- whatever order, at whatever times and with whatever outcomes of its statements, it never panics.
  -- In the end run ids and schedule names are distinct, each run has the columns that its status
  -- calls for, each schedule has an expectation that registration lets through, the subscriptions
  -- are distinct and open, and no channel holds more than 16 events.
  pub new_server-steps :
      (cs : List (Step × Time)) (outcomes : List Outcome)
      → (s : Server) × (steps format parse_standard collates cs (new_server outcomes) ≡ some s)
        × IsHealthy format parse_standard collates s
  new_server-steps cs outcomes =
      steps-IsHealthy cs (new_server outcomes) (new_server-IsHealthy outcomes)
