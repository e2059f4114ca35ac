-- ===== src/Startup/Exits.antt =====
-- When the program stops in good order.
use chronos_monitor.Prelude.{
  ◌≡◌, ◌↔◌, refl, inl, inr, List, [], ◌∷◌, Option, some, String, Bool, true, false,
}
use chronos_monitor.Config.{Config}
use chronos_monitor.Connection.{backend_of}
use chronos_monitor.Connection.Opening.{Action, Opened, connected, failed}
use chronos_monitor.Connection.Plan.{
  plan_of, IsSupported, Succeed, IsConnected, IsFailed, open_db-Follows,
}
use chronos_monitor.Startup.{jobs_of, start_jobs}
use chronos_monitor.Startup.Intervals.{HasIntervals, start_jobs_lem}
use chronos_monitor.Startup.Main.{Happening, Exit, wait, with_jobs, with_database, main_of}

-- A signal comes, and no error of `ListenAndServe` before it.
abbrev pub IsSignalled : List Happening → Type 0
IsSignalled [] = ⊥
IsSignalled (Happening.listen_failed ∷ rest) = ⊥
IsSignalled (Happening.listen_closed ∷ rest) = IsSignalled rest
IsSignalled (Happening.signalled ∷ rest) = Unit

wait_iff :
    (in_time : Bool) (hs : List Happening)
    → (wait in_time hs ≡ some Exit.server_stopped) ↔ (IsSignalled hs × (in_time ≡ true))
unfolding wait
wait_iff in_time [] = (λ e. cc, λ h. absurd h.0)
wait_iff in_time (Happening.listen_failed ∷ rest) = (λ e. cc, λ h. absurd h.0)
wait_iff in_time (Happening.listen_closed ∷ rest) = wait_iff in_time rest
wait_iff true (Happening.signalled ∷ rest) = (λ e. (tt, refl), λ h. refl)
wait_iff false (Happening.signalled ∷ rest) = (λ e. cc, λ h. cc)

module _ (in_time : Bool) (hs : List Happening) where
  abbrev Stops : Option Exit → Type 0
  Stops x = x ≡ some Exit.server_stopped

  abbrev EndsWell : Type 0
  EndsWell = IsSignalled hs × (in_time ≡ true)

  with_jobs_iff :
      (cfg : Config)
      → Stops (with_jobs (start_jobs (jobs_of cfg)) in_time hs) ↔ (HasIntervals cfg × EndsWell)
  with_jobs_iff cfg = elim (start_jobs_lem cfg) [
    | inl (well, e) ↦
        rw e (λ s. (well, (wait_iff in_time hs).0 s), λ h. (wait_iff in_time hs).1 h.1)
    | inr (ill, e) ↦ rw e (λ s. cc, λ h. absurd (ill h.0))
  ]

  with_database_iff :
      (driver : String) (opened : Opened) (cfg : Config)
      → IsConnected driver opened
      → Stops (with_database opened cfg in_time hs) ↔ (HasIntervals cfg × EndsWell)
  with_database_iff driver (connected conn) cfg h = with_jobs_iff cfg
  with_database_iff driver (failed e) cfg h = absurd h

  failed-Stops :
      (opened : Opened) (cfg : Config)
      → IsFailed opened
      → Stops (with_database opened cfg in_time hs)
      → ⊥
  failed-Stops (connected conn) cfg f s = f
  failed-Stops (failed e) cfg f s = cc

-- The program returns from `main` exactly if its configuration names a backend that is supported,
-- each step that the backend calls for goes through, the intervals of the jobs that it starts are
-- positive, a signal comes before any error of the HTTP server, and the shutdown ends in time. In
-- any other case it is still running or has ended with an error.
pub main_of_iff :
    (succeeds : Action → Bool) (dir : String → String) (cfg : Config) (in_time : Bool)
    (happenings : List Happening)
    → (main_of succeeds dir cfg in_time happenings ≡ some Exit.server_stopped) ↔ (
        IsSupported (backend_of cfg)
        × Succeed succeeds (plan_of dir (backend_of cfg))
        × HasIntervals cfg
        × IsSignalled happenings
        × (in_time ≡ true))
unfolding main_of
main_of_iff succeeds dir cfg in_time happenings = elim (open_db-Follows succeeds dir cfg).1 [
  | inl (known, all, there) ↦
      let (to, from) = with_database_iff in_time happenings _ _ cfg there in
      (
        λ s. let (well, (signal, early)) = to s in (known, all, well, signal, early),
        λ (k, a, well, signal, early). from (well, (signal, early)),
      )
  | inr (never, lost) ↦ (
    λ s. absurd (failed-Stops in_time happenings _ cfg lost s),
    λ (k, a, well, signal, early). absurd (never (k, a)),
  )
]
