-- ===== src/Startup/Tests.antt =====
-- The configuration and the jobs for concrete environments.
use chronos_monitor.Prelude.{
  ◌↔◌, [], ◌∷◌, Bool, true, String, str_eq, ne_of_test, negsuc, ◌-ℤ◌, ◌≡◌, refl, none, some, arith,
  if◌then◌else◌,
}
use chronos_monitor.Config.{load}
use chronos_monitor.Config.Atoi.{atoi, unsigned, digits_after}
use chronos_monitor.Startup.{start_jobs, jobs_of}
use chronos_monitor.Connection.{backend_of}
use chronos_monitor.Connection.Opening.{Action}
use chronos_monitor.Connection.Plan.{plan_of, IsSupported, Succeed}
use chronos_monitor.Startup.Main.{Happening, Exit, main_of}
use chronos_monitor.Startup.Exits.{IsSignalled, main_of_iff}
use chronos_monitor.Startup.Intervals.{HasIntervals, start_jobs-load}

-- An environment that sets the interval of the sweep to 0.
abbrev zero_interval : String → String
zero_interval key = if str_eq key "CHRONOS_TTL_SWEEP_INTERVAL_SECONDS" then "0" else ""

start_jobs-load_example : start_jobs (jobs_of (load zero_interval)) ≡ none
unfolding atoi unsigned digits_after ◌-ℤ◌
start_jobs-load_example =
    start_jobs-load zero_interval 0 (ne_of_test "0" "" refl) refl (omega arith)

atoi_of_negative : atoi "-42" ≡ some (negsuc 41)
unfolding atoi unsigned digits_after
atoi_of_negative = refl

atoi_of_text : atoi "4x" ≡ none
unfolding atoi unsigned digits_after
atoi_of_text = refl

atoi_out_of_range : atoi "9223372036854775808" ≡ none
unfolding atoi unsigned digits_after
atoi_out_of_range = refl

-- No variable is set, each step goes through, and a signal comes.
abbrev unset : String → String
unset key = ""

abbrev data_dir : String → String
data_dir path = "data"

abbrev all_through : Action → Bool
all_through step = true

main_of_iff_example :
    (main_of all_through data_dir (load unset) true (Happening.signalled ∷ [])
      ≡ some Exit.server_stopped)
    ↔ (IsSupported (backend_of (load unset))
        × Succeed all_through (plan_of data_dir (backend_of (load unset)))
        × HasIntervals (load unset)
        × IsSignalled (Happening.signalled ∷ [])
        × (true ≡ true))
main_of_iff_example = main_of_iff all_through data_dir (load unset) true (Happening.signalled ∷ [])
