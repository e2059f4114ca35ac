-- ===== src/Startup/Main.antt =====
-- cmd/server/main.go: `main` from the configuration to its exit. What the database's steps, the HTTP
-- server and the operating system do is an argument; the jobs start in goroutines, of which the one
-- whose ticker panics ends the program.
use chronos_monitor.Prelude.{List, [], ◌∷◌, Option, none, some, String, Bool, if◌then◌else◌}
use chronos_monitor.Config.{Config}
use chronos_monitor.Connection.Opening.{Action, OpenError, Opened, connected, failed, open_db}
use chronos_monitor.Startup.{Job, jobs_of, start_jobs}

-- What becomes of the server once its jobs run: `ListenAndServe` returns, with an error or with
-- `http.ErrServerClosed`, or a signal ends the context.
pub data Happening : Type 0 where
  listen_failed listen_closed signalled : Happening

-- How the program ends: `log.Fatalf` for the database, a panic of a job, `log.Fatalf` for the HTTP
-- server or its shutdown, or the return of `main`.
pub data Exit : Type 0 where
  database_failed : OpenError → Exit
  job_panicked server_failed shutdown_forced server_stopped : Exit

-- `srv.Shutdown`, which may run out of its five seconds
abbrev pub shut_down : Bool → Exit
shut_down in_time = if in_time then Exit.server_stopped else Exit.shutdown_forced

-- `none` while the program runs.
unfoldable pub wait : Bool → List Happening → Option Exit
wait in_time [] = none
wait in_time (Happening.listen_failed ∷ rest) = some Exit.server_failed
wait in_time (Happening.listen_closed ∷ rest) = wait in_time rest
wait in_time (Happening.signalled ∷ rest) = some (shut_down in_time)

abbrev pub with_jobs : Option (List Job) → Bool → List Happening → Option Exit
with_jobs none in_time happenings = some Exit.job_panicked
with_jobs (some jobs) in_time happenings = wait in_time happenings

abbrev pub with_database : Opened → Config → Bool → List Happening → Option Exit
with_database (failed e) cfg in_time happenings = some (Exit.database_failed e)
with_database (connected conn) cfg in_time happenings =
    with_jobs (start_jobs (jobs_of cfg)) in_time happenings

unfoldable pub main_of :
    (Action → Bool) → (String → String) → Config → Bool → List Happening → Option Exit
main_of succeeds dir cfg in_time happenings =
    with_database (open_db succeeds dir cfg).1 cfg in_time happenings
