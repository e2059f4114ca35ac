-- ===== src/Connection/Tests.antt =====
-- A statement of the store with its placeholders.
use chronos_monitor.Prelude.{
  Bool, true, false, String, List, [], ◌∷◌, ◌≡◌, refl, str_eq, if◌then◌else◌, decimal_within,
}
use chronos_monitor.Connection.{rebind, rebind_from, contains_mark}
use chronos_monitor.Config.{load}
use chronos_monitor.Connection.{backend_of}
use chronos_monitor.Connection.Opening.{
  Action, make_dir, open_with, ping, migrate, open_failed, failed, open_db, open_sqlite,
}
use chronos_monitor.Connection.Plan.{plan_of, Follows, open_db-Follows}
use chronos_monitor.Connection.Placeholders.{marked, numbered, rebind_lem}

abbrev around : List String
around = " WHERE run_id = " ∷ " AND status = 'running'" ∷ []

rebind_lem_example :
    rebind "postgres" (marked "UPDATE task_runs SET last_heartbeat_at = " around) ≡ (
      if str_eq "postgres" "postgres"
      then numbered 0 "UPDATE task_runs SET last_heartbeat_at = " around
      else marked "UPDATE task_runs SET last_heartbeat_at = " around)
unfolding contains_mark
rebind_lem_example =
    rebind_lem "postgres" "UPDATE task_runs SET last_heartbeat_at = " around refl (refl, (refl, tt))

two_placeholders : rebind "postgres" "a = ? AND b = ?" ≡ "a = $1 AND b = $2"
unfolding rebind rebind_from contains_mark decimal_within
two_placeholders = refl

abbrev unset : String → String
unset key = ""

abbrev data_dir : String → String
data_dir path = "data"

-- The file system takes the directory, and the driver does not open the file.
abbrev no_driver : Action → Bool
no_driver (make_dir dir) = true
no_driver (open_with driver data_source) = false
no_driver ping = true
no_driver (migrate driver) = true

open_db-Follows_example :
    Follows no_driver
      (backend_of (load unset))
      (plan_of data_dir (backend_of (load unset)))
      (open_db no_driver data_dir (load unset))
open_db-Follows_example = open_db-Follows no_driver data_dir (load unset)

open_without_driver :
    open_db no_driver data_dir (load unset)
    ≡ (make_dir "data" ∷ open_with "sqlite" "data/chronos.db" ∷ [], failed open_failed)
unfolding open_db open_sqlite load
open_without_driver = refl
