-- ===== src/Connection/Opening.antt =====
-- internal/db/db.go: `Open`. What the file system and database/sql do is a parameter, `succeeds`,
-- that tells which step goes through; `dir` stands for `filepath.Dir`. The steps that were taken are
-- part of the result.
use chronos_monitor.Prelude.{ℕ, String, str_eq, List, [], ◌∷◌, Bool, ◌||◌, if◌then◌else◌}
use chronos_monitor.Config.{Config}

-- `os.MkdirAll`, `sql.Open`, `Ping`, and the `Exec` of the schema of a driver.
pub data Action : Type 0 where
  make_dir : String → Action
  open_with : (driver data_source : String) → Action
  ping : Action
  migrate : (driver : String) → Action

pub data OpenError : Type 0 where
  dir_failed open_failed ping_failed migrate_failed no_dsn : OpenError
  unsupported : String → OpenError

-- `Conn`, with the limit that `SetMaxOpenConns` puts on it.
pub record Conn : Type 0 where
  pub driver : String
  pub max_open_conns : ℕ

pub data Opened : Type 0 where
  connected : Conn → Opened
  failed : OpenError → Opened

abbrev pub Attempt : Type 0
Attempt = List Action × Opened

module _ (succeeds : Action → Bool) where
  -- A step, and what follows it; an error ends `Open`.
  abbrev pub attempt : Action → OpenError → Attempt → Attempt
  attempt step e (steps, result) =
      if succeeds step then (step ∷ steps, result) else (step ∷ [], failed e)

  abbrev sqlite_conn : Conn
  sqlite_conn = record { driver = "sqlite"; max_open_conns = 1 }

  abbrev postgres_conn : Conn
  postgres_conn = record { driver = "postgres"; max_open_conns = 10 }

  abbrev opened_sqlite : String → Attempt
  opened_sqlite path =
      attempt (open_with "sqlite" path) open_failed
        (attempt (migrate "sqlite") migrate_failed ([], connected sqlite_conn))

  unfoldable pub open_sqlite : (String → String) → String → Attempt
  open_sqlite dir path =
      if str_eq (dir path) "."
      then opened_sqlite path
      else attempt (make_dir (dir path)) dir_failed (opened_sqlite path)

  unfoldable pub open_postgres : String → Attempt
  open_postgres dsn =
      if str_eq dsn ""
      then ([], failed no_dsn)
      else attempt (open_with "pgx" dsn) open_failed (
          attempt ping ping_failed
            (attempt (migrate "postgres") migrate_failed ([], connected postgres_conn)))

  unfoldable pub open_db : (String → String) → Config → Attempt
  open_db dir cfg =
      if str_eq cfg.db_driver "" || str_eq cfg.db_driver "sqlite"
      then open_sqlite dir cfg.db_path
      else if str_eq cfg.db_driver "postgres"
      then open_postgres cfg.db_dsn
      else ([], failed (unsupported cfg.db_driver))
