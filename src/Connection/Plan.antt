-- ===== src/Connection/Plan.antt =====
-- `Open` against a plan of its steps.
use chronos_monitor.Prelude.{
  String, str_eq, ◌≡◌, refl, ap, List, [], ◌∷◌, ◌⊎◌, inl, inr, Bool, true, false, Bool-cases, ◌||◌,
  if◌then◌else◌, All,
}
use chronos_monitor.Config.{Config}
use chronos_monitor.Connection.{Backend, backend_of}
use chronos_monitor.Connection.Opening.{
  Action, make_dir, open_with, ping, migrate, OpenError, dir_failed, open_failed, ping_failed,
  migrate_failed, Opened, connected, failed, Attempt, attempt, open_sqlite, open_postgres, open_db,
}

-- The steps that a backend calls for, in their order; a file in the working directory needs none
-- for its directory.
abbrev pub plan_of : (String → String) → Backend → List Action
plan_of dir (Backend.sqlite path) =
    if str_eq (dir path) "."
    then open_with "sqlite" path ∷ migrate "sqlite" ∷ []
    else make_dir (dir path) ∷ open_with "sqlite" path ∷ migrate "sqlite" ∷ []
plan_of dir (Backend.postgres dsn) = open_with "pgx" dsn ∷ ping ∷ migrate "postgres" ∷ []
plan_of dir Backend.no_dsn = []
plan_of dir (Backend.unsupported driver) = []

-- The driver that the connection rewrites placeholders for.
abbrev pub driver_of : Backend → String
driver_of (Backend.sqlite path) = "sqlite"
driver_of (Backend.postgres dsn) = "postgres"
driver_of Backend.no_dsn = ""
driver_of (Backend.unsupported driver) = driver

abbrev pub IsSupported : Backend → Type 0
IsSupported (Backend.sqlite path) = Unit
IsSupported (Backend.postgres dsn) = Unit
IsSupported Backend.no_dsn = ⊥
IsSupported (Backend.unsupported driver) = ⊥

abbrev pub IsConnected : String → Opened → Type 0
IsConnected driver (connected conn) = conn.driver ≡ driver
IsConnected driver (failed e) = ⊥

abbrev pub IsFailed : Opened → Type 0
IsFailed (connected conn) = ⊥
IsFailed (failed e) = Unit

module _ (succeeds : Action → Bool) where
  -- The steps of a plan up to the first that fails, and that one.
  abbrev pub up_to_failure : List Action → List Action
  up_to_failure [] = []
  up_to_failure (a ∷ rest) =
      let more = up_to_failure rest in if succeeds a then a ∷ more else a ∷ []

  abbrev pub Succeed : List Action → Type 0
  Succeed = All (λ a. succeeds a ≡ true)

  abbrev pub Follows : Backend → List Action → Attempt → Type 0
  Follows b plan (steps, result) =
      (steps ≡ up_to_failure plan)
      × ((IsSupported b × Succeed plan × IsConnected (driver_of b) result)
          ⊎ ((IsSupported b × Succeed plan → ⊥) × IsFailed result))

  attempt-Follows :
      (b : Backend) (plan : List Action) (a : Action) (e : OpenError) (x : Attempt)
      → Follows b plan x
      → Follows b (a ∷ plan) (attempt succeeds a e x)
  attempt-Follows b plan a e (steps, result) (same, ends) = elim (Bool-cases (succeeds a)) [
    | inl through ↦ rw through (
      ap (λ s. a ∷ s) same,
      elim ends [
        | inl (known, all, there) ↦ inl (known, (refl, all), there)
        | inr (never, lost) ↦ inr (λ (known, all). never (known, all.1), lost)
      ],
    )
    | inr fails ↦ rw fails (refl, inr (λ (known, all). absurd (let yes = all.0 in cc), tt))
  ]

  open_sqlite-Follows :
      (dir : String → String) (path : String)
      → Follows
          (Backend.sqlite path)
          (plan_of dir (Backend.sqlite path))
          (open_sqlite succeeds dir path)
  unfolding open_sqlite
  open_sqlite-Follows dir path =
      let b = Backend.sqlite path in
      let opened =
        attempt-Follows b (migrate "sqlite" ∷ []) (open_with "sqlite" path) open_failed _
          (attempt-Follows b [] (migrate "sqlite") migrate_failed _ (refl, inl (tt, tt, refl))) in
      elim (Bool-cases (str_eq (dir path) ".")) [
        | inl here ↦ rw here opened
        | inr below ↦ rw below (
            attempt-Follows b (open_with "sqlite" path ∷ migrate "sqlite" ∷ [])
              (make_dir (dir path)) dir_failed _ opened)
      ]

  open_postgres-Follows :
      (dsn : String)
      → str_eq dsn "" ≡ false
      → Follows
          (Backend.postgres dsn)
          (open_with "pgx" dsn ∷ ping ∷ migrate "postgres" ∷ [])
          (open_postgres succeeds dsn)
  unfolding open_postgres
  open_postgres-Follows dsn named =
      let b = Backend.postgres dsn in
      rw named (
        attempt-Follows b (ping ∷ migrate "postgres" ∷ []) (open_with "pgx" dsn) open_failed _ (
          attempt-Follows b (migrate "postgres" ∷ []) ping ping_failed _ (
            attempt-Follows b [] (migrate "postgres") migrate_failed _ (refl, inl (tt, tt, refl)))))

  no_dsn_here :
      (dsn : String) → str_eq dsn "" ≡ true → Follows Backend.no_dsn [] (open_postgres succeeds dsn)
  unfolding open_postgres
  no_dsn_here dsn empty = rw empty (refl, inr (λ (known, all). known, tt))

  -- `Open` takes the steps that its configuration calls for, in their order, up to the first that
  -- fails and no further. It gives a connection, for the driver of that backend, if the backend is
  -- supported and all of them go through, the last of which creates the schema; otherwise an error.
  pub open_db-Follows :
      (dir : String → String) (cfg : Config)
      → Follows (backend_of cfg) (plan_of dir (backend_of cfg)) (open_db succeeds dir cfg)
  unfolding open_db backend_of
  open_db-Follows dir cfg =
      elim (Bool-cases (str_eq cfg.db_driver "" || str_eq cfg.db_driver "sqlite")) [
        | inl file ↦ rw file (open_sqlite-Follows dir cfg.db_path)
        | inr other ↦ rw other (elim (Bool-cases (str_eq cfg.db_driver "postgres")) [
          | inl remote ↦ rw remote (elim (Bool-cases (str_eq cfg.db_dsn "")) [
            | inl empty ↦ rw empty (no_dsn_here cfg.db_dsn empty)
            | inr named ↦ rw named (open_postgres-Follows cfg.db_dsn named)
          ])
          | inr unknown ↦ rw unknown (refl, inr (λ (known, all). known, tt))
        ])
      ]
