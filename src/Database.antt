-- ===== src/Database.antt =====
-- The database behind internal/store: the two tables that internal/db/db.go creates, and
-- statements that the driver may fail. The SQL engine and its drivers are third-party code; what
-- is used of them is the documented meaning of the statements (Database/Table.antt) and, for each
-- statement, an outcome that the environment chooses.
pub mod Table
pub mod Keys
pub mod OneRow
pub mod Queries
pub mod Rounds
pub mod Rows
pub mod Steps
use chronos_monitor.Prelude.{
  ℕ, zero, String, ℤ, List, [], ◌∷◌, Option, none, some, Bool, true, false,
}
use chronos_monitor.Clock.{Time}
use chronos_monitor.Models.{TaskStatus, ScheduleStatus}

-- A row of task_runs; the columns that may be NULL are `Option`.
pub record TaskRow : Type 0 where
  pub run_id : String
  pub task_name : String
  pub source : Option String
  pub status : TaskStatus
  pub started_at : Time
  pub finished_at : Option Time
  pub last_heartbeat_at : Option Time
  pub ttl_seconds : Option ℤ
  pub duration_ms : Option ℤ
  pub error_message : Option String

-- A row of task_schedules.
pub record ScheduleRow : Type 0 where
  pub task_name : String
  pub expected_interval_seconds : Option ℤ
  pub cron_expression : Option String
  pub grace_period_seconds : ℤ
  pub last_seen_at : Option Time
  pub status : ScheduleStatus
  pub updated_at : Time

-- What becomes of one statement: it is done; the driver refuses it; the driver reports an error
-- though the statement took effect; or it is done and the driver cannot count the rows.
pub data Outcome : Type 0 where
  done refused lost uncounted : Outcome

pub record Db : Type 0 where
  pub task_runs : List TaskRow
  pub task_schedules : List ScheduleRow
  -- the outcomes of the statements to come; past the end of the list all are done
  pub outcomes : List Outcome

pub data Error : Type 0 where
  not_found driver duplicate_key : Error

pub data Result {ℓ} (A : Type ℓ) : Type ℓ where
  ok : A → Result A
  err : Error → Result A

-- A step against the database; what was written before an error stays written.
abbrev pub M {ℓ} : Type ℓ → Type ℓ
M A = Db → Result A × Db

module _ {ℓ κ} {A : Type ℓ} {B : Type κ} where
  abbrev pub continue : (A → Db → Result B × Db) → Result A × Db → Result B × Db
  continue f (ok a, db) = f a db
  continue f (err e, db) = (err e, db)

  infixl 5 ◌>>=◌
  abbrev pub ◌>>=◌ : M A → (A → M B) → M B
  ◌>>=◌ m f db = continue f (m db)

module _ {ℓ} {A : Type ℓ} where
  abbrev pub pure : A → M A
  pure a db = (ok a, db)

  abbrev pub raise : Error → M A
  raise e db = (err e, db)

abbrev rest_of : List Outcome → List Outcome
rest_of [] = []
rest_of (o ∷ os) = os

abbrev first_of_outcomes : List Outcome → Outcome
first_of_outcomes [] = done
first_of_outcomes (o ∷ os) = o

abbrev pub next_outcome : Db → Outcome
next_outcome db = first_of_outcomes db.outcomes

abbrev pub spend : Db → Db
spend db = record db { outcomes = rest_of db.outcomes }

-- The rows that a statement would affect, or the constraint that it violates, and the tables
-- that it would leave.
abbrev pub Write : Type 0
Write = Db → Result ℕ × Db

-- `sql.Result`: the number that `RowsAffected` returns, or its failure.
abbrev pub RowsAffected : Type 0
RowsAffected = Option ℕ

abbrev counted : Result ℕ × Db → Result RowsAffected × Db
counted (ok n, db) = (ok (some n), db)
counted (err e, db) = (err e, db)

abbrev not_counted : Result ℕ × Db → Result RowsAffected × Db
not_counted (ok n, db) = (ok none, db)
not_counted (err e, db) = (err e, db)

run_write : Outcome → Write → Db → Result RowsAffected × Db
run_write done write db = counted (write db)
run_write uncounted write db = not_counted (write db)
run_write lost write db = (err driver, (write db).1)
run_write refused write db = (err driver, db)

-- `db.Exec`
unfoldable pub exec : Write → M RowsAffected
unfolding run_write
exec write db = run_write (next_outcome db) write (spend db)

run_read {ℓ} : {A : Type ℓ} → Outcome → (Db → A) → Db → Result A × Db
run_read done read db = (ok (read db), db)
run_read uncounted read db = (ok (read db), db)
run_read lost read db = (err driver, db)
run_read refused read db = (err driver, db)

-- `db.QueryRow(…).Scan(…)`, for what the WHERE clause finds
unfoldable pub query_row {ℓ} : {A : Type ℓ} → (Db → A) → M A
unfolding run_read
query_row read db = run_read (next_outcome db) read (spend db)

-- `db.Query(…)` with its loop over `rows.Next` and the final `rows.Err`, either of which may fail
unfoldable pub query {ℓ} : {A : Type ℓ} → (Db → A) → M A
unfolding query_row
query read = query_row (λ _. tt {0}) >>= λ _. query_row read

abbrev pub affected_or_zero : RowsAffected → ℕ
affected_or_zero none = 0
affected_or_zero (some n) = n

-- `checkRowsAffected` of internal/store/task_store.go
unfoldable pub check_rows_affected : RowsAffected → M (Unit {0})
check_rows_affected none = raise driver
check_rows_affected (some zero) = raise not_found
check_rows_affected (some _) = pure tt
