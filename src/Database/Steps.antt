-- ===== src/Database/Steps.antt =====
-- What the statements of internal/db can do to the tables, whatever their outcomes: a preorder on
-- states that each write respects is respected by every chain of statements.
use chronos_monitor.Prelude.{ℕ, zero, suc, none, some}
use chronos_monitor.Database.{
  Db, Outcome, done, refused, lost, uncounted, Result, ok, err, M, continue, ◌>>=◌, next_outcome,
  spend, Write, RowsAffected, counted, not_counted, run_write, exec, run_read, query_row, query,
  check_rows_affected,
}

-- A preorder on states for which the outcomes to come do not count.
pub record StateOrder (R : Db → Db → Type 0) : Type 0 where
  pub start : (db : Db) → R db db
  pub then_ : (a b c : Db) → R a b → R b c → R a c
  pub spent : (db : Db) → R db (spend db)

module _ (R : Db → Db → Type 0) (o : StateOrder R) where
  abbrev pub Steps {ℓ} : {A : Type ℓ} → M A → Type 0
  Steps m = (db : Db) → R db (m db).1

  counted_state : (a : Db) (x : Result ℕ × Db) → R a x.1 → R a (counted x).1
  counted_state a (ok n, db) h = h
  counted_state a (err e, db) h = h

  not_counted_state : (a : Db) (x : Result ℕ × Db) → R a x.1 → R a (not_counted x).1
  not_counted_state a (ok n, db) h = h
  not_counted_state a (err e, db) h = h

  run_write-Steps :
      (out : Outcome) (w : Write)
      → ((db : Db) → R db (w db).1)
      → (db : Db) → R db (run_write out w db).1
  unfolding run_write
  run_write-Steps done w h db = counted_state db (w db) (h db)
  run_write-Steps uncounted w h db = not_counted_state db (w db) (h db)
  run_write-Steps lost w h db = h db
  run_write-Steps refused w h db = o.start db

  pub exec-Steps : (w : Write) → ((db : Db) → R db (w db).1) → Steps (exec w)
  unfolding exec
  exec-Steps w h db =
      o.then_ db (spend db) _ (o.spent db) (run_write-Steps (next_outcome db) w h (spend db))

  run_read-Steps {ℓ} :
      {A : Type ℓ} (out : Outcome) (read : Db → A) (db : Db) → R db (run_read out read db).1
  unfolding run_read
  run_read-Steps done read db = o.start db
  run_read-Steps uncounted read db = o.start db
  run_read-Steps lost read db = o.start db
  run_read-Steps refused read db = o.start db

  pub query_row-Steps {ℓ} : {A : Type ℓ} (read : Db → A) → Steps (query_row read)
  unfolding query_row
  query_row-Steps read db =
      o.then_ db (spend db) _ (o.spent db) (run_read-Steps (next_outcome db) read (spend db))

  continue-Steps {ℓ κ} :
      {A : Type ℓ} {B : Type κ} (f : A → M B) (a : Db) (x : Result A × Db)
      → ((v : A) → Steps (f v))
      → R a x.1
      → R a (continue f x).1
  continue-Steps f a (ok v, db) hf h = o.then_ a db _ h (hf v db)
  continue-Steps f a (err e, db) hf h = h

  pub bind-Steps {ℓ κ} :
      {A : Type ℓ} {B : Type κ} (m : M A) (f : A → M B)
      → Steps m
      → ((v : A) → Steps (f v))
      → Steps (m >>= f)
  bind-Steps m f hm hf db = continue-Steps f db (m db) hf (hm db)

  pub query-Steps {ℓ} : {A : Type ℓ} (read : Db → A) → Steps (query read)
  unfolding query
  query-Steps read =
      bind-Steps (query_row (λ _. tt {0})) (λ _. query_row read) (query_row-Steps (λ _. tt {0}))
        (λ _. query_row-Steps read)

  pub check_rows_affected-Steps : (n : RowsAffected) → Steps (check_rows_affected n)
  unfolding check_rows_affected
  check_rows_affected-Steps none db = o.start db
  check_rows_affected-Steps (some zero) db = o.start db
  check_rows_affected-Steps (some (suc n)) db = o.start db
