-- ===== src/Database/Queries.antt =====
-- What a query returns when it returns rows, whatever the outcomes of its statements.
use chronos_monitor.Prelude.{◌≡◌, refl}
use chronos_monitor.Database.{
  Db, Outcome, done, refused, lost, uncounted, Result, ok, err, continue, next_outcome, spend,
  run_read, query_row, query,
}

-- What is returned satisfies `P`, unless an error is.
abbrev pub OnRows : {A : Type 0} → (A → Type 0) → Result A → Type 0
OnRows P (ok a) = P a
OnRows P (err e) = Unit

module _ {A : Type 0} (P : A → Type 0) (read : Db → A) (db : Db)
    (holds : (d : Db) → d.task_runs ≡ db.task_runs → P (read d)) where
  run_read-OnRows :
      (out : Outcome) (d : Db) → d.task_runs ≡ db.task_runs → OnRows P (run_read out read d).0
  unfolding run_read
  run_read-OnRows done d e = holds d e
  run_read-OnRows uncounted d e = holds d e
  run_read-OnRows lost d e = tt
  run_read-OnRows refused d e = tt

  opened :
      (out : Outcome) (d : Db)
      → d.task_runs ≡ db.task_runs
      → OnRows P (continue (λ _. query_row read) (run_read out (λ _. tt {0}) d)).0
  unfolding run_read query_row
  opened done d e = run_read-OnRows (next_outcome d) (spend d) e
  opened uncounted d e = run_read-OnRows (next_outcome d) (spend d) e
  opened lost d e = tt
  opened refused d e = tt

  pub query-OnRows : OnRows P (query read db).0
  unfolding query query_row
  query-OnRows = opened (next_outcome db) (spend db) refl
