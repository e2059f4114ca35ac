-- ===== src/Tasks/Lifecycle.antt =====
-- What may become of a run: its identity never changes, its end is never undone, and only the
-- retention job removes rows, none of them a running one.
use chronos_monitor.Prelude.{
  String, ℤ, if◌then◌else◌, ◌≡◌, ◌≢◌, refl, ◌∙◌, List, [], ◌∷◌, ◌++◌, Option, none, some, Bool,
  true, false,
}
use chronos_monitor.Clock.{Time}
use chronos_monitor.Models.{TaskStatus, TaskRun}
use chronos_monitor.Database.{TaskRow, Db}
use chronos_monitor.Database.Table.{update_where}
use chronos_monitor.Database.Steps.{StateOrder}
use chronos_monitor.Tasks.{
  created_row, insert_unless, beat, finish_row, create, heartbeat, finish, get, list,
  sweep_timeouts,
}
use chronos_monitor.Tasks.Effects.{
  create-Steps, heartbeat-Steps, finish-Steps, get-Steps, list-Steps, sweep_timeouts-Steps,
}

-- A row and what a later state holds in its place.
pub record Follows (old new : TaskRow) : Type 0 where
  pub run_id : new.run_id ≡ old.run_id
  pub task_name : new.task_name ≡ old.task_name
  pub source : new.source ≡ old.source
  pub started_at : new.started_at ≡ old.started_at
  pub ttl_seconds : new.ttl_seconds ≡ old.ttl_seconds
  pub ended : old.finished_at ≢ none → new.finished_at ≢ none

-- Every old row is followed in its place; new rows come behind.
abbrev pub Continues : List TaskRow → List TaskRow → Type 0
Continues [] rows' = Unit
Continues (row ∷ rows) [] = ⊥
Continues (row ∷ rows) (row' ∷ rows') = Follows row row' × Continues rows rows'

Follows-refl : (row : TaskRow) → Follows row row
Follows-refl row = record {
  run_id = refl;
  task_name = refl;
  source = refl;
  started_at = refl;
  ttl_seconds = refl;
  ended = λ h. h;
}

Follows-trans : (a b c : TaskRow) → Follows a b → Follows b c → Follows a c
Follows-trans a b c f g = record {
  run_id = g.run_id ∙ f.run_id;
  task_name = g.task_name ∙ f.task_name;
  source = g.source ∙ f.source;
  started_at = g.started_at ∙ f.started_at;
  ttl_seconds = g.ttl_seconds ∙ f.ttl_seconds;
  ended = λ h. g.ended (f.ended h);
}

pub Continues-refl : (rows : List TaskRow) → Continues rows rows
Continues-refl [] = tt
Continues-refl (row ∷ rows) = (Follows-refl row, Continues-refl rows)

pub Continues-trans : (a b c : List TaskRow) → Continues a b → Continues b c → Continues a c
Continues-trans [] b c h k = tt
Continues-trans (x ∷ xs) [] c h k = absurd h
Continues-trans (x ∷ xs) (y ∷ ys) [] h k = absurd k
Continues-trans (x ∷ xs) (y ∷ ys) (z ∷ zs) h k =
    (Follows-trans x y z h.0 k.0, Continues-trans xs ys zs h.1 k.1)

Continues-concat : (rows : List TaskRow) (row : TaskRow) → Continues rows (rows ++ row ∷ [])
Continues-concat [] row = tt
Continues-concat (x ∷ xs) row = (Follows-refl x, Continues-concat xs row)

Follows-update :
    (f : TaskRow → TaskRow) (b : Bool) (row : TaskRow)
    → Follows row (f row)
    → Follows row (if b then f row else row)
Follows-update f true row h = h
Follows-update f false row h = Follows-refl row

pub Continues-update :
    (p : TaskRow → Bool) (f : TaskRow → TaskRow) (rows : List TaskRow)
    → ((row : TaskRow) → Follows row (f row))
    → Continues rows (update_where p f rows)
unfolding update_where
Continues-update p f [] h = tt
Continues-update p f (x ∷ xs) h = (Follows-update f (p x) x (h x), Continues-update p f xs h)

abbrev pub Keeps : Db → Db → Type 0
Keeps a b = Continues a.task_runs b.task_runs

pub Keeps-order : StateOrder Keeps
Keeps-order = record {
  start = λ db. Continues-refl db.task_runs;
  then_ = λ a b c. Continues-trans a.task_runs b.task_runs c.task_runs;
  spent = λ db. Continues-refl db.task_runs;
}

pub insert_unless-Continues :
    (old : Option TaskRow) (row : TaskRow) (db : Db) → Keeps db (insert_unless old row db).1
insert_unless-Continues none row db = Continues-concat db.task_runs row
insert_unless-Continues (some old) row db = Continues-refl db.task_runs

some-ne-none {ℓ} : {A : Type ℓ} (a : A) → some a ≢ none
some-ne-none a e = cc

pub finish_row-Follows :
    (status : TaskStatus) (at : Time) (duration : ℤ) (message : String) (row : TaskRow)
    → Follows row (finish_row status at duration message row)
finish_row-Follows status at duration message row = record {
  run_id = refl;
  task_name = refl;
  source = refl;
  started_at = refl;
  ttl_seconds = refl;
  ended = λ _. some-ne-none at;
}

pub beat-Follows : (at : Time) (row : TaskRow) → Follows row (beat at row)
beat-Follows at row = record {
  run_id = refl;
  task_name = refl;
  source = refl;
  started_at = refl;
  ttl_seconds = refl;
  ended = λ h. h;
}

pub create-Continues : (t : TaskRun) (db : Db) → Continues db.task_runs (create t db).1.task_runs
create-Continues t =
    create-Steps Keeps Keeps-order t (λ db. insert_unless-Continues _ (created_row t) db)

pub heartbeat-Continues :
    (run_id : String) (at : Time) (db : Db)
    → Continues db.task_runs (heartbeat run_id at db).1.task_runs
heartbeat-Continues run_id at =
    heartbeat-Steps Keeps Keeps-order run_id at
      (λ db. Continues-update _ _ db.task_runs (beat-Follows at))

pub finish-Continues :
    (run_id : String) (status : TaskStatus) (message : String) (at : Time) (db : Db)
    → Continues db.task_runs (finish run_id status message at db).1.task_runs
finish-Continues run_id status message at =
    finish-Steps Keeps Keeps-order run_id status message at
      (λ run db. Continues-update _ _ db.task_runs (finish_row-Follows status at _ message))

pub sweep_timeouts-Continues :
    (now : Time) (db : Db) → Continues db.task_runs (sweep_timeouts now db).1.task_runs
sweep_timeouts-Continues now =
    sweep_timeouts-Steps Keeps Keeps-order now
      (λ c db. Continues-update _ _ db.task_runs (finish_row-Follows TaskStatus.timeout now _ _))

pub get-Continues : (run_id : String) (db : Db) → Continues db.task_runs (get run_id db).1.task_runs
get-Continues = get-Steps Keeps Keeps-order

pub list-Continues :
    (status : String) (db : Db) → Continues db.task_runs (list status db).1.task_runs
list-Continues = list-Steps Keeps Keeps-order
