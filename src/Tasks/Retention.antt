-- ===== src/Tasks/Retention.antt =====
-- What `DeleteOlderThan` may remove, whatever becomes of its statement.
use chronos_monitor.Prelude.{
  ℕ, ◌+◌, ◌≡◌, refl, inl, inr, List, [], ◌∷◌, Bool, true, false, All, Elem, length, arith,
  Bool-cases, if◌then◌else◌,
}
use chronos_monitor.Clock.{Time}
use chronos_monitor.Models.{TaskStatus}
use chronos_monitor.Database.{TaskRow, ScheduleRow, Db, ok, exec}
use chronos_monitor.Database.Table.{delete_where, count_where}
use chronos_monitor.Database.Steps.{StateOrder}
use chronos_monitor.Tasks.{is_older_than, delete_older_than}
use chronos_monitor.Tasks.Effects.{delete_older_than-Steps}
use chronos_monitor.Tasks.Invariant.{IsWellFormed, IsShaped, HasShape}
use chronos_monitor.Tasks.Sweep.{quiet}

abbrev KeepsYoung : Time → Db → Db → Type 0
KeepsYoung cutoff a b =
    (row : TaskRow) → Elem row a.task_runs → is_older_than cutoff row ≡ false → Elem row b.task_runs

KeepsYoung-order : (cutoff : Time) → StateOrder (KeepsYoung cutoff)
KeepsYoung-order cutoff = record {
  start = λ db row h e. h;
  then_ = λ a b c f g row h e. g row (f row h e) e;
  spent = λ db row h e. h;
}

delete_step :
    (b : Bool) (row x : TaskRow) (xs : List TaskRow)
    → Elem row xs
    → Elem row (if b then xs else x ∷ xs)
delete_step true row x xs h = h
delete_step false row x xs h = inr h

Elem-delete :
    (p : TaskRow → Bool) (row : TaskRow) (xs : List TaskRow)
    → Elem row xs
    → p row ≡ false
    → Elem row (delete_where p xs)
unfolding delete_where
Elem-delete p row [] h e = h
Elem-delete p row (x ∷ xs) (inl same) e = rw (same, e) (inl refl)
Elem-delete p row (x ∷ xs) (inr h) e = delete_step (p x) row x _ (Elem-delete p row xs h e)

-- A row that the cutoff does not cover stays, also when the driver reports an error.
delete_older_than-keeps :
    (cutoff : Time) (db : Db) → KeepsYoung cutoff db (delete_older_than cutoff db).1
delete_older_than-keeps cutoff =
    delete_older_than-Steps (KeepsYoung cutoff) (KeepsYoung-order cutoff) cutoff
      (λ db row h e. Elem-delete (is_older_than cutoff) row db.task_runs h e)

All-Elem :
    (P : TaskRow → Type 0) (row : TaskRow) (xs : List TaskRow) → All P xs → Elem row xs → P row
All-Elem P row (x ∷ xs) h (inl e) = rw e at h.0
All-Elem P row (x ∷ xs) h (inr k) = All-Elem P row xs h.1 k
All-Elem P row [] h k = absurd k

-- However old it is, a running task of a well-formed table is never removed by the retention job,
-- whatever the cutoff and whatever the outcome of the statement.
pub delete_older_than-running :
    (cutoff : Time) (db : Db) (row : TaskRow)
    → IsWellFormed db
    → Elem row db.task_runs
    → row.status ≡ TaskStatus.running
    → Elem row (delete_older_than cutoff db).1.task_runs
delete_older_than-running cutoff db row w h r = delete_older_than-keeps cutoff db row h (
    let s = All-Elem IsShaped row db.task_runs w.shaped h in
    let open_run : HasShape TaskStatus.running row = rw r at s.0 in rw open_run.0 refl)

-- What is left holds no row that the cutoff covers.
pub All-delete_young :
    (p : TaskRow → Bool) (xs : List TaskRow) → All (λ x. p x ≡ false) (delete_where p xs)
unfolding delete_where
All-delete_young p [] = tt
All-delete_young p (x ∷ xs) = elim (Bool-cases (p x)) [
  | inl old ↦ rw old (All-delete_young p xs)
  | inr young ↦ rw young (young, All-delete_young p xs)
]

length-delete :
    (p : TaskRow → Bool) (xs : List TaskRow)
    → count_where p xs + length (delete_where p xs) ≡ length xs
unfolding delete_where count_where
length-delete p [] = omega arith
length-delete p (x ∷ xs) = elim (Bool-cases (p x)) [
  | inl old ↦ rw (old) (omega (arith, length-delete p xs))
  | inr young ↦ rw (young) (omega (arith, length-delete p xs))
]

-- With no driver error, the number that is returned is the number of rows by which the table
-- shrank, and no row that is left ended before the cutoff.
pub delete_older_than_lem :
    (cutoff : Time) (rows : List TaskRow) (schedules : List ScheduleRow)
    → (n : ℕ) × (left : List TaskRow) × (delete_older_than cutoff (quiet rows schedules)
        ≡ (ok n, quiet left schedules))
      × (n + length left ≡ length rows)
      × All (λ row. is_older_than cutoff row ≡ false) left
unfolding delete_older_than exec
delete_older_than_lem cutoff rows schedules = (
  count_where (is_older_than cutoff) rows,
  delete_where (is_older_than cutoff) rows,
  refl,
  length-delete (is_older_than cutoff) rows,
  All-delete_young (is_older_than cutoff) rows,
)
