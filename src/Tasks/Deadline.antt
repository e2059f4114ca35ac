-- ===== src/Tasks/Deadline.antt =====
-- Which runs a sweep times out: the deadline that a TTL sets, where int64 nanoseconds can hold it,
-- and what happens past that range.
use chronos_monitor.Prelude.{
  ltb_ℤ, ℕ, ◌*◌, ◌≤◌, ◌<◌, ℤ, pos, ◌<ℤ◌, ◌≤ℤ◌, ◌+ℤ◌, ◌-ℤ◌, ◌≡◌, ◌↔◌, refl, List, [], map, Option,
  none, some, true, false, arith, -ℤ_parts, +ℤ_parts,
}
use chronos_monitor.Clock.{
  Time, sub, duration_of, second, int64_half, int64_mod, max_duration, min_duration,
}
use chronos_monitor.Clock.Bounds.{duration_of_exact, duration_of_wraps, sub_exact}
use chronos_monitor.Models.{TaskStatus}
use chronos_monitor.Database.{TaskRow, ScheduleRow}
use chronos_monitor.Tasks.{reference_of, scan_task_run, sweep_timeouts}
use chronos_monitor.Database.Rounds.{swept_row}
use chronos_monitor.Database.Rounds.Refinement.{found_in-swept, swept_twice, swept-IsDistinct}
use chronos_monitor.Tasks.Invariant.{run_key}
use chronos_monitor.Database.Keys.{IsDistinct}
use chronos_monitor.Tasks.Sweep.{sweep_timeouts_lem, quiet, is_overdue, overdue_with, timed_out_row}

-- What it means that a run is overdue, in the terms of its columns.
pub record IsOverdue (now : Time) (row : TaskRow) : Type 0 where
  pub running : row.status ≡ TaskStatus.running
  pub ttl : ℤ
  pub declared : row.ttl_seconds ≡ some ttl
  pub passed : duration_of ttl second <ℤ sub now (reference_of row)

IsOverdue-overdue_with :
    (s : TaskStatus) (o : Option ℤ) (now : Time) (row : TaskRow)
    → row.status ≡ s
    → row.ttl_seconds ≡ o
    → overdue_with s o now row ≡ true
    → IsOverdue now row
IsOverdue-overdue_with TaskStatus.running (some ttl) now row es eo h = record {
  running = es;
  ttl = ttl;
  declared = eo;
  passed = ground arith;
}
IsOverdue-overdue_with TaskStatus.running none now row es eo h = cc
IsOverdue-overdue_with _ o now row es eo h = cc

pub is_overdue_iff : (now : Time) (row : TaskRow) → (is_overdue now row ≡ true) ↔ IsOverdue now row
is_overdue_iff now row = (
  IsOverdue-overdue_with row.status row.ttl_seconds now row refl refl,
  λ h. rw (h.running, h.declared) (let p = h.passed in ground arith),
)

-- A row that was timed out is not overdue again, at any time.
timed_out-not_overdue :
    (now later : Time) (row : TaskRow) → is_overdue later (timed_out_row now row) ≡ false
timed_out-not_overdue now later row = refl

module _ (now : Time) (row : TaskRow) (n : ℕ) (e : row.ttl_seconds ≡ some (pos n))
    (r : row.status ≡ TaskStatus.running) (lo : min_duration ≤ℤ now -ℤ reference_of row)
    (hi : now -ℤ reference_of row ≤ℤ max_duration) where
  -- Within range: a running task is overdue exactly when more than its TTL has passed.
  pub overdue_exact :
      n * second < int64_half
      → is_overdue now row ≡ ltb_ℤ (reference_of row +ℤ pos (n * second)) now
  overdue_exact small =
      rw (r, e, duration_of_exact n second small, sub_exact now (reference_of row) lo hi)
        (ground
          (arith, -ℤ_parts now (reference_of row), +ℤ_parts (reference_of row) (pos (n * second))))

  pub overdue_overflow :
      int64_half ≤ n * second
      → n * second < int64_mod
      → reference_of row ≤ℤ now
      → is_overdue now row ≡ true
  overdue_overflow big small past =
      rw (r, e, sub_exact now (reference_of row) lo hi)
        (ground (arith, -ℤ_parts now (reference_of row), duration_of_wraps n big small))

-- With no driver error, a second sweep at the same time reports no task and changes nothing.
pub sweep_timeouts_idempotent :
    (now : Time) (rows : List TaskRow) (schedules : List ScheduleRow)
    → IsDistinct run_key rows
    → sweep_timeouts now (sweep_timeouts now (quiet rows schedules)).1
      ≡ (record { found = []; error = none }, (sweep_timeouts now (quiet rows schedules)).1)
sweep_timeouts_idempotent now rows schedules d =
    let settled = timed_out-not_overdue now now in
    let swept = map (swept_row (is_overdue now) (timed_out_row now)) rows in
    rw (sweep_timeouts_lem now rows schedules d) (
      rw
        (
          sweep_timeouts_lem now swept schedules
              (swept-IsDistinct run_key (is_overdue now) (timed_out_row now) (λ row. refl) rows d),
          found_in-swept (is_overdue now) (timed_out_row now) settled scan_task_run rows,
          swept_twice (is_overdue now) (timed_out_row now) settled rows,
        )
        refl)
