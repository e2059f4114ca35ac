-- ===== src/Tasks/Client.antt =====
-- What a client that reads a run sees of the calls that came before.
use mathlib.Core.List.{map-append}
use chronos_monitor.Prelude.{
  ltb_ℤ, false, if◌then◌else◌, ℕ, ◌*◌, ◌≤◌, ◌<◌, String, pos, ◌≤ℤ◌, ◌+ℤ◌, ◌-ℤ◌, -ℤ_parts, +ℤ_parts,
  ◌≡◌, refl, ap, ◌∙◌, List, [], ◌∷◌, ◌++◌, map, some, true, arith,
}
use chronos_monitor.Clock.{
  Time, sub, second, milliseconds, int64_half, int64_mod, max_duration, min_duration,
}
use chronos_monitor.Models.{TaskStatus, TaskRun}
use chronos_monitor.Database.{TaskRow, ScheduleRow, ok}
use chronos_monitor.Database.Keys.{IsDistinct, IsFresh, IsDistinct-concat}
use chronos_monitor.Database.OneRow.{IsDistinct-replace}
use chronos_monitor.Tasks.{
  reference_of, beat, created_row, finish_row, scan_task_run, create, heartbeat, finish, get,
  sweep_timeouts,
}
use chronos_monitor.Tasks.Invariant.{run_key}
use chronos_monitor.Tasks.Sweep.{quiet, is_overdue, timed_out_row, sweep_timeouts_lem}
use chronos_monitor.Tasks.Deadline.{overdue_exact, overdue_overflow}
use chronos_monitor.Database.Rounds.{swept_row}
use chronos_monitor.Database.Rounds.Refinement.{swept_key, swept-IsDistinct}
use chronos_monitor.Tasks.Methods.{create-fresh, get-present, finish-present, heartbeat-running}

abbrev swept : Time → TaskRow → TaskRow
swept now = swept_row (is_overdue now) (timed_out_row now)

module _ (schedules : List ScheduleRow) (pre rows : List TaskRow) (row : TaskRow)
    (d : IsDistinct run_key (pre ++ row ∷ rows)) where
  -- What `Get` returns after a sweep.
  pub get-sweep :
      (now : Time)
      → (get row.run_id (sweep_timeouts now (quiet (pre ++ row ∷ rows) schedules)).1).0
        ≡ ok (scan_task_run (swept now row))
  get-sweep now =
      let split = map-append (swept now) pre (row ∷ rows) in
      let d' = rw split at (
        swept-IsDistinct run_key (is_overdue now) (timed_out_row now) (λ r. refl)
          (pre ++ row ∷ rows) d) in
      rw (sweep_timeouts_lem now (pre ++ row ∷ rows) schedules d, split)
        (rw (swept_key run_key (is_overdue now) (timed_out_row now) (λ r. refl) row) at (
          ap (λ x. x.0)
            (get-present schedules (map (swept now) pre) (map (swept now) rows) (swept now row)
              d')))

  -- A sweep at a time `now`, for a running task with a TTL of `n` seconds, where int64 nanoseconds
  -- hold the TTL and the time since its last heartbeat (or its start, without one): `Get` returns
  -- the task as it was if that reference plus the TTL is not before `now`, and otherwise the task
  -- as timed out at `now`.
  pub get-sweep_deadline :
      (now : Time) (n : ℕ)
      → row.status ≡ TaskStatus.running
      → row.ttl_seconds ≡ some (pos n)
      → n * second < int64_half
      → min_duration ≤ℤ now -ℤ reference_of row
      → now -ℤ reference_of row ≤ℤ max_duration
      → (get row.run_id (sweep_timeouts now (quiet (pre ++ row ∷ rows) schedules)).1).0
        ≡ ok (
            scan_task_run (
              if ltb_ℤ (reference_of row +ℤ pos (n * second)) now
              then timed_out_row now row
              else row))
  get-sweep_deadline now n r e small lo hi =
      rw (overdue_exact now row n e r lo hi small) at (get-sweep now)

  -- `Finish` on a stored run, whatever its status was: `Get` then returns the run with the new
  -- status, end and error text, and with the milliseconds from its start to its end.
  pub get-finish :
      (status : TaskStatus) (message : String) (at : Time)
      → (get row.run_id
          (finish row.run_id status message at (quiet (pre ++ row ∷ rows) schedules)).1).0
        ≡ ok (record (scan_task_run row) {
          status = status;
          finished_at = some at;
          duration_ms = some (milliseconds (sub at row.started_at));
          error_message = message;
        })
  unfolding scan_task_run
  get-finish status message at =
      let ended = finish_row status at (milliseconds (sub at row.started_at)) message row in
      rw (finish-present schedules pre rows row d status message at) (
        ap (λ x. x.0)
          (get-present schedules pre rows ended
            (IsDistinct-replace run_key pre rows row ended refl d)))

in_time : (now at : Time) (n : ℕ) → now ≤ℤ at +ℤ pos n → ltb_ℤ (at +ℤ pos n) now ≡ false
in_time now at n h = ground arith

-- A heartbeat at a time `at` for a running task with a TTL of `n` seconds that int64 nanoseconds
-- can hold: a sweep up to `n` seconds after the heartbeat leaves the task running, whatever the
-- last heartbeat before was.
pub get-sweep-heartbeat :
    (schedules : List ScheduleRow) (pre rows : List TaskRow) (row : TaskRow) (at now : Time) (n : ℕ)
    → IsDistinct run_key (pre ++ row ∷ rows)
    → row.status ≡ TaskStatus.running
    → row.ttl_seconds ≡ some (pos n)
    → n * second < int64_half
    → at ≤ℤ now
    → now ≤ℤ at +ℤ pos (n * second)
    → (get row.run_id
        (sweep_timeouts now (heartbeat row.run_id at (quiet (pre ++ row ∷ rows) schedules)).1).1).0
      ≡ ok (scan_task_run (beat at row))
get-sweep-heartbeat schedules pre rows row at now n d r e small after early =
    let d' = IsDistinct-replace run_key pre rows row (beat at row) refl d in
    rw (heartbeat-running schedules pre rows row d at r) (
      rw (in_time now at (n * second) early) at (
        get-sweep_deadline schedules pre rows (beat at row) d' now n r e small
          (omega (arith, -ℤ_parts now at, +ℤ_parts at (pos (n * second))))
          (omega (arith, -ℤ_parts now at, +ℤ_parts at (pos (n * second))))))

-- A TTL whose nanoseconds pass the range of int64, and stay below twice that range: a sweep at
-- the very time of the start marks the new run as timed out.
pub get-sweep-create_overflow :
    (t : TaskRun) (rows : List TaskRow) (schedules : List ScheduleRow) (n : ℕ)
    → IsDistinct run_key rows
    → IsFresh run_key t.run_id rows
    → t.status ≡ TaskStatus.running
    → t.ttl_seconds ≡ some (pos n)
    → int64_half ≤ n * second
    → n * second < int64_mod
    → (get t.run_id (sweep_timeouts t.started_at (create t (quiet rows schedules)).1).1).0
      ≡ ok (scan_task_run (timed_out_row t.started_at (created_row t)))
get-sweep-create_overflow t rows schedules n d fresh r e big small =
    let row = created_row t in
    let now = t.started_at in
    let late : is_overdue now row ≡ true =
      overdue_overflow now row n e r (omega (arith, -ℤ_parts now now))
        (omega (arith, -ℤ_parts now now)) big small (omega arith) in
    rw (create-fresh schedules t rows fresh) (
      get-sweep schedules rows [] row (IsDistinct-concat run_key rows row d fresh) now
      ∙ ap (λ x. ok (scan_task_run x)) (rw late refl))
