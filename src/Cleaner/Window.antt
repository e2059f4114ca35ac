-- ===== src/Cleaner/Window.antt =====
-- Which runs the retention job deletes, for a number of days that a duration can hold and for one
-- that wraps around.
use mathlib.Core.Path.{fun_ext}
use chronos_monitor.Prelude.{
  ℕ, ◌*◌, ◌-◌, ◌<◌, ℤ, pos, ltb_ℤ, ◌<ℤ◌, ◌+ℤ◌, ◌-ℤ◌, ◌*ℤ◌, +ℤ_parts, -ℤ_parts, ◌≡◌, refl, ap, List,
  Option, none, some, Bool, false, All, All-imp, arith,
}
use chronos_monitor.Clock.{Time, Duration, add, wrap64, duration_of, hour, int64_half, int64_mod}
use chronos_monitor.Database.{TaskRow, ScheduleRow, exec}
use chronos_monitor.Database.Table.{delete_where}
use chronos_monitor.Tasks.{delete_older_than, is_older_than}
use chronos_monitor.Tasks.Sweep.{quiet}
use chronos_monitor.Tasks.Retention.{All-delete_young}
use chronos_monitor.Broker.{Hub}
use chronos_monitor.Cleaner.{new_cleaner, cutoff_of, clean_once}

abbrev pub day : ℕ
day = 86400000000000

days_exact :
    (days : ℕ)
    → days * day < int64_half
    → duration_of (duration_of (pos days) 24) hour ≡ pos (days * day)
unfolding duration_of wrap64 ◌*ℤ◌
days_exact days h = ground arith

days_wrap :
    (days : ℕ)
    → int64_half < days * day
    → days * day < int64_mod
    → wrap64 (pos 0 -ℤ duration_of (duration_of (pos days) 24) hour) ≡ pos (int64_mod - days * day)
unfolding duration_of wrap64 ◌*ℤ◌ ◌-ℤ◌
days_wrap days lo hi = ground arith

back_exact : (n : ℕ) → n < int64_half → wrap64 (pos 0 -ℤ pos n) ≡ pos 0 -ℤ pos n
unfolding wrap64 ◌-ℤ◌
back_exact n h = ground arith

-- A run that ended more than n nanoseconds ago.
abbrev pub ended_before : ℕ → Time → Option Time → Bool
ended_before n now none = false
ended_before n now (some at) = ltb_ℤ (at +ℤ pos n) now

abbrev pub ended_longer_ago : ℕ → Time → TaskRow → Bool
ended_longer_ago n now row = ended_before n now row.finished_at

cutoff_exact :
    (days : ℕ) (interval : Duration) (now : Time)
    → days * day < int64_half
    → cutoff_of (new_cleaner (pos days) interval) now ≡ now +ℤ (pos 0 -ℤ pos (days * day))
unfolding cutoff_of new_cleaner add
cutoff_exact days interval now h = rw (days_exact days h, back_exact (days * day) h) refl

ltb_back : (a b : ℤ) (n : ℕ) → ltb_ℤ a (b +ℤ (pos 0 -ℤ pos n)) ≡ ltb_ℤ (a +ℤ pos n) b
ltb_back a b n =
    ground (arith, +ℤ_parts b (pos 0 -ℤ pos n), -ℤ_parts (pos 0) (pos n), +ℤ_parts a (pos n))

older_of_end :
    (n : ℕ) (now : Time) (end : Option Time) (row : TaskRow)
    → row.finished_at ≡ end
    → is_older_than (now +ℤ (pos 0 -ℤ pos n)) row ≡ ended_before n now end
older_of_end n now none row e = rw e refl
older_of_end n now (some at) row e = rw e (ltb_back at now n)

-- For a number of days that int64 nanoseconds can hold, and with no driver error, the job deletes
-- just the runs that ended more than that many days ago: an unfinished run stays, and so does a run
-- that ended later.
pub clean_once_lem :
    (days : ℕ) (interval : Duration) (now : Time) (rows : List TaskRow)
    (schedules : List ScheduleRow) (hub : Hub)
    → days * day < int64_half
    → clean_once
        (new_cleaner (pos days) interval)
        now
        (record { db = quiet rows schedules; hub = hub })
      ≡ record {
        db = quiet (delete_where (ended_longer_ago (days * day) now) rows) schedules;
        hub = hub;
      }
unfolding clean_once delete_older_than exec
clean_once_lem days interval now rows schedules hub h = rw (cutoff_exact days interval now h) (
    ap (λ p. record { db = quiet (delete_where p rows) schedules; hub = hub })
      (fun_ext λ row. older_of_end (days * day) now row.finished_at row refl))

cutoff_wrap :
    (days : ℕ) (interval : Duration) (now : Time)
    → int64_half < days * day
    → days * day < int64_mod
    → cutoff_of (new_cleaner (pos days) interval) now ≡ now +ℤ pos (int64_mod - days * day)
unfolding cutoff_of new_cleaner add
cutoff_wrap days interval now lo hi = rw (days_wrap days lo hi) refl

-- No row that ended at or before `now`.
abbrev pub EndsAfter : Time → Option Time → Type 0
EndsAfter now none = Unit
EndsAfter now (some at) = now <ℤ at

young_end :
    (n : ℕ) (now : Time) (end : Option Time) (row : TaskRow)
    → row.finished_at ≡ end
    → 0 < n
    → is_older_than (now +ℤ pos n) row ≡ false
    → EndsAfter now end
young_end n now none row e p h = tt
young_end n now (some at) row e p h =
    let k : ltb_ℤ at (now +ℤ pos n) ≡ false = rw e at h in ground (arith, +ℤ_parts now (pos n))

-- For a number of days whose nanoseconds pass the range of int64, and stay below twice that range,
-- and with no driver error, the job deletes every run that ended up to now, however recently.
pub clean_once_overflow :
    (days : ℕ) (interval : Duration) (now : Time) (rows : List TaskRow)
    (schedules : List ScheduleRow) (hub : Hub)
    → int64_half < days * day
    → days * day < int64_mod
    → All
        (λ row. EndsAfter now row.finished_at)
        (clean_once
          (new_cleaner (pos days) interval)
          now
          (record { db = quiet rows schedules; hub = hub })).db.task_runs
unfolding clean_once delete_older_than exec
clean_once_overflow days interval now rows schedules hub lo hi =
    rw (cutoff_wrap days interval now lo hi) (
      All-imp (λ row. is_older_than (now +ℤ pos (int64_mod - days * day)) row ≡ false)
        (λ row. EndsAfter now row.finished_at)
        (delete_where (is_older_than (now +ℤ pos (int64_mod - days * day))) rows)
        (λ row. young_end (int64_mod - days * day) now row.finished_at row refl (omega arith))
        (All-delete_young (is_older_than (now +ℤ pos (int64_mod - days * day))) rows))
