-- ===== src/Cleaner/Tests.antt =====
-- The retention job at a concrete table.
use chronos_monitor.Prelude.{◌*◌, pos, ◌≡◌, [], ◌∷◌, All, arith}
use chronos_monitor.Database.{TaskRow}
use chronos_monitor.Database.Table.{delete_where}
use chronos_monitor.Tasks.Sweep.{quiet, timed_out_row}
use chronos_monitor.Broker.{new_hub}
use chronos_monitor.Cleaner.{new_cleaner, clean_once}
use chronos_monitor.Cleaner.Window.{
  day, ended_longer_ago, EndsAfter, clean_once_lem, clean_once_overflow,
}
use chronos_monitor.System.Samples.{at, running_row}

-- A run that ended at 0.
abbrev ended_row : TaskRow
ended_row = timed_out_row (pos 0) (running_row "old")

clean_once_example :
    clean_once
      (new_cleaner (pos 1) (at 3600))
      (at 100000)
      (record { db = quiet (ended_row ∷ running_row "a" ∷ []) []; hub = new_hub })
    ≡ record {
      db =
          quiet
            (delete_where
              (ended_longer_ago (1 * day) (at 100000))
              (ended_row ∷ running_row "a" ∷ []))
            [];
      hub = new_hub;
    }
clean_once_example =
    clean_once_lem 1 (at 3600) (at 100000) (ended_row ∷ running_row "a" ∷ []) [] new_hub
      (omega arith)

clean_once_overflow_example :
    All
      (λ row. EndsAfter (at 10) row.finished_at)
      (clean_once
        (new_cleaner (pos 106752) (at 3600))
        (at 10)
        (record { db = quiet (ended_row ∷ running_row "a" ∷ []) []; hub = new_hub })).db.task_runs
clean_once_overflow_example =
    clean_once_overflow 106752 (at 3600) (at 10) (ended_row ∷ running_row "a" ∷ []) [] new_hub
      (omega arith) (omega arith)
