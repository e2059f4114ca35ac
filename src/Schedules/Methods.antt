-- ===== src/Schedules/Methods.antt =====
-- The results of the methods of `ScheduleStore` on a schedule that is there, or on none, when the
-- driver reports no error.
use chronos_monitor.Prelude.{String, eq_refl, ◌≡◌, refl, List, [], ◌∷◌, ◌++◌, none, some}
use chronos_monitor.Clock.{Time}
use chronos_monitor.Database.{TaskRow, ScheduleRow, exec, query_row, ok}
use chronos_monitor.Database.Table.{find_where, update_where}
use chronos_monitor.Database.Keys.{IsDistinct, IsFresh, has_key, find_of_IsFresh}
use chronos_monitor.Database.OneRow.{
  IsFresh-before, IsFresh-behind, update_one, update_none, find_one, has_key-NeedsKey,
}
use chronos_monitor.Tasks.Sweep.{quiet}
use chronos_monitor.Schedules.{
  has_name, scan_schedule, Expectation, registered_row, reregistered_row, touched_row, upsert,
  touch, get,
}
use chronos_monitor.Schedules.Detection.{schedule_key}

module _ (tasks : List TaskRow) (pre rows : List ScheduleRow) (row : ScheduleRow)
    (d : IsDistinct schedule_key (pre ++ row ∷ rows)) where
  here : find_where (has_name row.task_name) (pre ++ row ∷ rows) ≡ some row
  here =
      find_one schedule_key row.task_name (has_key schedule_key row.task_name)
        (has_key-NeedsKey schedule_key row.task_name) row (eq_refl row.task_name) rows
        (IsFresh-behind schedule_key pre rows row d) pre
        (IsFresh-before schedule_key pre rows row d)

  pub get-present :
      get row.task_name (quiet tasks (pre ++ row ∷ rows))
      ≡ (ok (scan_schedule row), quiet tasks (pre ++ row ∷ rows))
  unfolding get query_row
  get-present = rw here refl

  changed :
      (f : ScheduleRow → ScheduleRow)
      → update_where (has_name row.task_name) f (pre ++ row ∷ rows) ≡ pre ++ f row ∷ rows
  changed f =
      update_one schedule_key row.task_name (has_key schedule_key row.task_name)
        (has_key-NeedsKey schedule_key row.task_name) row (eq_refl row.task_name) rows
        (IsFresh-behind schedule_key pre rows row d) f pre
        (IsFresh-before schedule_key pre rows row d)

  pub touch-present :
      (at : Time)
      → touch row.task_name at (quiet tasks (pre ++ row ∷ rows))
        ≡ (ok tt, quiet tasks (pre ++ touched_row at row ∷ rows))
  unfolding touch exec
  touch-present at = rw (changed (touched_row at)) refl

  pub upsert-present :
      (x : Expectation) (now : Time)
      → upsert row.task_name x now (quiet tasks (pre ++ row ∷ rows))
        ≡ (ok tt, quiet tasks (pre ++ reregistered_row x now row ∷ rows))
  unfolding upsert exec
  upsert-present x now = rw (here, changed (reregistered_row x now)) refl

module _ (tasks : List TaskRow) (task_name : String) (rows : List ScheduleRow)
    (h : IsFresh schedule_key task_name rows) where
  absent : find_where (has_name task_name) rows ≡ none
  absent = find_of_IsFresh schedule_key task_name rows h

  pub touch-absent : (at : Time) → touch task_name at (quiet tasks rows) ≡ (ok tt, quiet tasks rows)
  unfolding touch exec
  touch-absent at =
      rw
        (update_none schedule_key task_name (has_key schedule_key task_name)
          (has_key-NeedsKey schedule_key task_name) (touched_row at) rows h)
        refl

  pub upsert-absent :
      (x : Expectation) (now : Time)
      → upsert task_name x now (quiet tasks rows)
        ≡ (ok tt, quiet tasks (rows ++ registered_row task_name x now ∷ []))
  unfolding upsert exec
  upsert-absent x now = rw absent refl
