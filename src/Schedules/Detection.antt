-- ===== src/Schedules/Detection.antt =====
-- `DetectMissed` against a description of its effect row by row.
use chronos_monitor.Prelude.{
  String, eq_iff, eq_refl, ltb_ℤ, leb_ℤ, ◌≡◌, refl, ap, ◌⊎◌, inl, inr, List, [], ◌∷◌, ◌++◌, map,
  Option, none, some, Bool, true, false, arith, if◌then◌else◌,
}
use chronos_monitor.Clock.{Time}
use chronos_monitor.Models.{ScheduleStatus, is_ok}
use chronos_monitor.Database.{TaskRow, ScheduleRow, Db, exec, query_row, query, ok}
use chronos_monitor.Database.Keys.{IsDistinct, has_key}
use chronos_monitor.Database.OneRow.{
  IsFresh-before, IsFresh-behind, IsDistinct-replace, NeedsKey, update_one, count_one, find_one,
  has_key-NeedsKey,
}
use chronos_monitor.Database.Rounds.{transitioned, skipped, visit_of, swept_row, found_in}
use chronos_monitor.Database.Rounds.Refinement.{Changes, sweep_loop_lem}
use chronos_monitor.Tasks.Sweep.{quiet}
use chronos_monitor.Schedules.{
  scan_schedule, get, Candidate, deadline_of, candidate_at, candidate_of, is_ok_named, missed_row,
  visit, detect_missed,
}

abbrev pub schedule_key : ScheduleRow → String
schedule_key row = row.task_name

abbrev pub passed : Time → Option Time → Bool
passed now none = false
passed now (some deadline) = leb_ℤ deadline now

abbrev pub missed_with : ScheduleStatus → Option Time → Time → Bool
missed_with ScheduleStatus.ok deadline now = passed now deadline
missed_with ScheduleStatus.missed deadline now = false

module _ (parse_standard : String → Option (Time → Time)) where
  -- Not yet flagged, with a deadline that has come.
  abbrev pub is_missed : Time → ScheduleRow → Bool
  is_missed now row = missed_with row.status (deadline_of parse_standard row) now

  module _ (now : Time) (tasks : List TaskRow) where
    is_ok_named-NeedsKey : (k : String) → NeedsKey schedule_key k (is_ok_named k)
    is_ok_named-NeedsKey k row h = ground (arith, eq_iff row.task_name k)

    get-one :
        (pre rows : List ScheduleRow) (row : ScheduleRow)
        → IsDistinct schedule_key (pre ++ row ∷ rows)
        → get row.task_name (quiet tasks (pre ++ row ∷ rows))
          ≡ (ok (scan_schedule row), quiet tasks (pre ++ row ∷ rows))
    unfolding get query_row
    get-one pre rows row d =
        rw
          (find_one schedule_key row.task_name (has_key schedule_key row.task_name)
            (has_key-NeedsKey schedule_key row.task_name) row (eq_refl row.task_name) rows
            (IsFresh-behind schedule_key pre rows row d) pre
            (IsFresh-before schedule_key pre rows row d))
          refl

    abbrev candidate : ScheduleRow → Time → Candidate
    candidate row deadline = record { task_name = row.task_name; deadline = deadline }

    visit-missed :
        (pre rows : List ScheduleRow) (row : ScheduleRow) (deadline : Time)
        → IsDistinct schedule_key (pre ++ row ∷ rows)
        → row.status ≡ ScheduleStatus.ok
        → ltb_ℤ now deadline ≡ false
        → visit parse_standard now (candidate row deadline) (quiet tasks (pre ++ row ∷ rows)) ≡ (
          transitioned (scan_schedule (missed_row now row)),
          quiet tasks (pre ++ missed_row now row ∷ rows),
        )
    unfolding visit exec
    visit-missed pre rows row deadline d run late =
        let k = row.task_name in
        let behind = IsFresh-behind schedule_key pre rows row d in
        let before = IsFresh-before schedule_key pre rows row d in
        let hit : is_ok_named k row ≡ true = rw (eq_refl k, run) refl in
        let needs = is_ok_named-NeedsKey k in
        rw
          (
            late,
            count_one schedule_key k (is_ok_named k) needs row hit rows behind pre before,
            update_one schedule_key k (is_ok_named k) needs row hit rows behind (missed_row now) pre
                before,
          )
          (ap visit_of (
            get-one pre rows (missed_row now row)
              (IsDistinct-replace schedule_key pre rows row (missed_row now row) refl d)))

    missed-candidate :
        (s : ScheduleStatus) (o : Option Time) (row : ScheduleRow)
        → missed_with s o now ≡ true
        → (deadline : Time) × ((if is_ok s then candidate_at o row else none)
            ≡ some (candidate row deadline))
          × (s ≡ ScheduleStatus.ok)
          × (ltb_ℤ now deadline ≡ false)
    missed-candidate ScheduleStatus.ok (some deadline) row h = (deadline, refl, refl, ground arith)
    missed-candidate ScheduleStatus.ok none row h = cc
    missed-candidate ScheduleStatus.missed o row h = cc

    missed-Changes :
        (row : ScheduleRow)
        → is_missed now row ≡ true
        → Changes schedule_key
            (candidate_of parse_standard)
            (visit parse_standard now)
            (λ rows. quiet tasks rows)
            (is_missed now)
            (missed_row now)
            scan_schedule
            row
    missed-Changes row h =
        let (deadline, found, run, late) =
          missed-candidate row.status (deadline_of parse_standard row) row h in
        (candidate row deadline, found, λ pre rows d. visit-missed pre rows row deadline d run late)

    visit-early :
        (c : Candidate) (db : Db)
        → ltb_ℤ now c.deadline ≡ true
        → visit parse_standard now c db ≡ (skipped, db)
    unfolding visit
    visit-early c db h = rw h refl

    early-Skips :
        (s : ScheduleStatus) (o : Option Time) (row : ScheduleRow)
        → missed_with s o now ≡ false
        → ((if is_ok s then candidate_at o row else none) ≡ none)
          ⊎ ((c : Candidate) × ((if is_ok s then candidate_at o row else none) ≡ some c)
              × ((db : Db) → visit parse_standard now c db ≡ (skipped, db)))
    early-Skips ScheduleStatus.ok (some deadline) row h =
        inr (
          candidate row deadline,
          refl,
          λ db. visit-early (candidate row deadline) db (ground arith),
        )
    early-Skips ScheduleStatus.ok none row h = inl refl
    early-Skips ScheduleStatus.missed o row h = inl refl

  -- With no driver error, `DetectMissed` on a table with distinct names ends without an error. It
  -- flags each schedule that is "ok" and whose deadline is not after `now`, leaves every other
  -- schedule and the runs as they are, and returns the flagged schedules, all of them and in the
  -- order of the table. A schedule whose cron expression does not parse is passed over.
  pub detect_missed_lem :
      (now : Time) (tasks : List TaskRow) (rows : List ScheduleRow)
      → IsDistinct schedule_key rows
      → detect_missed parse_standard now (quiet tasks rows) ≡ (
        record {
          found = found_in (is_missed now) (missed_row now) scan_schedule rows;
          error = none;
        },
        quiet tasks (map (swept_row (is_missed now) (missed_row now)) rows),
      )
  unfolding detect_missed query query_row
  detect_missed_lem now tasks rows d =
      sweep_loop_lem schedule_key (candidate_of parse_standard) (visit parse_standard now)
        (λ r. quiet tasks r) (is_missed now) (missed_row now) scan_schedule (λ row. refl)
        (λ row. early-Skips now tasks row.status (deadline_of parse_standard row) row)
        (missed-Changes now tasks) [] rows [] d
