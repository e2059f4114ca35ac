-- ===== src/Schedules/Client.antt =====
-- What `Get` returns after a detection of missed runs, when the driver reports no error.
use mathlib.Core.List.{map-append}
use chronos_monitor.Prelude.{
  ℕ, ◌+◌, ◌*◌, ◌<◌, String, pos, ◌≤ℤ◌, ◌<ℤ◌, ◌+ℤ◌, ◌≡◌, refl, ap, ◌∙◌, List, ◌∷◌, ◌++◌, map, Option,
  none, some, true, false, arith, leb_ℤ, Bool-cases, inl, inr, if◌then◌else◌,
}
use chronos_monitor.Clock.{Time, add, second, int64_half}
use chronos_monitor.Clock.Bounds.{duration_of_exact, wrap64-sum}
use chronos_monitor.Models.{ScheduleStatus}
use chronos_monitor.Database.{TaskRow, ScheduleRow, ok}
use chronos_monitor.Database.Keys.{IsDistinct}
use chronos_monitor.Database.OneRow.{IsDistinct-replace}
use chronos_monitor.Database.Rounds.{swept_row}
use chronos_monitor.Database.Rounds.Refinement.{swept_key, swept-IsDistinct}
use chronos_monitor.Tasks.Sweep.{quiet}
use chronos_monitor.Schedules.{
  scan_schedule, touched_row, missed_row, reference_of, deadline_of, touch, get, detect_missed,
}
use chronos_monitor.Schedules.Detection.{schedule_key, is_missed, missed_with, detect_missed_lem}
use chronos_monitor.Schedules.Methods.{get-present, touch-present}

module _ (parse_standard : String → Option (Time → Time)) (tasks : List TaskRow) where
  missed_early :
      (s : ScheduleStatus) (o : Option Time) (now deadline : Time)
      → o ≡ some deadline
      → now <ℤ deadline
      → missed_with s o now ≡ false
  missed_early ScheduleStatus.ok o now deadline e h = rw e (ground arith)
  missed_early ScheduleStatus.missed o now deadline e h = refl

  missed_late :
      (s : ScheduleStatus) (o : Option Time) (now deadline : Time)
      → s ≡ ScheduleStatus.ok
      → o ≡ some deadline
      → deadline ≤ℤ now
      → missed_with s o now ≡ true
  missed_late s o now deadline e f h = rw (e, f) (ground arith)

  abbrev swept : Time → ScheduleRow → ScheduleRow
  swept now = swept_row (is_missed parse_standard now) (missed_row now)

  module _ (pre rows : List ScheduleRow) (row : ScheduleRow)
      (d : IsDistinct schedule_key (pre ++ row ∷ rows)) where
    -- What the table holds after a detection, around the row.
    detect_around :
        (now : Time)
        → (detect_missed parse_standard now (quiet tasks (pre ++ row ∷ rows))).1
          ≡ quiet tasks (map (swept now) pre ++ swept now row ∷ map (swept now) rows)
    detect_around now =
        let split = map-append (swept now) pre (row ∷ rows) in
        rw (detect_missed_lem parse_standard now tasks (pre ++ row ∷ rows) d, split) refl

    detect_missed-IsDistinct :
        (now : Time)
        → IsDistinct schedule_key (map (swept now) pre ++ swept now row ∷ map (swept now) rows)
    detect_missed-IsDistinct now = rw (map-append (swept now) pre (row ∷ rows)) at (
        swept-IsDistinct schedule_key (is_missed parse_standard now) (missed_row now) (λ r. refl)
          (pre ++ row ∷ rows) d)

    same_name : (now : Time) → (swept now row).task_name ≡ row.task_name
    same_name now =
        swept_key schedule_key (is_missed parse_standard now) (missed_row now) (λ r. refl) row

    pub get-detect :
        (now : Time)
        → (get row.task_name
            (detect_missed parse_standard now (quiet tasks (pre ++ row ∷ rows))).1).0
          ≡ ok (scan_schedule (swept now row))
    get-detect now = rw (detect_around now) (
        rw (same_name now) at (
          ap (λ x. x.0)
            (get-present tasks (map (swept now) pre) (map (swept now) rows) (swept now row)
              (detect_missed-IsDistinct now))))

    -- The deadline of an interval, where int64 nanoseconds hold it.
    interval_exact :
        (n g : ℕ)
        → row.cron_expression ≡ none
        → row.expected_interval_seconds ≡ some (pos n)
        → row.grace_period_seconds ≡ pos g
        → (n + g) * second < int64_half
        → deadline_of parse_standard row ≡ some (reference_of row +ℤ pos (n * second + g * second))
    unfolding add
    interval_exact n g c e k small =
        rw
          (
            c,
            e,
            k,
            duration_of_exact n second (omega arith),
            duration_of_exact g second (omega arith),
            wrap64-sum (n * second) (g * second) (omega arith),
          )
          refl

    swept_late :
        (now deadline : Time)
        → row.status ≡ ScheduleStatus.ok
        → deadline_of parse_standard row ≡ some deadline
        → deadline ≤ℤ now
        → swept now row ≡ missed_row now row
    swept_late now deadline s e h =
        let late : is_missed parse_standard now row ≡ true =
          missed_late row.status (deadline_of parse_standard row) now deadline s e h in
        rw late refl

    swept_early :
        (now deadline : Time)
        → deadline_of parse_standard row ≡ some deadline
        → now <ℤ deadline
        → swept now row ≡ row
    swept_early now deadline e h =
        let early : is_missed parse_standard now row ≡ false =
          missed_early row.status (deadline_of parse_standard row) now deadline e h in
        rw early refl

    swept_exactly :
        (now deadline : Time)
        → row.status ≡ ScheduleStatus.ok
        → deadline_of parse_standard row ≡ some deadline
        → swept now row ≡ (if leb_ℤ deadline now then missed_row now row else row)
    swept_exactly now deadline s e = elim (Bool-cases (leb_ℤ deadline now)) [
      | inl late ↦ rw late (swept_late now deadline s e (ground arith))
      | inr early ↦ rw early (swept_early now deadline e (ground arith))
    ]

    -- A detection at a time `now`, for a schedule that is "ok", with an interval of `n` seconds and
    -- a grace period of `g`, whose sum int64 nanoseconds can hold: `Get` returns the schedule as it
    -- was if its last start (or its registration, without one) plus both is after `now`, and
    -- otherwise the schedule as flagged at `now`.
    pub get-detect_interval :
        (now : Time) (n g : ℕ)
        → row.status ≡ ScheduleStatus.ok
        → row.cron_expression ≡ none
        → row.expected_interval_seconds ≡ some (pos n)
        → row.grace_period_seconds ≡ pos g
        → (n + g) * second < int64_half
        → (get row.task_name
            (detect_missed parse_standard now (quiet tasks (pre ++ row ∷ rows))).1).0
          ≡ ok (
              scan_schedule (
                if leb_ℤ (reference_of row +ℤ pos (n * second + g * second)) now
                then missed_row now row
                else row))
    get-detect_interval now n g s c e k small =
        get-detect now
        ∙ ap (λ r. ok (scan_schedule r))
            (swept_exactly now (reference_of row +ℤ pos (n * second + g * second)) s
              (interval_exact n g c e k small))

    -- A schedule that is "ok" and whose cron expression parses is flagged by a detection at `now`
    -- exactly when the next time after its last start (or its registration, without one) plus the
    -- grace period of `g` seconds, which int64 nanoseconds can hold, is not after `now`.
    pub get-detect_cron :
        (now : Time) (expression : String) (next : Time → Time) (g : ℕ)
        → row.status ≡ ScheduleStatus.ok
        → row.cron_expression ≡ some expression
        → parse_standard expression ≡ some next
        → row.grace_period_seconds ≡ pos g
        → g * second < int64_half
        → (get row.task_name
            (detect_missed parse_standard now (quiet tasks (pre ++ row ∷ rows))).1).0
          ≡ ok (
              scan_schedule (
                if leb_ℤ (next (reference_of row) +ℤ pos (g * second)) now
                then missed_row now row
                else row))
    unfolding add
    get-detect_cron now expression next g s c e k small =
        get-detect now
        ∙ ap (λ r. ok (scan_schedule r))
            (swept_exactly now (next (reference_of row) +ℤ pos (g * second)) s
              (rw (c, e, k, duration_of_exact g second small) refl))

  -- One episode is reported once: after a detection at `now` flagged a schedule whose deadline had
  -- come, a detection at any later or earlier time leaves it as flagged at `now`, so it does not
  -- flag it again.
  pub get-detect_twice :
      (pre rows : List ScheduleRow) (row : ScheduleRow) (now later deadline : Time)
      → IsDistinct schedule_key (pre ++ row ∷ rows)
      → row.status ≡ ScheduleStatus.ok
      → deadline_of parse_standard row ≡ some deadline
      → deadline ≤ℤ now
      → (get row.task_name
          (detect_missed parse_standard later
            (detect_missed parse_standard now (quiet tasks (pre ++ row ∷ rows))).1).1).0
        ≡ ok (scan_schedule (missed_row now row))
  get-detect_twice pre rows row now later deadline d s e h =
      let flagged = swept_late pre rows row d now deadline s e h in
      rw (detect_around pre rows row d now, flagged)
        (get-detect (map (swept now) pre) (map (swept now) rows) (missed_row now row)
          (rw flagged at (detect_missed-IsDistinct pre rows row d now)) later)

  later : (at now : Time) (n : ℕ) → now <ℤ at +ℤ pos n → leb_ℤ (at +ℤ pos n) now ≡ false
  later at now n h = ground arith

  -- After a start at a time `at`, a detection before `n + g` seconds have passed leaves the
  -- schedule "ok", for an interval of `n` seconds and a grace period of `g` whose sum int64
  -- nanoseconds can hold, also if the schedule was missed before.
  pub get-detect-touch :
      (pre rows : List ScheduleRow) (row : ScheduleRow) (at now : Time) (n g : ℕ)
      → IsDistinct schedule_key (pre ++ row ∷ rows)
      → row.cron_expression ≡ none
      → row.expected_interval_seconds ≡ some (pos n)
      → row.grace_period_seconds ≡ pos g
      → (n + g) * second < int64_half
      → now <ℤ at +ℤ pos (n * second + g * second)
      → (get row.task_name
          (detect_missed parse_standard now
            (touch row.task_name at (quiet tasks (pre ++ row ∷ rows))).1).1).0
        ≡ ok (scan_schedule (touched_row at row))
  get-detect-touch pre rows row at now n g d c e k small early =
      let d' = IsDistinct-replace schedule_key pre rows row (touched_row at row) refl d in
      rw (touch-present tasks pre rows row d at) (
        rw (later at now (n * second + g * second) early) at
          (get-detect_interval pre rows (touched_row at row) d' now n g refl c e k small))
