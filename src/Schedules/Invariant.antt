-- ===== src/Schedules/Invariant.antt =====
-- The invariant of the table task_schedules: one row for each name, with an expectation that
-- registration lets through.
use chronos_monitor.Prelude.{
  String, ℤ, pos, ◌≤ℤ◌, ◌<ℤ◌, ◌≡◌, ◌≢◌, refl, [], ◌∷◌, Option, none, some, Bool, All, All-append,
}
use chronos_monitor.Clock.{Time}
use chronos_monitor.Database.{ScheduleRow, Db}
use chronos_monitor.Database.Table.{find_where}
use chronos_monitor.Database.Keys.{
  IsDistinct, IsDistinct-concat, IsDistinct-update, IsDistinct-delete, IsFresh-find_where,
}
use chronos_monitor.Database.Rows.{All-update, All-delete}
use chronos_monitor.Database.Steps.{StateOrder}
use chronos_monitor.Schedules.{
  has_name, update_schedules, Expectation, registered_row, reregistered_row, upsert_with, upsert,
  touched_row, touch, delete, list, missed_row, detect_missed,
}
use chronos_monitor.Schedules.Detection.{schedule_key}
use chronos_monitor.Schedules.Effects.{
  upsert-Steps, touch-Steps, delete-Steps, list-Steps, detect_missed-Steps,
}

module _ (parse_standard : String → Option (Time → Time)) where
  -- A positive interval, and then no cron expression or an empty one; or, without an interval, a
  -- cron expression that is not empty and parses.
  abbrev pub HasMode : Option ℤ → Option String → Type 0
  HasMode (some n) none = pos 0 <ℤ n
  HasMode (some n) (some text) = (pos 0 <ℤ n) × (text ≡ "")
  HasMode none (some text) = (text ≢ "") × (parse_standard text ≢ none)
  HasMode none none = ⊥

  abbrev pub IsExpectation : Expectation → Type 0
  IsExpectation x = HasMode x.interval_seconds x.cron_expression × (pos 0 ≤ℤ x.grace_period_seconds)

  abbrev pub IsRegistered : ScheduleRow → Type 0
  IsRegistered row =
      HasMode row.expected_interval_seconds row.cron_expression
      × (pos 0 ≤ℤ row.grace_period_seconds)

  pub record AreRegistered (db : Db) : Type 0 where
    pub distinct : IsDistinct schedule_key db.task_schedules
    pub valid : All IsRegistered db.task_schedules

  abbrev Keeps : Db → Db → Type 0
  Keeps a b = AreRegistered a → AreRegistered b

  Keeps-order : StateOrder Keeps
  Keeps-order = record {
    start = λ db h. h;
    then_ = λ a b c f g h. g (f h);
    spent = λ db h. record { distinct = h.distinct; valid = h.valid };
  }

  pub update-AreRegistered :
      (p : ScheduleRow → Bool) (f : ScheduleRow → ScheduleRow)
      → ((row : ScheduleRow) → schedule_key (f row) ≡ schedule_key row)
      → ((row : ScheduleRow) → IsRegistered row → IsRegistered (f row))
      → (db : Db) → Keeps db (update_schedules p f db).1
  update-AreRegistered p f keeps valid db h = record {
    distinct = IsDistinct-update schedule_key p f db.task_schedules keeps h.distinct;
    valid = All-update IsRegistered p f db.task_schedules (λ row e. valid row) h.valid;
  }

  upsert_with-AreRegistered :
      (old : Option ScheduleRow) (task_name : String) (x : Expectation) (now : Time) (db : Db)
      → find_where (has_name task_name) db.task_schedules ≡ old
      → IsExpectation x
      → Keeps db (upsert_with old task_name x now db).1
  upsert_with-AreRegistered none task_name x now db e v h = record {
    distinct =
        IsDistinct-concat schedule_key db.task_schedules (registered_row task_name x now) h.distinct
          (IsFresh-find_where schedule_key task_name db.task_schedules e);
    valid =
        All-append IsRegistered db.task_schedules (registered_row task_name x now ∷ []) h.valid
          (v, tt);
  }
  upsert_with-AreRegistered (some old) task_name x now db e v h =
      update-AreRegistered (has_name task_name) (reregistered_row x now) (λ row. refl) (λ row r. v)
        db h

  pub upsert-AreRegistered :
      (task_name : String) (x : Expectation) (now : Time) (db : Db)
      → IsExpectation x
      → AreRegistered db
      → AreRegistered (upsert task_name x now db).1
  upsert-AreRegistered task_name x now db v =
      upsert-Steps Keeps Keeps-order task_name x now
        (λ d. upsert_with-AreRegistered _ task_name x now d refl v) db

  pub touch-AreRegistered :
      (task_name : String) (at : Time) (db : Db)
      → AreRegistered db
      → AreRegistered (touch task_name at db).1
  touch-AreRegistered task_name at =
      touch-Steps Keeps Keeps-order task_name at
        (update-AreRegistered (has_name task_name) (touched_row at) (λ row. refl) (λ row r. r))

  pub delete-AreRegistered :
      (task_name : String) (db : Db) → AreRegistered db → AreRegistered (delete task_name db).1
  delete-AreRegistered task_name = delete-Steps Keeps Keeps-order task_name (λ db h. record {
    distinct = IsDistinct-delete schedule_key _ db.task_schedules h.distinct;
    valid = All-delete IsRegistered _ db.task_schedules h.valid;
  })

  pub detect_missed-AreRegistered :
      (now : Time) (db : Db)
      → AreRegistered db
      → AreRegistered (detect_missed parse_standard now db).1
  detect_missed-AreRegistered now =
      detect_missed-Steps Keeps Keeps-order parse_standard now
        (λ c. update-AreRegistered _ (missed_row now) (λ row. refl) (λ row r. r))

  pub list-AreRegistered :
      (collates : String → String → Bool) (db : Db)
      → AreRegistered db
      → AreRegistered (list collates db).1
  list-AreRegistered = list-Steps Keeps Keeps-order
