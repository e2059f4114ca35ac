-- ===== src/Sweeper/Publishing.antt =====
-- What a tick of the TTL sweep writes and publishes.
use chronos_monitor.Prelude.{ℕ, ◌≡◌, refl, List, [], ◌∷◌, ◌++◌, map, take, Option, none, some, true}
use chronos_monitor.Clock.{Time}
use chronos_monitor.Database.{TaskRow, ScheduleRow, Db, Error}
use chronos_monitor.Database.Keys.{IsDistinct}
use chronos_monitor.Database.Rounds.{Swept, swept_row, found_in}
use chronos_monitor.Tasks.{scan_task_run}
use chronos_monitor.Tasks.Invariant.{run_key}
use chronos_monitor.Tasks.Sweep.{quiet, is_overdue, timed_out_row, sweep_timeouts_lem}
use chronos_monitor.Broker.{Event, Hub, capacity, has_sub}
use chronos_monitor.Broker.Publishing.{IsSound, offered, publish_lem}
use chronos_monitor.Broker.Soundness.{offered-IsSound}
use chronos_monitor.Broker.Runs.{publish_all, publish_all_lem}
use chronos_monitor.Server.{Leaves}
use chronos_monitor.Sweeper.{timeout_event, publish_swept, after_sweep, sweep_once}

pub publish_all-IsSound :
    (evts : List Event) (hub : Hub)
    → IsSound hub
    → (hub' : Hub) × (publish_all evts hub ≡ some hub') × IsSound hub'
unfolding publish_all
publish_all-IsSound [] hub s = (hub, refl, s)
publish_all-IsSound (evt ∷ evts) hub s =
    rw (publish_lem evt hub s)
      (publish_all-IsSound evts (offered evt hub.subs hub) (offered-IsSound evt hub s))

-- A tick, whatever the outcomes: no panic, and the hub stays sound.
module _ {A : Type 0} (event_of : A → Event) where
  publish_swept-IsSound :
      (P : Db → Type 0) (e : Option Error) (found : List A) (db : Db) (hub : Hub)
      → P db
      → IsSound hub
      → Leaves (λ s. P s.db × IsSound s.hub) (publish_swept event_of e found db hub)
  publish_swept-IsSound P (some e) found db hub p s = (p, s)
  publish_swept-IsSound P none found db hub p s =
      let (hub', e, s') = publish_all-IsSound (map event_of found) hub s in rw e (p, s')

  pub after_sweep-IsSound :
      (P : Db → Type 0) (x : Swept A × Db) (hub : Hub)
      → P x.1
      → IsSound hub
      → Leaves (λ s. P s.db × IsSound s.hub) (after_sweep event_of x hub)
  after_sweep-IsSound P (swept, db) hub p s =
      publish_swept-IsSound P swept.error swept.found db hub p s

-- With no driver error, a tick on a table with distinct run ids and a sound hub times out the runs
-- that are overdue and no others, and each subscriber holds what it held and then one timeout event
-- for each of them in the order of the table, as the row now stands, cut off at 16 events.
pub sweep_once_lem :
    (now : Time) (rows : List TaskRow) (schedules : List ScheduleRow) (hub : Hub) (id : ℕ)
    → IsDistinct run_key rows
    → IsSound hub
    → has_sub id hub.subs ≡ true
    → (hub' : Hub) × (sweep_once now (record { db = quiet rows schedules; hub = hub })
        ≡ some (record {
          db = quiet (map (swept_row (is_overdue now) (timed_out_row now)) rows) schedules;
          hub = hub';
        }))
      × ((hub'.channels id).queue
          ≡ take capacity (
              (hub.channels id).queue
              ++ map timeout_event
                  (found_in (is_overdue now) (timed_out_row now) scan_task_run rows)))
unfolding sweep_once
sweep_once_lem now rows schedules hub id d s h =
    let evts =
      map timeout_event (found_in (is_overdue now) (timed_out_row now) scan_task_run rows) in
    let (hub', e, q) = publish_all_lem evts hub id s h in
    (hub', rw (sweep_timeouts_lem now rows schedules d, e) refl, q)
