-- ===== src/Threads/Safety.antt =====
-- What holds however the server's threads are interleaved: the hub does not panic, and both tables
-- and the hub stay in good order after every access.
use chronos_monitor.Prelude.{◌≡◌, refl, String, ℤ, Option, none, some, Bool}
use chronos_monitor.Clock.{Time}
use chronos_monitor.Models.{TaskStatus}
use chronos_monitor.Database.{Db, Error, Result, ok, err, exec, check_rows_affected}
use chronos_monitor.Database.Steps.{exec-Steps, query-Steps, bind-Steps, check_rows_affected-Steps}
use chronos_monitor.Tasks as Tasks
use chronos_monitor.Tasks.{expire}
use chronos_monitor.Tasks.Invariant.{IsFinal, update-IsWellFormed, finish_row-IsShaped}
use chronos_monitor.Tasks.Effects.{get_row-Steps}
use chronos_monitor.Schedules as Schedules
use chronos_monitor.Schedules.{flag, missed_row}
use chronos_monitor.Schedules.Invariant.{update-AreRegistered}
use chronos_monitor.Schedules.Effects as Writes
use chronos_monitor.Broker.{Event, Hub, publish}
use chronos_monitor.Broker.Publishing.{IsSound, publish_lem}
use chronos_monitor.Broker.Soundness.{offered-IsSound}
use chronos_monitor.Server.{Server, with_db}
use chronos_monitor.TaskHandler.{started_event}
use chronos_monitor.Cleaner.{cutoff_of, clean_once}
use chronos_monitor.System.{
  Request, start, heartbeat, success, failed, get_task, list_tasks, register, list_schedules,
  delete_schedule, serve,
}
use chronos_monitor.System.Stores.{
  IsConsistent, Keeps, Keeps-order, on_runs, on_schedules, create-Keeps, heartbeat-Keeps, get-Keeps,
  touch-Keeps, delete_older_than-Keeps,
}
use chronos_monitor.System.Invariant.{IsHealthy, serve_lem}
use chronos_monitor.Threads.{
  Point, enter, after_statement, at_point, answered_of, with_tick, end_run, move,
}
use chronos_monitor.Threads.Ticks.{Tick}
use chronos_monitor.Threads.TickSafety.{Leads, IsGood, tick_move-IsGood}

-- What a thread holds on to: a run is created as running and finished with a final status.
abbrev pub IsLegal : Point → Type 0
IsLegal (Point.creating t) = t.status ≡ TaskStatus.running
IsLegal (Point.locating run_id status message now kind) = IsFinal status
IsLegal (Point.finishing run_id status message now kind duration) = IsFinal status
IsLegal (Point.announcing t) = Unit
IsLegal (Point.touching t) = Unit
IsLegal (Point.beating run_id now) = Unit
IsLegal (Point.rereading run_id kind) = Unit
IsLegal (Point.publishing evt) = Unit
IsLegal (Point.at_once q now) = Unit
IsLegal (Point.sweeping now t) = Unit
IsLegal (Point.checking now t) = Unit
IsLegal (Point.cleaning c now) = Unit
IsLegal (Point.answered r) = Unit
IsLegal Point.cleaned = Unit

pub enter-IsLegal : (q : Request) (now : Time) → IsLegal (enter q now)
unfolding enter
enter-IsLegal (start none new_string) now = tt
enter-IsLegal (start (some req) new_string) now = refl
enter-IsLegal (heartbeat none) now = tt
enter-IsLegal (heartbeat (some req)) now = tt
enter-IsLegal (success none) now = tt
enter-IsLegal (success (some req)) now = tt
enter-IsLegal (failed none) now = tt
enter-IsLegal (failed (some req)) now = tt
enter-IsLegal (get_task run_id) now = tt
enter-IsLegal (list_tasks status) now = tt
enter-IsLegal (register body) now = tt
enter-IsLegal list_schedules now = tt
enter-IsLegal (delete_schedule task_name) now = tt

after_statement-IsLegal {ℓ} :
    {A : Type ℓ} (next : A → Point) (refuse : Error → Point) (x : Result A × Db) (hub : Hub)
    → ((a : A) → IsLegal (next a))
    → ((e : Error) → IsLegal (refuse e))
    → IsLegal (after_statement next refuse x hub).0
unfolding after_statement
after_statement-IsLegal next refuse (ok a, db) hub f g = f a
after_statement-IsLegal next refuse (err e, db) hub f g = g e

pub after_statement-server {ℓ} :
    {A : Type ℓ} (next : A → Point) (refuse : Error → Point) (x : Result A × Db) (hub : Hub)
    → (after_statement next refuse x hub).1 ≡ record { db = x.1; hub = hub }
unfolding after_statement
after_statement-server next refuse (ok a, db) hub = refl
after_statement-server next refuse (err e, db) hub = refl

at_publish-Leads :
    (Q : Point → Server → Type 0) (p : Point) (evt : Event) (s : Server)
    → IsSound s.hub
    → ((hub : Hub) → IsSound hub → Q p (record { db = s.db; hub = hub }))
    → Leads Q (at_point p (with_db s.db (publish evt s.hub)))
unfolding at_point
at_publish-Leads Q p evt s h f = rw (publish_lem evt s.hub h) (f _ (offered-IsSound evt s.hub h))

with_tick-Leads :
    {C A : Type 0} (Q : Server → Type 0) (R : Point → Server → Type 0) (point : Tick C A → Point)
    (x : Option (Tick C A × Server))
    → ((t : Tick C A) (s : Server) → Q s → R (point t) s)
    → Leads (λ t s. Q s) x
    → Leads R (with_tick point x)
unfolding with_tick
with_tick-Leads Q R point none f h = absurd h
with_tick-Leads Q R point (some (t, s)) f h = f t s h

module _ (format : Time → String) (parse_standard : String → Option (Time → Time))
    (collates : String → String → Bool) where
  -- Where a thread goes from a server in good order.
  abbrev pub GoesOn : Point → Server → Type 0
  GoesOn p s = IsLegal p × IsHealthy format parse_standard collates s

  end_run-Keeps :
      (run_id : String) (status : TaskStatus) (message : String) (at : Time) (duration : ℤ)
      (db : Db)
      → IsFinal status
      → Keeps parse_standard db (end_run run_id status message at duration db).1
  unfolding end_run
  end_run-Keeps run_id status message at duration db f =
      bind-Steps (Keeps parse_standard) (Keeps-order parse_standard) (exec _) check_rows_affected
        (exec-Steps (Keeps parse_standard) (Keeps-order parse_standard) _ λ d.
          on_runs parse_standard d _ refl (
            update-IsWellFormed _ _ (λ row. refl)
              (λ row p s. finish_row-IsShaped status at duration message row f s.1) d))
        (check_rows_affected-Steps (Keeps parse_standard) (Keeps-order parse_standard)) db

  expire-Keeps :
      (now : Time) (c : Tasks.Candidate) (db : Db)
      → Keeps parse_standard db (exec (expire now c) db).1
  expire-Keeps now c = exec-Steps (Keeps parse_standard) (Keeps-order parse_standard) _ λ d.
      on_runs parse_standard d _ refl (
        update-IsWellFormed _ _ (λ row. refl)
          (λ row p s. finish_row-IsShaped TaskStatus.timeout now _ _ row tt s.1) d)

  flag-Keeps :
      (now : Time) (c : Schedules.Candidate) (db : Db)
      → Keeps parse_standard db (exec (flag now c) db).1
  flag-Keeps now c = exec-Steps (Keeps parse_standard) (Keeps-order parse_standard) _ λ d.
      on_schedules parse_standard d _ refl
        (update-AreRegistered parse_standard _ (missed_row now) (λ row. refl) (λ row r. r) d)

  stated :
      {A : Type 0} (next : A → Point) (refuse : Error → Point) (x : Result A × Db) (s : Server)
      → IsHealthy format parse_standard collates s
      → Keeps parse_standard s.db x.1
      → ((a : A) → IsLegal (next a))
      → ((e : Error) → IsLegal (refuse e))
      → Leads GoesOn (some (after_statement next refuse x s.hub))
  stated next refuse x s h k f g = (
    after_statement-IsLegal next refuse x s.hub f g,
    rw (after_statement-server next refuse x s.hub) (record { db = k h.db; hub = h.hub }),
  )

  published :
      (p : Point) (evt : Event) (s : Server)
      → IsLegal p
      → IsHealthy format parse_standard collates s
      → Leads GoesOn (at_point p (with_db s.db (publish evt s.hub)))
  published p evt s l h =
      at_publish-Leads GoesOn p evt s h.hub (λ hub k. (l, record { db = h.db; hub = k }))

  answers :
      (q : Request) (now : Time) (s : Server)
      → IsHealthy format parse_standard collates s
      → Leads GoesOn (answered_of (serve format parse_standard collates q now s))
  unfolding answered_of
  answers q now s h =
      let (r, s', e, k, published) = serve_lem format parse_standard collates q now s h in
      rw e (tt, k)

  ticked :
      {C A : Type 0} (point : Tick C A → Point) (x : Option (Tick C A × Server))
      → ((t : Tick C A) → IsLegal (point t))
      → Leads (λ t s. IsGood (IsConsistent parse_standard) s) x
      → Leads GoesOn (with_tick point x)
  ticked point x l =
      with_tick-Leads (IsGood (IsConsistent parse_standard)) GoesOn point x
        (λ t s g. (l t, record { db = g.0; hub = g.1 }))

  pub move-GoesOn :
      (p : Point) (s : Server)
      → IsLegal p
      → IsHealthy format parse_standard collates s
      → Leads GoesOn (move format parse_standard collates p s)
  unfolding move clean_once
  move-GoesOn (Point.creating t) s l h =
      stated _ _ _ s h (create-Keeps parse_standard t s.db l) (λ _. tt) (λ e. tt)
  move-GoesOn (Point.announcing t) s l h = published (Point.touching t) (started_event t) s tt h
  move-GoesOn (Point.touching t) s l h = (
    tt,
    record { db = touch-Keeps parse_standard t.task_name t.started_at s.db h.db; hub = h.hub },
  )
  move-GoesOn (Point.beating run_id now) s l h =
      stated _ _ _ s h (heartbeat-Keeps parse_standard run_id now s.db) (λ _. tt) (λ e. tt)
  move-GoesOn (Point.locating run_id status message now kind) s l h =
      stated _ _ _ s h
        (get_row-Steps (Keeps parse_standard) (Keeps-order parse_standard) run_id s.db) (λ _. l)
        (λ e. tt)
  move-GoesOn (Point.finishing run_id status message now kind duration) s l h =
      stated _ _ _ s h (end_run-Keeps run_id status message now duration s.db l) (λ _. tt) (λ e. tt)
  move-GoesOn (Point.rereading run_id kind) s l h =
      stated _ _ _ s h (get-Keeps parse_standard run_id s.db) (λ _. tt) (λ e. tt)
  move-GoesOn (Point.publishing evt) s l h = published (Point.answered _) evt s tt h
  move-GoesOn (Point.at_once q now) s l h = answers q now s h
  move-GoesOn (Point.sweeping now t) s l h =
      ticked (Point.sweeping now) _ (λ t'. tt)
        (tick_move-IsGood _ _ (IsConsistent parse_standard) _ _ _ _ _
          (query-Steps (Keeps parse_standard) (Keeps-order parse_standard) _) (expire-Keeps now)
          (λ c. get-Keeps parse_standard c.run_id) t s h.db h.hub)
  move-GoesOn (Point.checking now t) s l h =
      ticked (Point.checking now) _ (λ t'. tt)
        (tick_move-IsGood _ _ (IsConsistent parse_standard) _ _ _ _ _
          (query-Steps (Keeps parse_standard) (Keeps-order parse_standard) _) (flag-Keeps now)
          (λ c. Writes.get-Steps (Keeps parse_standard) (Keeps-order parse_standard) c.task_name) t
          s h.db h.hub)
  move-GoesOn (Point.cleaning c now) s l h = (
    tt,
    record { db = delete_older_than-Keeps parse_standard (cutoff_of c now) s.db h.db; hub = h.hub },
  )
  move-GoesOn (Point.answered r) s l h = (tt, h)
  move-GoesOn Point.cleaned s l h = (tt, h)
