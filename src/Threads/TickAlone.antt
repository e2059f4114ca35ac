-- ===== src/Threads/TickAlone.antt =====
-- A tick that nobody interrupts does what `sweep_once` and `check_once` describe in one piece.
use chronos_monitor.Prelude.{
  ℕ, zero, suc, ◌≡◌, refl, List, [], ◌∷◌, Option, none, some, Bool, Bool-cases, inl, inr,
  if◌then◌else◌,
}
use chronos_monitor.Database.{Db, Result, ok, err, M, Write, RowsAffected, affected_or_zero, exec}
use chronos_monitor.Database.Rounds.{
  Visit, skipped, visit_of, read_back, after_update, sweep_next, sweep_loop, sweep_from,
}
use chronos_monitor.Broker.{Event, Hub, and_then, publish}
use chronos_monitor.Broker.Runs.{publish_all}
use chronos_monitor.Server.{Server, with_db}
use chronos_monitor.Sweeper.{after_sweep}
use chronos_monitor.Threads.Ticks.{
  Tick, after_select, after_count, after_write, after_read, after_publish, tick_move,
}

abbrev pub then_ :
    {P : Type 0} → Option (P × Server) → (P → Server → Option (P × Server)) → Option (P × Server)
then_ none f = none
then_ (some (p, s)) f = f p s

abbrev pub ended : {C A : Type 0} → Option Server → Option (Tick C A × Server)
ended none = none
ended (some s) = some (Tick.over, s)

module _ {C A : Type 0} (select : M (List C)) (is_early : C → Bool) (write : C → Write)
    (read : C → M A) (event_of : A → Event) where
  abbrev visit : C → Db → Visit A × Db
  visit c db = if is_early c then (skipped, db) else after_update (read c) (exec (write c) db)

  -- What is left to do of a tick, in one piece.
  abbrev pub tick_rest : Tick C A → Server → Option (Tick C A × Server)
  tick_rest Tick.querying s = ended (after_sweep event_of (sweep_from visit (select s.db)) s.hub)
  tick_rest (Tick.visiting cs found) s =
      ended (after_sweep event_of (sweep_loop visit cs found s.db) s.hub)
  tick_rest (Tick.reading cs found c) s =
      ended (
        after_sweep event_of (sweep_next (visit_of (read c s.db)) (sweep_loop visit cs) found)
          s.hub)
  tick_rest (Tick.publishing evts) s = ended (with_db s.db (publish_all evts s.hub))
  tick_rest Tick.over s = some (Tick.over, s)

  selected :
      (x : Result (List C) × Db) (hub : Hub)
      → tick_rest (after_select x hub).0 (after_select {A = A} x hub).1
        ≡ ended (after_sweep event_of (sweep_from visit x) hub)
  selected (ok cs, db) hub = refl
  selected (err e, db) hub = refl

  counted :
      (n : ℕ) (cs : List C) (found : List A) (c : C) (db : Db) (hub : Hub)
      → tick_rest (after_count n cs found c) (record { db = db; hub = hub })
        ≡ ended (
            after_sweep event_of
              (sweep_next (read_back n (read c) db) (sweep_loop visit cs) found)
              hub)
  counted zero cs found c db hub = refl
  counted (suc n) cs found c db hub = refl

  written :
      (x : Result RowsAffected × Db) (cs : List C) (found : List A) (c : C) (hub : Hub)
      → tick_rest (after_write x cs found c hub).0 (after_write x cs found c hub).1
        ≡ ended (
            after_sweep event_of
              (sweep_next (after_update (read c) x) (sweep_loop visit cs) found)
              hub)
  written (ok n, db) cs found c hub = counted (affected_or_zero n) cs found c db hub
  written (err e, db) cs found c hub = refl

  was_read :
      (x : Result A × Db) (cs : List C) (found : List A) (hub : Hub)
      → tick_rest (after_read x cs found hub).0 (after_read {C = C} x cs found hub).1
        ≡ ended (after_sweep event_of (sweep_next (visit_of x) (sweep_loop visit cs) found) hub)
  was_read (ok a, db) cs found hub = refl
  was_read (err e, db) cs found hub = refl

  was_published :
      (hub : Option Hub) (evts : List Event) (db : Db)
      → then_ (after_publish {C = C} {A = A} hub evts db) tick_rest
        ≡ ended (with_db db (and_then hub (publish_all evts)))
  was_published none evts db = refl
  was_published (some hub) evts db = refl

  pub tick_move-rest :
      (t : Tick C A) (s : Server)
      → then_ (tick_move select is_early write read event_of t s) tick_rest ≡ tick_rest t s
  unfolding tick_move sweep_loop publish_all
  tick_move-rest Tick.querying s = selected (select s.db) s.hub
  tick_move-rest (Tick.visiting [] found) s = refl
  tick_move-rest (Tick.visiting (c ∷ cs) found) s = elim (Bool-cases (is_early c)) [
    | inl early ↦ rw early refl
    | inr late ↦ rw late (written (exec (write c) s.db) cs found c s.hub)
  ]
  tick_move-rest (Tick.reading cs found c) s = was_read (read c s.db) cs found s.hub
  tick_move-rest (Tick.publishing []) s = refl
  tick_move-rest (Tick.publishing (evt ∷ evts)) s = was_published (publish evt s.hub) evts s.db
  tick_move-rest Tick.over s = refl
