-- ===== src/Threads/TickSafety.antt =====
-- What holds of a tick after each access: the hub does not panic and stays sound.
use chronos_monitor.Prelude.{List, [], ◌∷◌, Option, none, some, Bool, Bool-cases, inl, inr}
use chronos_monitor.Database.{Db, Result, ok, err, M, Write, RowsAffected, exec}
use chronos_monitor.Broker.{Event, Hub}
use chronos_monitor.Broker.Publishing.{IsSound, publish_lem}
use chronos_monitor.Broker.Soundness.{offered-IsSound}
use chronos_monitor.Server.{Server}
use chronos_monitor.Threads.Ticks.{Tick, after_select, after_write, after_read, tick_move}

-- Without a panic, and with what holds of the next stop.
abbrev pub Leads : {P : Type 0} → (P → Server → Type 0) → Option (P × Server) → Type 0
Leads Q none = ⊥
Leads Q (some (p, s)) = Q p s

abbrev pub IsGood : (Db → Type 0) → Server → Type 0
IsGood P s = P s.db × IsSound s.hub

module _ (C A : Type 0) (P : Db → Type 0) where
  after_select-IsGood :
      (x : Result (List C) × Db) (hub : Hub)
      → P x.1
      → IsSound hub
      → IsGood P (after_select {C = C} {A = A} x hub).1
  after_select-IsGood (ok cs, db) hub p h = (p, h)
  after_select-IsGood (err e, db) hub p h = (p, h)

  after_write-IsGood :
      (x : Result RowsAffected × Db) (cs : List C) (found : List A) (c : C) (hub : Hub)
      → P x.1
      → IsSound hub
      → IsGood P (after_write x cs found c hub).1
  after_write-IsGood (ok n, db) cs found c hub p h = (p, h)
  after_write-IsGood (err e, db) cs found c hub p h = (p, h)

  after_read-IsGood :
      (x : Result A × Db) (cs : List C) (found : List A) (hub : Hub)
      → P x.1
      → IsSound hub
      → IsGood P (after_read x cs found hub).1
  after_read-IsGood (ok a, db) cs found hub p h = (p, h)
  after_read-IsGood (err e, db) cs found hub p h = (p, h)

  module _ (select : M (List C)) (is_early : C → Bool) (write : C → Write) (read : C → M A)
      (event_of : A → Event) (selects : (db : Db) → P db → P (select db).1)
      (writes : (c : C) (db : Db) → P db → P (exec (write c) db).1)
      (reads : (c : C) (db : Db) → P db → P (read c db).1) where
    pub tick_move-IsGood :
        (t : Tick C A) (s : Server)
        → P s.db
        → IsSound s.hub
        → Leads (λ t' s'. IsGood P s') (tick_move select is_early write read event_of t s)
    unfolding tick_move
    tick_move-IsGood Tick.querying s p h =
        after_select-IsGood (select s.db) s.hub (selects s.db p) h
    tick_move-IsGood (Tick.visiting [] found) s p h = (p, h)
    tick_move-IsGood (Tick.visiting (c ∷ cs) found) s p h = elim (Bool-cases (is_early c)) [
      | inl early ↦ rw early (p, h)
      | inr late ↦
          rw late (after_write-IsGood (exec (write c) s.db) cs found c s.hub (writes c s.db p) h)
    ]
    tick_move-IsGood (Tick.reading cs found c) s p h =
        after_read-IsGood (read c s.db) cs found s.hub (reads c s.db p) h
    tick_move-IsGood (Tick.publishing []) s p h = (p, h)
    tick_move-IsGood (Tick.publishing (evt ∷ evts)) s p h =
        rw (publish_lem evt s.hub h) (p, offered-IsSound evt s.hub h)
    tick_move-IsGood Tick.over s p h = (p, h)
