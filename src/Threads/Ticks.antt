-- ===== src/Threads/Ticks.antt =====
-- One tick of `SweepTimeouts` with `sweepOnce` (internal/sweeper/sweeper.go), or of `DetectMissed`
-- with `checkOnce` (internal/missedrun/detector.go), one access to the database or the hub at a
-- time: the SELECT, then for each late row an UPDATE and a SELECT, then one `Publish` for each row.
use chronos_monitor.Prelude.{
  ℕ, zero, suc, List, [], ◌∷◌, ◌++◌, map, Option, none, some, Bool, if◌then◌else◌,
}
use chronos_monitor.Database.{Db, Result, ok, err, M, Write, RowsAffected, affected_or_zero, exec}
use chronos_monitor.Broker.{Event, Hub, publish}
use chronos_monitor.Server.{Server}

-- Where a tick stands: before the SELECT; at the head of the loop, with the candidates to come and
-- the rows that were transitioned; before a transitioned row is read back; before the events are
-- published; at its end.
pub data Tick (C A : Type 0) : Type 0 where
  querying : Tick C A
  visiting : List C → List A → Tick C A
  reading : List C → List A → C → Tick C A
  publishing : List Event → Tick C A
  over : Tick C A

module _ {C A : Type 0} where
  abbrev pub after_select : Result (List C) × Db → Hub → Tick C A × Server
  after_select (ok cs, db) hub = (Tick.visiting cs [], record { db = db; hub = hub })
  after_select (err e, db) hub = (Tick.over, record { db = db; hub = hub })

  -- `if n, _ := res.RowsAffected(); n == 0 { continue }`
  abbrev pub after_count : ℕ → List C → List A → C → Tick C A
  after_count zero cs found c = Tick.visiting cs found
  after_count (suc n) cs found c = Tick.reading cs found c

  abbrev pub after_write : Result RowsAffected × Db → List C → List A → C → Hub → Tick C A × Server
  after_write (ok n, db) cs found c hub =
      (after_count (affected_or_zero n) cs found c, record { db = db; hub = hub })
  after_write (err e, db) cs found c hub = (Tick.over, record { db = db; hub = hub })

  abbrev pub after_read : Result A × Db → List C → List A → Hub → Tick C A × Server
  after_read (ok a, db) cs found hub =
      (Tick.visiting cs (found ++ a ∷ []), record { db = db; hub = hub })
  after_read (err e, db) cs found hub = (Tick.over, record { db = db; hub = hub })

  abbrev pub after_publish : Option Hub → List Event → Db → Option (Tick C A × Server)
  after_publish none evts db = none
  after_publish (some hub) evts db = some (Tick.publishing evts, record { db = db; hub = hub })

module _ {C A : Type 0} (select : M (List C)) (is_early : C → Bool) (write : C → Write)
    (read : C → M A) (event_of : A → Event) where
  -- The next access of a tick; `none` for a panic of the hub.
  unfoldable pub tick_move : Tick C A → Server → Option (Tick C A × Server)
  tick_move Tick.querying s = some (after_select (select s.db) s.hub)
  tick_move (Tick.visiting [] found) s = some (Tick.publishing (map event_of found), s)
  tick_move (Tick.visiting (c ∷ cs) found) s =
      if is_early c
      then some (Tick.visiting cs found, s)
      else some (after_write (exec (write c) s.db) cs found c s.hub)
  tick_move (Tick.reading cs found c) s = some (after_read (read c s.db) cs found s.hub)
  tick_move (Tick.publishing []) s = some (Tick.over, s)
  tick_move (Tick.publishing (evt ∷ evts)) s = after_publish (publish evt s.hub) evts s.db
  tick_move Tick.over s = some (Tick.over, s)
