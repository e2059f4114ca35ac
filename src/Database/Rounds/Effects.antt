-- ===== src/Database/Rounds/Effects.antt =====
-- What every update and read of the loop respects, the loop respects.
use chronos_monitor.Prelude.{ℕ, zero, suc, List, [], ◌∷◌, ◌++◌}
use chronos_monitor.Database.{Db, Result, ok, err, M, RowsAffected, affected_or_zero}
use chronos_monitor.Database.Steps.{StateOrder, Steps}
use chronos_monitor.Database.Rounds.{
  Visit, skipped, transitioned, stopped, Swept, visit_of, read_back, after_update, sweep_next,
  sweep_loop, sweep_from,
}

module _ (R : Db → Db → Type 0) (o : StateOrder R) where
  module _ {A : Type 0} (read : M A) (reads : Steps R o read) where
    visit_of-state : (a : Db) (x : Result A × Db) → R a x.1 → R a (visit_of x).1
    visit_of-state a (ok t, db) h = h
    visit_of-state a (err e, db) h = h

    read_back-Steps : (n : ℕ) (db : Db) → R db (read_back n read db).1
    read_back-Steps zero db = o.start db
    read_back-Steps (suc n) db = visit_of-state db (read db) (reads db)

    pub after_update-state :
        (a : Db) (x : Result RowsAffected × Db) → R a x.1 → R a (after_update read x).1
    after_update-state a (ok n, db) h = o.then_ a db _ h (read_back-Steps (affected_or_zero n) db)
    after_update-state a (err e, db) h = h

  module _ {A C : Type 0} (visit : C → Db → Visit A × Db)
      (visits : (c : C) (db : Db) → R db (visit c db).1) where
    sweep_next-state :
        (rest : List A → Db → Swept A × Db) (acc : List A) (a : Db) (x : Visit A × Db)
        → ((acc' : List A) (db : Db) → R db (rest acc' db).1)
        → R a x.1
        → R a (sweep_next x rest acc).1
    sweep_next-state rest acc a (skipped, db) hr h = o.then_ a db _ h (hr acc db)
    sweep_next-state rest acc a (transitioned t, db) hr h = o.then_ a db _ h (hr (acc ++ t ∷ []) db)
    sweep_next-state rest acc a (stopped e, db) hr h = h

    sweep_loop-Steps : (cs : List C) (acc : List A) (db : Db) → R db (sweep_loop visit cs acc db).1
    unfolding sweep_loop
    sweep_loop-Steps [] acc db = o.start db
    sweep_loop-Steps (c ∷ cs) acc db =
        sweep_next-state (sweep_loop visit cs) acc db (visit c db) (sweep_loop-Steps cs)
          (visits c db)

    pub sweep_from-state :
        (a : Db) (x : Result (List C) × Db) → R a x.1 → R a (sweep_from visit x).1
    sweep_from-state a (ok cs, db) h = o.then_ a db _ h (sweep_loop-Steps cs [] db)
    sweep_from-state a (err e, db) h = h
