-- ===== src/Database/Rounds.antt =====
-- The shape that `SweepTimeouts` and `DetectMissed` share: the rows of a SELECT are scanned into
-- candidates, then a loop updates one row for each candidate that is late and reads it back.
pub mod Effects
pub mod Refinement
use chronos_monitor.Prelude.{
  ℕ, zero, suc, ◌≡◌, refl, ap, ◌∙◌, ◌⊎◌, inl, inr, List, [], ◌∷◌, ◌++◌, map, Option, none, some,
  Bool, true, false, Bool-cases, String, if◌then◌else◌,
}
use mathlib.Core.List.{append_assoc, append-nil}
use chronos_monitor.Database.{Db, Error, Result, ok, err, M, RowsAffected, affected_or_zero}
use chronos_monitor.Database.Keys.{IsDistinct}
use chronos_monitor.Database.OneRow.{IsDistinct-replace}
use chronos_monitor.Database.Steps.{StateOrder, Steps}

-- One round of the loop: `continue`, a row that was transitioned, or an early return.
pub data Visit (A : Type 0) : Type 0 where
  skipped : Visit A
  transitioned : A → Visit A
  stopped : Error → Visit A

-- The rows that were transitioned, and the error that ended the loop early, if any.
pub record Swept (A : Type 0) : Type 0 where
  pub found : List A
  pub error : Option Error

module _ {A : Type 0} where
  abbrev pub visit_of : Result A × Db → Visit A × Db
  visit_of (ok a, db) = (transitioned a, db)
  visit_of (err e, db) = (stopped e, db)

  -- `if n, _ := res.RowsAffected(); n == 0 { continue }`, then the row is read
  abbrev pub read_back : ℕ → M A → Db → Visit A × Db
  read_back zero read db = (skipped, db)
  read_back (suc n) read db = visit_of (read db)

  abbrev pub after_update : M A → Result RowsAffected × Db → Visit A × Db
  after_update read (ok n, db) = read_back (affected_or_zero n) read db
  after_update read (err e, db) = (stopped e, db)

  abbrev pub sweep_next : Visit A × Db → (List A → Db → Swept A × Db) → List A → Swept A × Db
  sweep_next (skipped, db) rest acc = rest acc db
  sweep_next (transitioned a, db) rest acc = rest (acc ++ a ∷ []) db
  sweep_next (stopped e, db) rest acc = (record { found = acc; error = some e }, db)

module _ {A C : Type 0} (visit : C → Db → Visit A × Db) where
  -- the loop over the candidates
  unfoldable pub sweep_loop : List C → List A → Db → Swept A × Db
  sweep_loop [] acc db = (record { found = acc; error = none }, db)
  sweep_loop (c ∷ cs) acc db = sweep_next (visit c db) (sweep_loop cs) acc

  abbrev pub sweep_from : Result (List C) × Db → Swept A × Db
  sweep_from (ok cs, db) = sweep_loop cs [] db
  sweep_from (err e, db) = (record { found = []; error = some e }, db)

module _ {Row C : Type 0} (candidate_of : Row → Option C) where
  abbrev pub add_candidate : Option C → List C → List C
  add_candidate none cs = cs
  add_candidate (some c) cs = c ∷ cs

  -- the loop over `rows.Next`
  unfoldable pub candidates : List Row → List C
  candidates [] = []
  candidates (row ∷ rows) = add_candidate (candidate_of row) (candidates rows)

-- The description row by row: which rows are late, and what a late row becomes.
module _ {Row : Type 0} (is_late : Row → Bool) (change : Row → Row) where
  abbrev pub swept_row : Row → Row
  swept_row row = if is_late row then change row else row

  -- The rows that the loop should return, in the order of the table.
  unfoldable pub found_in : {A : Type 0} → (Row → A) → List Row → List A
  found_in view [] = []
  found_in view (row ∷ rows) =
      let rest = found_in view rows in if is_late row then view (change row) ∷ rest else rest
