-- ===== src/Database/Rounds/Refinement.antt =====
-- The loop against a description row by row: under distinct keys it changes the late rows in
-- place, returns them, and leaves the others alone.
use mathlib.Core.List.{append_assoc, append-nil}
use chronos_monitor.Prelude.{
  ◌≡◌, refl, ap, ◌∙◌, ◌⊎◌, inl, inr, List, [], ◌∷◌, ◌++◌, map, Option, none, some, Bool, true,
  false, Bool-cases, String,
}
use chronos_monitor.Database.{Db}
use chronos_monitor.Database.Keys.{IsDistinct, IsFresh}
use chronos_monitor.Database.OneRow.{IsDistinct-replace}
use chronos_monitor.Database.Rounds.{
  Visit, skipped, transitioned, sweep_next, sweep_loop, candidates, swept_row, found_in,
}

module _ {Row A C : Type 0} (key : Row → String) (candidate_of : Row → Option C)
    (visit : C → Db → Visit A × Db) (state : List Row → Db) (is_late : Row → Bool)
    (change : Row → Row) (view : Row → A) where
  -- A round with no candidate for the row, or one that leaves the state alone.
  abbrev pub Skips : Row → Type 0
  Skips row =
      (candidate_of row ≡ none)
      ⊎ ((c : C) × (candidate_of row ≡ some c) × ((db : Db) → visit c db ≡ (skipped, db)))

  -- A round that changes the row in its place and returns it.
  abbrev pub Changes : Row → Type 0
  Changes row =
      (c : C) × (candidate_of row ≡ some c)
      × ((pre rows : List Row)
          → IsDistinct key (pre ++ row ∷ rows)
          → visit c (state (pre ++ row ∷ rows))
            ≡ (transitioned (view (change row)), state (pre ++ change row ∷ rows)))

  module _ (same_key : (row : Row) → key (change row) ≡ key row)
      (early : (row : Row) → is_late row ≡ false → Skips row)
      (late : (row : Row) → is_late row ≡ true → Changes row) where
    sweep_loop-early :
        (rows : List Row) (row : Row) (acc : List A) (db : Db)
        → is_late row ≡ false
        → sweep_loop visit (candidates candidate_of (row ∷ rows)) acc db
          ≡ sweep_loop visit (candidates candidate_of rows) acc db
    unfolding sweep_loop candidates
    sweep_loop-early rows row acc db h = elim (early row h) [
      | inl no_candidate ↦ rw no_candidate refl
      | inr (c, found, skips) ↦
          rw found (
            ap (λ v. sweep_next v (sweep_loop visit (candidates candidate_of rows)) acc) (skips db))
    ]

    sweep_loop-late :
        (pre rows : List Row) (row : Row) (acc : List A)
        → IsDistinct key (pre ++ row ∷ rows)
        → is_late row ≡ true
        → sweep_loop visit (candidates candidate_of (row ∷ rows)) acc (state (pre ++ row ∷ rows))
          ≡ sweep_loop visit
              (candidates candidate_of rows)
              (acc ++ view (change row) ∷ [])
              (state (pre ++ change row ∷ rows))
    unfolding sweep_loop candidates
    sweep_loop-late pre rows row acc d h =
        let (c, found, changes) = late row h in
        rw found (
          ap (λ v. sweep_next v (sweep_loop visit (candidates candidate_of rows)) acc)
            (changes pre rows d))

    pub sweep_loop_lem :
        (pre rows : List Row) (acc : List A)
        → IsDistinct key (pre ++ rows)
        → sweep_loop visit (candidates candidate_of rows) acc (state (pre ++ rows)) ≡ (
          record { found = acc ++ found_in is_late change view rows; error = none },
          state (pre ++ map (swept_row is_late change) rows),
        )
    unfolding sweep_loop candidates found_in
    sweep_loop_lem pre [] acc d = rw (append-nil acc) refl
    sweep_loop_lem pre (row ∷ rows) acc d = elim (Bool-cases (is_late row)) [
      | inl h ↦ rw h (
          sweep_loop-late pre rows row acc d h
          ∙ simp append_assoc at (
              sweep_loop_lem (pre ++ change row ∷ []) rows (acc ++ view (change row) ∷ []) (
                rw (append_assoc pre (change row ∷ []) rows)
                  (IsDistinct-replace key pre rows row (change row) (same_key row) d))))
      | inr h ↦ rw h (
          sweep_loop-early rows row acc (state (pre ++ row ∷ rows)) h
          ∙ simp append_assoc at
              (sweep_loop_lem (pre ++ row ∷ []) rows acc (rw (append_assoc pre (row ∷ []) rows) d)))
    ]

-- A table that was swept has no late row left, if no changed row is late.
module _ {Row : Type 0} (is_late : Row → Bool) (change : Row → Row)
    (settled : (row : Row) → is_late (change row) ≡ false) where
  pub found_in-swept :
      {A : Type 0} (view : Row → A) (rows : List Row)
      → found_in is_late change view (map (swept_row is_late change) rows) ≡ []
  unfolding found_in
  found_in-swept view [] = refl
  found_in-swept view (row ∷ rows) = elim (Bool-cases (is_late row)) [
    | inl late ↦ rw late (rw (settled row) (found_in-swept view rows))
    | inr early ↦ rw early (rw early (found_in-swept view rows))
  ]

  pub swept_twice :
      (rows : List Row)
      → map (swept_row is_late change) (map (swept_row is_late change) rows)
        ≡ map (swept_row is_late change) rows
  swept_twice [] = refl
  swept_twice (row ∷ rows) = elim (Bool-cases (is_late row)) [
    | inl late ↦ rw late (rw (settled row) (ap (λ l. change row ∷ l) (swept_twice rows)))
    | inr early ↦ rw early (rw early (ap (λ l. row ∷ l) (swept_twice rows)))
  ]

module _ {Row : Type 0} (key : Row → String) (is_late : Row → Bool) (change : Row → Row)
    (same_key : (row : Row) → key (change row) ≡ key row) where
  pub swept_key : (row : Row) → key (swept_row is_late change row) ≡ key row
  swept_key row = elim (Bool-cases (is_late row)) [
    | inl late ↦ rw late (same_key row)
    | inr early ↦ rw early refl
  ]

  swept-IsFresh :
      (k : String) (rows : List Row)
      → IsFresh key k rows
      → IsFresh key k (map (swept_row is_late change) rows)
  swept-IsFresh k [] h = tt
  swept-IsFresh k (row ∷ rows) h = (rw (swept_key row) h.0, swept-IsFresh k rows h.1)

  pub swept-IsDistinct :
      (rows : List Row) → IsDistinct key rows → IsDistinct key (map (swept_row is_late change) rows)
  swept-IsDistinct [] h = tt
  swept-IsDistinct (row ∷ rows) h =
      (rw (swept_key row) (swept-IsFresh (key row) rows h.0), swept-IsDistinct rows h.1)
