-- ===== src/Tasks/Listing.antt =====
-- The list of tasks that `List` returns: the newest of those that match, at most 200 of them.
use chronos_monitor.Prelude.{
  ℕ, zero, suc, ◌≤◌, String, ◌≡◌, refl, ap, ◌⊎◌, inl, inr, List, [], ◌∷◌, map, take, length, Bool,
  true, All, All-imp, Elem, arith, Bool-cases, ◌≤ℤ◌, leb_ℤ,
}
use chronos_monitor.Database.{TaskRow, ScheduleRow, query, query_row, ok}
use chronos_monitor.Database.Table.{select_where}
use chronos_monitor.Tasks.{
  has_status_text, insert_newest, newest_first, list_limit, listed, list, scan_task_run,
}
use chronos_monitor.Tasks.Sweep.{quiet}

abbrev NotNewer : TaskRow → TaskRow → Type 0
NotNewer x y = y.started_at ≤ℤ x.started_at

-- Each row started no earlier than those behind it.
abbrev pub IsNewestFirst : List TaskRow → Type 0
IsNewestFirst [] = Unit
IsNewestFirst (x ∷ xs) = All (NotNewer x) xs × IsNewestFirst xs

All-insert :
    (P : TaskRow → Type 0) (row : TaskRow) (xs : List TaskRow)
    → P row
    → All P xs
    → All P (insert_newest row xs)
unfolding insert_newest
All-insert P row [] p h = (p, tt)
All-insert P row (x ∷ xs) p h = elim (Bool-cases (leb_ℤ x.started_at row.started_at)) [
  | inl older ↦ rw older (p, h)
  | inr newer ↦ rw newer (h.0, All-insert P row xs p h.1)
]

insert-IsNewestFirst :
    (row : TaskRow) (xs : List TaskRow) → IsNewestFirst xs → IsNewestFirst (insert_newest row xs)
unfolding insert_newest
insert-IsNewestFirst row [] h = (tt, tt)
insert-IsNewestFirst row (x ∷ xs) h = elim (Bool-cases (leb_ℤ x.started_at row.started_at)) [
  | inl older ↦
      rw older
        (((ground arith), All-imp (NotNewer x) (NotNewer row) xs (λ y k. ground arith) h.0), h)
  | inr newer ↦
      rw newer (All-insert (NotNewer x) row xs (ground arith) h.0, insert-IsNewestFirst row xs h.1)
]

newest_first-IsNewestFirst : (xs : List TaskRow) → IsNewestFirst (newest_first xs)
unfolding newest_first
newest_first-IsNewestFirst [] = tt
newest_first-IsNewestFirst (x ∷ xs) = insert-IsNewestFirst x _ (newest_first-IsNewestFirst xs)

All-newest_first : (P : TaskRow → Type 0) (xs : List TaskRow) → All P xs → All P (newest_first xs)
unfolding newest_first
All-newest_first P [] h = tt
All-newest_first P (x ∷ xs) h = All-insert P x _ h.0 (All-newest_first P xs h.1)

Elem-insert_self : (row : TaskRow) (xs : List TaskRow) → Elem row (insert_newest row xs)
unfolding insert_newest
Elem-insert_self row [] = inl refl
Elem-insert_self row (x ∷ xs) = elim (Bool-cases (leb_ℤ x.started_at row.started_at)) [
  | inl older ↦ rw older (inl refl)
  | inr newer ↦ rw newer (inr (Elem-insert_self row xs))
]

Elem-insert : (r row : TaskRow) (xs : List TaskRow) → Elem r xs → Elem r (insert_newest row xs)
unfolding insert_newest
Elem-insert r row [] h = absurd h
Elem-insert r row (x ∷ xs) h = elim (Bool-cases (leb_ℤ x.started_at row.started_at)) [
  | inl older ↦ rw older (inr h)
  | inr newer ↦ rw newer (elim h [ inl e ↦ inl e | inr k ↦ inr (Elem-insert r row xs k) ])
]

Elem-newest_first : (r : TaskRow) (xs : List TaskRow) → Elem r xs → Elem r (newest_first xs)
unfolding newest_first
Elem-newest_first r [] h = absurd h
Elem-newest_first r (x ∷ xs) (inl e) = rw (← e) (Elem-insert_self x _)
Elem-newest_first r (x ∷ xs) (inr h) = Elem-insert r x _ (Elem-newest_first r xs h)

module _ (p : TaskRow → Bool) where
  All-select : (xs : List TaskRow) → All (λ x. p x ≡ true) (select_where p xs)
  unfolding select_where
  All-select [] = tt
  All-select (x ∷ xs) = elim (Bool-cases (p x)) [
    | inl e ↦ rw e (e, All-select xs)
    | inr e ↦ rw e (All-select xs)
  ]

  All-select_of : (Q : TaskRow → Type 0) (xs : List TaskRow) → All Q xs → All Q (select_where p xs)
  unfolding select_where
  All-select_of Q [] h = tt
  All-select_of Q (x ∷ xs) h = elim (Bool-cases (p x)) [
    | inl e ↦ rw e (h.0, All-select_of Q xs h.1)
    | inr e ↦ rw e (All-select_of Q xs h.1)
  ]

  Elem-select :
      (r : TaskRow) (xs : List TaskRow) → Elem r xs → p r ≡ true → Elem r (select_where p xs)
  unfolding select_where
  Elem-select r [] h e = absurd h
  Elem-select r (x ∷ xs) (inl same) e = rw (same, e) (inl refl)
  Elem-select r (x ∷ xs) (inr h) e = elim (Bool-cases (p x)) [
    | inl hit ↦ rw hit (inr (Elem-select r xs h e))
    | inr miss ↦ rw miss (Elem-select r xs h e)
  ]

All-take : (P : TaskRow → Type 0) (n : ℕ) (xs : List TaskRow) → All P xs → All P (take n xs)
All-take P zero xs h = tt
All-take P (suc n) [] h = tt
All-take P (suc n) (x ∷ xs) h = (h.0, All-take P n xs h.1)

take-IsNewestFirst : (n : ℕ) (xs : List TaskRow) → IsNewestFirst xs → IsNewestFirst (take n xs)
take-IsNewestFirst zero xs h = tt
take-IsNewestFirst (suc n) [] h = tt
take-IsNewestFirst (suc n) (x ∷ xs) h = (All-take _ n xs h.0, take-IsNewestFirst n xs h.1)

length-take-le : (n : ℕ) (xs : List TaskRow) → length (take n xs) ≤ n
length-take-le zero xs = omega arith
length-take-le (suc n) [] = omega arith
length-take-le (suc n) (x ∷ xs) = omega (arith, length-take-le n xs)

-- A row is taken, or the list is full of rows that are not older.
abbrev IsTakenOrOlder : TaskRow → ℕ → List TaskRow → Type 0
IsTakenOrOlder r n xs = Elem r xs ⊎ ((length xs ≡ n) × All (λ x. NotNewer x r) xs)

Elem-All : (P : TaskRow → Type 0) (r : TaskRow) (xs : List TaskRow) → All P xs → Elem r xs → P r
Elem-All P r [] h k = absurd k
Elem-All P r (x ∷ xs) h (inl e) = rw e at h.0
Elem-All P r (x ∷ xs) h (inr k) = Elem-All P r xs h.1 k

take_full :
    (r : TaskRow) (n : ℕ) (xs : List TaskRow)
    → IsNewestFirst xs
    → Elem r xs
    → IsTakenOrOlder r n (take n xs)
take_full r zero xs s h = inr (refl, tt)
take_full r (suc n) [] s h = absurd h
take_full r (suc n) (x ∷ xs) s (inl e) = inl (inl e)
take_full r (suc n) (x ∷ xs) s (inr h) = elim (take_full r n xs s.1 h) [
  | inl k ↦ inl (inr k)
  | inr (full, older) ↦ inr (ap suc full, (Elem-All (NotNewer x) r xs s.0 h, older))
]

-- What `List` promises of the rows that it picks.
pub record IsListing (status : String) (rows picked : List TaskRow) : Type 0 where
  pub bounded : length picked ≤ list_limit
  pub newest : IsNewestFirst picked
  pub matching : All (λ row. has_status_text status row ≡ true) picked
  pub stored : All (λ row. Elem row rows) picked
  pub complete :
      (row : TaskRow)
      → Elem row rows
      → has_status_text status row ≡ true
      → IsTakenOrOlder row list_limit picked

All-Elem_self : (xs : List TaskRow) → All (λ x. Elem x xs) xs
All-Elem_self [] = tt
All-Elem_self (x ∷ xs) =
    (inl refl, All-imp (λ y. Elem y xs) (λ y. Elem y (x ∷ xs)) xs (λ y h. inr h) (All-Elem_self xs))

listed-IsListing :
    (status : String) (rows : List TaskRow) → IsListing status rows (listed status rows)
listed-IsListing status rows =
    let p = has_status_text status in
    let found = select_where p rows in
    let sorted = newest_first-IsNewestFirst found in
    record {
      bounded = length-take-le list_limit (newest_first found);
      newest = take-IsNewestFirst list_limit (newest_first found) sorted;
      matching =
          All-take _ list_limit (newest_first found) (All-newest_first _ found (All-select p rows));
      stored =
          All-take _ list_limit (newest_first found) (
            All-newest_first _ found
              (All-select_of p (λ x. Elem x rows) rows (All-Elem_self rows)));
      complete = λ row h e.
          take_full row list_limit (newest_first found) sorted
            (Elem-newest_first row found (Elem-select p row rows h e));
    }

-- With no driver error, `List` changes nothing and returns the scanned rows of a list that holds
-- at most 200 rows, all of them stored and with the status that was asked for (any status for an
-- empty text), in order of their start, the newest first. A stored row that matches is in it,
-- unless the list is full of rows that started no earlier.
pub list_lem :
    (status : String) (rows : List TaskRow) (schedules : List ScheduleRow)
    → (picked : List TaskRow) × (list status (quiet rows schedules)
        ≡ (ok (map scan_task_run picked), quiet rows schedules))
      × IsListing status rows picked
unfolding list query query_row
list_lem status rows schedules = (listed status rows, refl, listed-IsListing status rows)
