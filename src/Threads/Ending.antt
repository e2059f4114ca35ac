-- ===== src/Threads/Ending.antt =====
-- How many accesses a thread has left, whatever the other threads do in between: a request ends
-- after four of its own at most, and a tick of a job after three for each candidate and two more.
use chronos_monitor.Prelude.{
  ℕ, zero, suc, ◌+◌, ◌-◌, ◌*◌, ◌≤◌, ◌≡◌, refl, String, List, [], ◌∷◌, map, length, length-append,
  Option, none, some, Bool, Bool-cases, inl, inr, arith,
}
use chronos_monitor.Clock.{Time}
use chronos_monitor.Models.{TaskRun}
use chronos_monitor.Tasks.{Candidate}
use chronos_monitor.Database.Rounds.{candidates}
use chronos_monitor.Database.{
  Db, Error, Result, ok, err, M, Write, RowsAffected, affected_or_zero, exec,
}
use chronos_monitor.Broker.{Event, Hub, publish}
use chronos_monitor.Server.{Server, Handled}
use chronos_monitor.System.{
  Request, start, heartbeat, success, failed, get_task, list_tasks, register, list_schedules,
  delete_schedule,
}
use chronos_monitor.Threads.{Point, enter, after_statement, at_point, answered_of, with_tick, move}
use chronos_monitor.Threads.Ticks.{
  Tick, after_count, after_write, after_read, after_publish, tick_move,
}

-- What holds of a thread's next stop, if the hub does not panic.
abbrev pub Every : {P : Type 0} → (P → Server → Type 0) → Option (P × Server) → Type 0
Every Q none = Unit
Every Q (some (p, s)) = Q p s

-- The accesses that a tick has left once its candidates are read.
abbrev pub TickEnds : {C A : Type 0} → ℕ → Tick C A → Type 0
TickEnds n Tick.querying = ⊥
TickEnds n (Tick.visiting cs found) = 3 * length cs + length found + 2 ≤ n
TickEnds n (Tick.reading cs found c) = 3 * length cs + length found + 4 ≤ n
TickEnds n (Tick.publishing evts) = length evts + 1 ≤ n
TickEnds n Tick.over = Unit

length-events : {A : Type 0} (f : A → Event) (xs : List A) → length (map f xs) ≡ length xs
length-events f [] = refl
length-events f (x ∷ xs) = omega (arith, length-events f xs)

after_publish-TickEnds :
    (C A : Type 0) (n : ℕ) (hub : Option Hub) (evts : List Event) (db : Db)
    → length evts + 2 ≤ n
    → Every (λ t s. TickEnds {C = C} {A = A} (n - 1) t) (after_publish hub evts db)
after_publish-TickEnds C A n none evts db h = tt
after_publish-TickEnds C A n (some hub) evts db h = omega (arith, h)

module _ {C A : Type 0} where
  after_count-TickEnds :
      (n k : ℕ) (cs : List C) (found : List A) (c : C)
      → 3 * length (c ∷ cs) + length found + 2 ≤ n
      → TickEnds (n - 1) (after_count k cs found c)
  after_count-TickEnds n zero cs found c h = omega (arith, h)
  after_count-TickEnds n (suc k) cs found c h = omega (arith, h)

  after_write-TickEnds :
      (n : ℕ) (x : Result RowsAffected × Db) (cs : List C) (found : List A) (c : C) (hub : Hub)
      → 3 * length (c ∷ cs) + length found + 2 ≤ n
      → TickEnds (n - 1) (after_write x cs found c hub).0
  after_write-TickEnds n (ok k, db) cs found c hub h =
      after_count-TickEnds n (affected_or_zero k) cs found c h
  after_write-TickEnds n (err e, db) cs found c hub h = tt

  after_read-TickEnds :
      (n : ℕ) (x : Result A × Db) (cs : List C) (found : List A) (hub : Hub)
      → 3 * length cs + length found + 4 ≤ n
      → TickEnds {C = C} (n - 1) (after_read x cs found hub).0
  after_read-TickEnds n (ok a, db) cs found hub h = omega (arith, h, length-append found (a ∷ []))
  after_read-TickEnds n (err e, db) cs found hub h = tt

  module _ (select : M (List C)) (is_early : C → Bool) (write : C → Write) (read : C → M A)
      (event_of : A → Event) where
    pub tick_move-TickEnds :
        (n : ℕ) (t : Tick C A) (s : Server)
        → TickEnds n t
        → Every (λ t' s'. TickEnds (n - 1) t') (tick_move select is_early write read event_of t s)
    unfolding tick_move
    tick_move-TickEnds n Tick.querying s h = absurd h
    tick_move-TickEnds n (Tick.visiting [] found) s h =
        omega (arith, h, length-events event_of found)
    tick_move-TickEnds n (Tick.visiting (c ∷ cs) found) s h = elim (Bool-cases (is_early c)) [
      | inl early ↦ rw early (omega (arith, h))
      | inr late ↦ rw late (after_write-TickEnds n (exec (write c) s.db) cs found c s.hub h)
    ]
    tick_move-TickEnds n (Tick.reading cs found c) s h =
        after_read-TickEnds n (read c s.db) cs found s.hub h
    tick_move-TickEnds n (Tick.publishing []) s h = tt
    tick_move-TickEnds n (Tick.publishing (evt ∷ evts)) s h =
        after_publish-TickEnds C A n (publish evt s.hub) evts s.db (omega (arith, h))
    tick_move-TickEnds n Tick.over s h = tt

-- The accesses that the thread of a request has left.
abbrev pub AnswersWithin : ℕ → Point → Type 0
AnswersWithin n (Point.creating t) = 3 ≤ n
AnswersWithin n (Point.announcing t) = 2 ≤ n
AnswersWithin n (Point.touching t) = 1 ≤ n
AnswersWithin n (Point.beating run_id now) = 3 ≤ n
AnswersWithin n (Point.locating run_id status message now kind) = 4 ≤ n
AnswersWithin n (Point.finishing run_id status message now kind duration) = 3 ≤ n
AnswersWithin n (Point.rereading run_id kind) = 2 ≤ n
AnswersWithin n (Point.publishing evt) = 1 ≤ n
AnswersWithin n (Point.at_once q now) = 1 ≤ n
AnswersWithin n (Point.answered r) = Unit
AnswersWithin n (Point.sweeping now t) = ⊥
AnswersWithin n (Point.checking now t) = ⊥
AnswersWithin n (Point.cleaning c now) = ⊥
AnswersWithin n Point.cleaned = ⊥

pub enter-AnswersWithin : (q : Request) (now : Time) → AnswersWithin 4 (enter q now)
unfolding enter
enter-AnswersWithin (start none new_string) now = tt
enter-AnswersWithin (start (some req) new_string) now = omega arith
enter-AnswersWithin (heartbeat none) now = tt
enter-AnswersWithin (heartbeat (some req)) now = omega arith
enter-AnswersWithin (success none) now = tt
enter-AnswersWithin (success (some req)) now = omega arith
enter-AnswersWithin (failed none) now = tt
enter-AnswersWithin (failed (some req)) now = omega arith
enter-AnswersWithin (get_task run_id) now = omega arith
enter-AnswersWithin (list_tasks status) now = omega arith
enter-AnswersWithin (register body) now = omega arith
enter-AnswersWithin list_schedules now = omega arith
enter-AnswersWithin (delete_schedule task_name) now = omega arith

after_statement-AnswersWithin {ℓ} :
    {A : Type ℓ} (n : ℕ) (next : A → Point) (refuse : Error → Point) (x : Result A × Db) (hub : Hub)
    → ((a : A) → AnswersWithin n (next a))
    → ((e : Error) → AnswersWithin n (refuse e))
    → AnswersWithin n (after_statement next refuse x hub).0
unfolding after_statement
after_statement-AnswersWithin n next refuse (ok a, db) hub h k = h a
after_statement-AnswersWithin n next refuse (err e, db) hub h k = k e

at_point-AnswersWithin :
    (n : ℕ) (p : Point) (x : Option Server)
    → AnswersWithin n p
    → Every (λ p' s'. AnswersWithin n p') (at_point p x)
unfolding at_point
at_point-AnswersWithin n p none h = tt
at_point-AnswersWithin n p (some s) h = h

answered_of-AnswersWithin :
    (n : ℕ) (x : Handled) → Every (λ p' s'. AnswersWithin n p') (answered_of x)
unfolding answered_of
answered_of-AnswersWithin n none = tt
answered_of-AnswersWithin n (some (r, s)) = tt

with_tick-Every :
    {C A : Type 0} (Q : Tick C A → Type 0) (R : Point → Type 0) (point : Tick C A → Point)
    (x : Option (Tick C A × Server))
    → ((t : Tick C A) → Q t → R (point t))
    → Every (λ t s. Q t) x
    → Every (λ p s. R p) (with_tick point x)
unfolding with_tick
with_tick-Every Q R point none f h = tt
with_tick-Every Q R point (some (t, s)) f h = f t h

-- The accesses that a tick of the sweeper has left.
abbrev pub SweepEnds : Time → ℕ → Point → Type 0
SweepEnds now n p = (t : Tick Candidate TaskRun) × (p ≡ Point.sweeping now t) × TickEnds n t

-- A query finds one candidate for a row at most.
pub length-candidates :
    {R C : Type 0} (candidate_of : R → Option C) (rows : List R)
    → length (candidates candidate_of rows) ≤ length rows
unfolding candidates
length-candidates candidate_of [] = omega arith
length-candidates candidate_of (row ∷ rows) = ground (arith, length-candidates candidate_of rows)

module _ (format : Time → String) (parse_standard : String → Option (Time → Time))
    (collates : String → String → Bool) where
  -- Each access leaves the thread of a request one access less.
  pub move-AnswersWithin :
      (n : ℕ) (p : Point) (s : Server)
      → AnswersWithin n p
      → Every (λ p' s'. AnswersWithin (n - 1) p') (move format parse_standard collates p s)
  unfolding move
  move-AnswersWithin n (Point.creating t) s h =
      let left : 2 ≤ n - 1 = omega (arith, h) in
      after_statement-AnswersWithin (n - 1) _ _ _ s.hub (λ _. left) (λ e. tt)
  move-AnswersWithin n (Point.announcing t) s h =
      let left : 1 ≤ n - 1 = omega (arith, h) in at_point-AnswersWithin (n - 1) _ _ left
  move-AnswersWithin n (Point.touching t) s h = tt
  move-AnswersWithin n (Point.beating run_id now) s h =
      let left : 2 ≤ n - 1 = omega (arith, h) in
      after_statement-AnswersWithin (n - 1) _ _ _ s.hub (λ _. left) (λ e. tt)
  move-AnswersWithin n (Point.locating run_id status message now kind) s h =
      let left : 3 ≤ n - 1 = omega (arith, h) in
      after_statement-AnswersWithin (n - 1) _ _ _ s.hub (λ _. left) (λ e. tt)
  move-AnswersWithin n (Point.finishing run_id status message now kind duration) s h =
      let left : 2 ≤ n - 1 = omega (arith, h) in
      after_statement-AnswersWithin (n - 1) _ _ _ s.hub (λ _. left) (λ e. tt)
  move-AnswersWithin n (Point.rereading run_id kind) s h =
      let left : 1 ≤ n - 1 = omega (arith, h) in
      after_statement-AnswersWithin (n - 1) _ _ _ s.hub (λ _. left) (λ e. tt)
  move-AnswersWithin n (Point.publishing evt) s h = at_point-AnswersWithin (n - 1) _ _ tt
  move-AnswersWithin n (Point.at_once q now) s h = answered_of-AnswersWithin (n - 1) _
  move-AnswersWithin n (Point.sweeping now t) s h = absurd h
  move-AnswersWithin n (Point.checking now t) s h = absurd h
  move-AnswersWithin n (Point.cleaning c now) s h = absurd h
  move-AnswersWithin n (Point.answered r) s h = tt
  move-AnswersWithin n Point.cleaned s h = absurd h

  pub move-SweepEnds :
      (now : Time) (n : ℕ) (p : Point) (s : Server)
      → SweepEnds now n p
      → Every (λ p' s'. SweepEnds now (n - 1) p') (move format parse_standard collates p s)
  unfolding move
  move-SweepEnds now n p s (t, e, h) = rw e (
      with_tick-Every (TickEnds (n - 1)) (SweepEnds now (n - 1)) (Point.sweeping now) _
        (λ t' k. (t', refl, k)) (tick_move-TickEnds _ _ _ _ _ n t s h))
