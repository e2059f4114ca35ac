-- ===== src/Threads/Answers.antt =====
-- A thread that goes on making accesses comes to its end, whatever the other threads do.
use chronos_monitor.Models.{TaskRun}
use chronos_monitor.Database.{Db, Result, ok, err}
use chronos_monitor.Database.Queries.{OnRows, query-OnRows}
use chronos_monitor.Tasks.{Candidate, candidate_of}
use chronos_monitor.Broker.{Hub}
use chronos_monitor.Threads.Ticks.{Tick, after_select}
use chronos_monitor.Prelude.{
  ◌+◌, ◌*◌, ℕ, ◌-◌, ◌≤◌, ◌≡◌, refl, String, List, [], ◌∷◌, ◌++◌, length, Option, some, Bool,
  All-append, arith,
}
use chronos_monitor.Clock.{Time}
use chronos_monitor.Server.{Server, Response}
use chronos_monitor.System.{Request}
use chronos_monitor.Threads.{
  Point, enter, Pool, Turn, arriving, thread_at, replace_at, select_runs, turn, turns,
}
use chronos_monitor.Threads.Safety.{IsLegal, enter-IsLegal}
use chronos_monitor.Threads.Ending.{
  AnswersWithin, enter-AnswersWithin, move-AnswersWithin, TickEnds, length-candidates,
}
use chronos_monitor.Threads.Lookup.{thread_at-last}
use chronos_monitor.Threads.Interleavings.{moves_of, IsOrderly, turns_lem}

pub AnswersWithin-zero : (p : Point) → AnswersWithin 0 p → (r : Response) × (p ≡ Point.answered r)
AnswersWithin-zero (Point.answered r) h = (r, refl)
AnswersWithin-zero (Point.creating t) h = absurd (omega (arith, h))
AnswersWithin-zero (Point.announcing t) h = absurd (omega (arith, h))
AnswersWithin-zero (Point.touching t) h = absurd (omega (arith, h))
AnswersWithin-zero (Point.beating run_id now) h = absurd (omega (arith, h))
AnswersWithin-zero (Point.locating run_id status message now kind) h = absurd (omega (arith, h))
AnswersWithin-zero (Point.finishing run_id status message now kind duration) h =
    absurd (omega (arith, h))
AnswersWithin-zero (Point.rereading run_id kind) h = absurd (omega (arith, h))
AnswersWithin-zero (Point.publishing evt) h = absurd (omega (arith, h))
AnswersWithin-zero (Point.at_once q now) h = absurd (omega (arith, h))
AnswersWithin-zero (Point.sweeping now t) h = absurd h
AnswersWithin-zero (Point.checking now t) h = absurd h
AnswersWithin-zero (Point.cleaning c now) h = absurd h
AnswersWithin-zero Point.cleaned h = absurd h

after_select-TickEnds :
    (n : ℕ) (x : Result (List Candidate) × Db) (hub : Hub)
    → OnRows (λ cs. length cs ≤ n) x.0
    → TickEnds (3 * n + 2) (after_select {C = Candidate} {A = TaskRun} x hub).0
after_select-TickEnds n (ok cs, db) hub h = omega (arith, h)
after_select-TickEnds n (err e, db) hub h = tt

-- The SELECT of a sweep finds one candidate for a row at most.
pub select-TickEnds :
    (db : Db) (hub : Hub)
    → TickEnds
        (3 * length db.task_runs + 2)
        (after_select {C = Candidate} {A = TaskRun} (select_runs db) hub).0
select-TickEnds db hub = after_select-TickEnds (length db.task_runs) (select_runs db) hub (
    query-OnRows (λ cs. length cs ≤ length db.task_runs) _ db
      λ d e. rw (← e) (length-candidates candidate_of d.task_runs))

pub TickEnds-zero : {C A : Type 0} (t : Tick C A) → TickEnds 0 t → t ≡ Tick.over
TickEnds-zero Tick.querying h = absurd h
TickEnds-zero (Tick.visiting cs found) h = absurd (omega (arith, h))
TickEnds-zero (Tick.reading cs found c) h = absurd (omega (arith, h))
TickEnds-zero (Tick.publishing evts) h = absurd (omega (arith, h))
TickEnds-zero Tick.over h = refl

-- The pool after the SELECT of thread `i`.
abbrev after_query : ℕ → Time → Pool → Pool
after_query i now pool =
    let tick : Tick Candidate TaskRun × Server =
      after_select (select_runs pool.server.db) pool.server.hub in
    record { server = tick.1; threads = replace_at i (Point.sweeping now tick.0) pool.threads }

module _ (format : Time → String) (parse_standard : String → Option (Time → Time))
    (collates : String → String → Bool) where
  -- A request that comes in is answered once its thread has made four accesses, whatever the other
  -- threads do before, between and after them, and whatever the outcomes of its statements.
  pub turns-answered :
      (q : Request) (now : Time) (ts : List Turn) (pool : Pool)
      → IsOrderly format parse_standard collates pool
      → 4 ≤ moves_of (length pool.threads) ts
      → (pool' : Pool) × (r : Response) × (turns format parse_standard collates
            (arriving q now ∷ ts)
            pool
          ≡ some pool')
        × (thread_at (length pool.threads) pool'.threads ≡ some (Point.answered r))
  unfolding turns turn
  turns-answered q now ts pool o enough =
      let begun : Pool = record pool { threads = pool.threads ++ enter q now ∷ [] } in
      let i = length pool.threads in
      let (pool', e, o', f) =
        turns_lem format parse_standard collates AnswersWithin
          (move-AnswersWithin format parse_standard collates) ts begun
          (record {
            healthy = o.healthy;
            legal = All-append IsLegal pool.threads _ o.legal (enter-IsLegal q now, tt);
          }) in
      let (p, at, h) =
        f 4 i (enter q now, thread_at-last pool.threads (enter q now), enter-AnswersWithin q now) in
      let none_left : 4 - moves_of i ts ≡ 0 = omega (arith, enough) in
      let (r, answer) = AnswersWithin-zero p (rw none_left at h) in (pool', r, e, rw answer at at)
