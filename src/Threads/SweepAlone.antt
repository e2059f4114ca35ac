-- ===== src/Threads/SweepAlone.antt =====
-- A sweep that nobody interrupts is the tick that Sweeper describes in one piece.
use chronos_monitor.Prelude.{
  ℕ, zero, suc, ◌+◌, ◌-◌, ◌*◌, ◌≡◌, refl, ap, ◌∙◌, String, length, Option, none, some, Bool, arith,
}
use chronos_monitor.Clock.{Time}
use chronos_monitor.Models.{TaskRun}
use chronos_monitor.Tasks.{Candidate, get as get_run, within_ttl, expire, visit, sweep_timeouts}
use chronos_monitor.Server.{Server}
use chronos_monitor.Sweeper.{timeout_event, sweep_once}
use chronos_monitor.Threads.{Point, with_tick, select_runs, sweep_move, move}
use chronos_monitor.Threads.Ticks.{Tick, after_select, tick_move}
use chronos_monitor.Threads.TickAlone.{then_, ended, tick_rest, tick_move-rest}
use chronos_monitor.Threads.Ending.{Every, TickEnds, tick_move-TickEnds}
use chronos_monitor.Threads.Answers.{TickEnds-zero, select-TickEnds}
use chronos_monitor.Threads.Alone.{alone}

module _ (format : Time → String) (parse_standard : String → Option (Time → Time))
    (collates : String → String → Bool) (now : Time) where
  abbrev left : Tick Candidate TaskRun → Server → Option (Tick Candidate TaskRun × Server)
  left = tick_rest select_runs (within_ttl now) (expire now) (λ c. get_run c.run_id) timeout_event

  abbrev IsLeft : ℕ → Tick Candidate TaskRun → Server → Type 0
  IsLeft n t s =
      alone format parse_standard collates n (Point.sweeping now t) s
      ≡ with_tick (Point.sweeping now) (left t s)

  then-IsLeft :
      (n : ℕ) (x : Option (Tick Candidate TaskRun × Server))
      → ((t : Tick Candidate TaskRun) (s : Server) → TickEnds n t → IsLeft n t s)
      → Every (λ t s. TickEnds n t) x
      → then_ (with_tick (Point.sweeping now) x) (alone format parse_standard collates n)
        ≡ with_tick (Point.sweeping now) (then_ x left)
  unfolding with_tick
  then-IsLeft n none f h = refl
  then-IsLeft n (some (t, s)) f h = f t s h

  goes_on :
      (n : ℕ) (t : Tick Candidate TaskRun) (s : Server)
      → ((t' : Tick Candidate TaskRun) (s' : Server) → TickEnds n t' → IsLeft n t' s')
      → Every (λ t' s'. TickEnds n t') (sweep_move format parse_standard collates now t s)
      → IsLeft (suc n) t s
  unfolding alone move
  goes_on n t s f h =
      then-IsLeft n (sweep_move format parse_standard collates now t s) f h
      ∙ ap (with_tick (Point.sweeping now)) (
          tick_move-rest select_runs (within_ttl now) (expire now) (λ c. get_run c.run_id)
            timeout_event t s)

  alone_tick : (n : ℕ) (t : Tick Candidate TaskRun) (s : Server) → TickEnds n t → IsLeft n t s
  unfolding alone with_tick
  alone_tick zero t s h = let e = TickEnds-zero t h in rw e refl
  alone_tick (suc n) t s h =
      let e : suc n - 1 ≡ n = omega arith in
      let k =
        tick_move-TickEnds select_runs (within_ttl now) (expire now) (λ c. get_run c.run_id)
          timeout_event (suc n) t s h in
      goes_on n t s (alone_tick n) (rw e at k)

  -- A tick of the sweep with no other thread's access in between, given three accesses for each row
  -- and three more, ends having done what `sweepOnce` does in one piece, whatever the outcomes of
  -- its statements.
  pub alone-sweeping :
      (s : Server)
      → alone format parse_standard collates
          (suc (3 * length s.db.task_runs + 2))
          (Point.sweeping now Tick.querying)
          s
        ≡ with_tick (Point.sweeping now) (ended (sweep_once now s))
  unfolding alone move tick_move with_tick sweep_once sweep_timeouts visit
  alone-sweeping s =
      let tick : Tick Candidate TaskRun × Server = after_select (select_runs s.db) s.hub in
      alone_tick (3 * length s.db.task_runs + 2) tick.0 tick.1 (select-TickEnds s.db s.hub)
      ∙ ap (with_tick (Point.sweeping now)) (
          tick_move-rest select_runs (within_ttl now) (expire now) (λ c. get_run c.run_id)
            timeout_event Tick.querying s)
