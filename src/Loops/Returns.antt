-- ===== src/Loops/Returns.antt =====
-- A job's loop does at each tick what System describes as a step, and returns when the context ends.
use chronos_monitor.Prelude.{
  pos, leb_ℤ, ◌≡◌, refl, String, List, [], ◌∷◌, ◌++◌, map, Option, some, Bool, false,
}
use chronos_monitor.Clock.{Time, Duration}
use chronos_monitor.Server.{Server}
use chronos_monitor.Sweeper.{sweep_once}
use chronos_monitor.MissedRun.{check_once}
use chronos_monitor.Cleaner.{Cleaner, clean_once}
use chronos_monitor.System.{Step, sweeping, checking, cleaning, step, steps}
use chronos_monitor.System.Invariant.{IsHealthy, step-IsHealthy}
use chronos_monitor.Loops.{
  Wake, ticked, cancelled, returned, Ran, run_loop, run_sweeper, run_detector, clean, run_cleaner,
}

abbrev pub until : List Time → List Wake → List Wake
until times rest = map ticked times ++ cancelled ∷ rest

module _ (format : Time → String) (parse_standard : String → Option (Time → Time))
    (collates : String → String → Bool) where
  abbrev pub Returns : Ran → List (Step × Time) → Server → Type 0
  Returns run cs s =
      (s' : Server) × (run ≡ some (returned, s'))
      × (steps format parse_standard collates cs s ≡ some s')
      × IsHealthy format parse_standard collates s'

  module _ (once : Time → Server → Option Server) (kind : Step)
      (is_step : (now : Time) (s : Server)
        → step format parse_standard collates kind now s ≡ once now s) where
    run_loop-Returns :
        (times : List Time) (rest : List Wake) (s : Server)
        → IsHealthy format parse_standard collates s
        → Returns (run_loop once (until times rest) s) (map (λ now. (kind, now)) times) s
    unfolding run_loop steps
    run_loop-Returns [] rest s h = (s, refl, refl, h)
    run_loop-Returns (now ∷ times) rest s h =
        let (mid, e, k) = step-IsHealthy format parse_standard collates kind now s h in
        let done : once now s ≡ some mid = rw (is_step now s) at e in
        let (end, ran, stepped, k') = run_loop-Returns times rest mid k in
        (end, rw done ran, rw e stepped, k')

  -- From a server in good order, with intervals that are positive, the loops of the sweeper, of the
  -- missed-run detector and of the retention job return as soon as the context ends, whatever comes
  -- after. Each has done at each tick before what a step of the server does, the retention job once
  -- more at its start, and leaves the server in good order.
  pub runs-Return :
      (interval : Duration) (c : Cleaner) (start : Time) (times : List Time) (rest : List Wake)
      (s : Server)
      → leb_ℤ interval (pos 0) ≡ false
      → leb_ℤ c.interval (pos 0) ≡ false
      → IsHealthy format parse_standard collates s
      → Returns (run_sweeper interval (until times rest) s) (map (λ now. (sweeping, now)) times) s
        × Returns
            (run_detector format parse_standard interval (until times rest) s)
            (map (λ now. (checking, now)) times)
            s
        × Returns
            (run_cleaner c start (until times rest) s)
            (map (λ now. (cleaning c, now)) (start ∷ times))
            s
  unfolding run_sweeper run_detector run_cleaner steps step
  runs-Return interval c start times rest s positive positive' h =
      let (mid, e, k) = step-IsHealthy format parse_standard collates (cleaning c) start s h in
      let same : clean_once c start s ≡ mid = cc in
      (
        rw positive (run_loop-Returns sweep_once sweeping (λ now s'. refl) times rest s h),
        rw positive (
            run_loop-Returns (check_once format parse_standard) checking (λ now s'. refl) times rest
              s h),
        rw positive' (
            run_loop-Returns (clean c) (cleaning c) (λ now s'. refl) times rest
              (clean_once c start s) (rw same k)),
      )
