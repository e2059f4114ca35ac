-- ===== src/Loops/Tests.antt =====
-- The loops of the jobs at concrete states.
use chronos_monitor.Prelude.{◌*◌, pos, ◌≡◌, refl, List, [], ◌∷◌, ◌++◌, map, some, false}
use chronos_monitor.Clock.{Time, second}
use chronos_monitor.Broker.{Event, new_hub, subscribe, has_sub}
use chronos_monitor.Broker.Publishing.{IsSound}
use chronos_monitor.Broker.Soundness.{new_hub-IsSound}
use chronos_monitor.Cleaner.{Cleaner}
use chronos_monitor.Dispatcher.{Dispatcher, new_dispatcher}
use chronos_monitor.Sweeper.{timeout_event}
use chronos_monitor.Tasks.{scan_task_run}
use chronos_monitor.System.{sweeping, checking, cleaning}
use chronos_monitor.System.Runs.{new_server-IsHealthy}
use chronos_monitor.System.Samples.{parser, format, collates, at, running_row, idle}
use chronos_monitor.Loops.{
  ticked, run_sweeper, run_detector, run_cleaner, published, woken, stopped, Dispatched, returned,
  run_dispatcher,
}
use chronos_monitor.Loops.Returns.{until, Returns, runs-Return}
use chronos_monitor.Loops.Dispatching.{run_dispatcher-returned}

abbrev monthly : Cleaner
monthly = record { retain = pos (2592000 * second); interval = pos (3600 * second) }

abbrev twice : List Time
twice = at 5 ∷ at 10 ∷ []

runs-Return_example :
    Returns format parser collates
      (run_sweeper (at 5) (until twice (ticked (at 15) ∷ [])) idle)
      (map (λ now. (sweeping, now)) twice)
      idle
    × Returns format parser collates
        (run_detector format parser (at 5) (until twice (ticked (at 15) ∷ [])) idle)
        (map (λ now. (checking, now)) twice)
        idle
    × Returns format parser collates
        (run_cleaner monthly (at 0) (until twice (ticked (at 15) ∷ [])) idle)
        (map (λ now. (cleaning monthly, now)) (at 0 ∷ twice))
        idle
runs-Return_example =
    runs-Return format parser collates (at 5) monthly (at 0) twice (ticked (at 15) ∷ []) idle refl
      refl (new_server-IsHealthy format parser collates [])

abbrev alert : Event
alert = timeout_event (scan_task_run (running_row "a"))

abbrev limited : Dispatcher
limited = new_dispatcher (pos 1) (at 60)

run_dispatcher-returned_example :
    (x : Dispatched) × (run_dispatcher
        ((published alert ∷ woken (at 1) ∷ []) ++ stopped ∷ woken (at 2) ∷ [])
        limited
        new_hub
      ≡ some x)
    × (x.ended ≡ returned)
    × IsSound x.hub
    × (has_sub (subscribe new_hub).0 x.hub.subs ≡ false)
run_dispatcher-returned_example =
    run_dispatcher-returned (published alert ∷ woken (at 1) ∷ []) (woken (at 2) ∷ []) limited
      new_hub new_hub-IsSound
