-- ===== src/Loops.antt =====
-- The loops of the background jobs: `Run` of internal/sweeper/sweeper.go, internal/missedrun/detector.go,
-- internal/retention/retention.go and internal/notifier/dispatcher.go. A `select` waits for the
-- context's end and for a tick or an event; what it takes each time is an argument, since it may
-- take either where both are ready.
pub mod Returns
pub mod Dispatching
pub mod Draining
mod Tests
use chronos_monitor.Prelude.{
  ℕ, String, List, [], ◌∷◌, Option, none, some, Bool, true, false, if◌then◌else◌,
}
use chronos_monitor.Clock.{Time, Duration}
use chronos_monitor.Broker.{Event, Hub, subscribe, unsubscribe, publish, receive}
use chronos_monitor.Server.{Server}
use chronos_monitor.Sweeper.{sweep_once}
use chronos_monitor.MissedRun.{check_once}
use chronos_monitor.Cleaner.{Cleaner, clean_once}
use chronos_monitor.Dispatcher.{Dispatcher, Action, handle}
use chronos_monitor.Startup.{new_ticker}

-- What `select` takes: the end of the context, or a tick.
pub data Wake : Type 0 where
  ticked : Time → Wake
  cancelled : Wake

pub data Ended : Type 0 where
  waiting returned : Ended

abbrev pub Ran : Type 0
Ran = Option (Ended × Server)

abbrev pub then_run : Option Server → (Server → Ran) → Ran
then_run none f = none
then_run (some s) f = f s

-- `for { select { … } }`, for a job that does `once` at each tick.
unfoldable pub run_loop : (Time → Server → Option Server) → List Wake → Server → Ran
run_loop once [] s = some (waiting, s)
run_loop once (cancelled ∷ rest) s = some (returned, s)
run_loop once (ticked now ∷ rest) s = then_run (once now s) (run_loop once rest)

-- `time.NewTicker`, which panics for an interval that is not positive.
abbrev pub with_ticker : Option Duration → Ran → Ran
with_ticker none run = none
with_ticker (some d) run = run

-- `Sweeper.Run`
unfoldable pub run_sweeper : Duration → List Wake → Server → Ran
run_sweeper interval wakes s = with_ticker (new_ticker interval) (run_loop sweep_once wakes s)

-- `Detector.Run`
unfoldable pub run_detector :
    (Time → String) → (String → Option (Time → Time)) → Duration → List Wake → Server → Ran
run_detector format parse_standard interval wakes s =
    with_ticker (new_ticker interval) (run_loop (check_once format parse_standard) wakes s)

abbrev pub clean : Cleaner → Time → Server → Option Server
clean c now s = some (clean_once c now s)

-- `Cleaner.Run`: it cleans up before the first tick.
unfoldable pub run_cleaner : Cleaner → Time → List Wake → Server → Ran
run_cleaner c start wakes s =
    with_ticker (new_ticker c.interval) (run_loop (clean c) wakes (clean_once c start s))

-- What happens to the dispatcher: another goroutine publishes; `select` takes an event, or finds the
-- channel empty and waits, or finds it closed; or it takes the end of the context.
pub data Moment : Type 0 where
  published : Event → Moment
  woken : Time → Moment
  stopped : Moment

-- What the dispatcher did, and what it leaves.
pub record Dispatched : Type 0 where
  pub actions : List Action
  pub ended : Ended
  pub dispatcher : Dispatcher
  pub hub : Hub

abbrev pub with_action : Action → Option Dispatched → Option Dispatched
with_action a none = none
with_action a (some x) = some (record x { actions = a ∷ x.actions })

abbrev pub then_dispatch : Option Hub → (Hub → Option Dispatched) → Option Dispatched
then_dispatch none f = none
then_dispatch (some hub) f = f hub

abbrev pub finished : Ended → Dispatcher → Hub → Option Dispatched
finished ended d hub = some (record { actions = []; ended = ended; dispatcher = d; hub = hub })

-- `evt, ok := <-ch`: no event is a closed channel or none yet.
abbrev pub took :
    Option Event × Hub
    → Bool
    → Time
    → Dispatcher
    → (Dispatcher → Hub → Option Dispatched)
    → Option Dispatched
took (some evt, hub) closed now d rest =
    let (action, d') = handle evt now d in with_action action (rest d' hub)
took (none, hub) true now d rest = finished returned d hub
took (none, hub) false now d rest = rest d hub

unfoldable pub dispatch_loop : List Moment → ℕ → Dispatcher → Hub → Option Dispatched
dispatch_loop [] id d hub = finished waiting d hub
dispatch_loop (published evt ∷ rest) id d hub =
    then_dispatch (publish evt hub) (dispatch_loop rest id d)
dispatch_loop (woken now ∷ rest) id d hub =
    took (receive id hub) (hub.channels id).closed now d (dispatch_loop rest id)
dispatch_loop (stopped ∷ rest) id d hub = finished returned d hub

abbrev pub with_hub : Dispatched → Option Hub → Option Dispatched
with_hub x none = none
with_hub x (some hub) = some (record x { hub = hub })

-- The deferred `unsubscribe`, where the loop returned.
abbrev pub leave : Ended → ℕ → Dispatched → Option Dispatched
leave waiting id x = some x
leave returned id x = with_hub x (unsubscribe id x.hub)

abbrev pub unsubscribed : ℕ → Option Dispatched → Option Dispatched
unsubscribed id none = none
unsubscribed id (some x) = leave x.ended id x

-- `Dispatcher.Run`
unfoldable pub run_dispatcher : List Moment → Dispatcher → Hub → Option Dispatched
run_dispatcher moments d hub =
    unsubscribed (subscribe hub).0 (dispatch_loop moments (subscribe hub).0 d (subscribe hub).1)
