-- ===== src/Dispatcher.antt =====
-- internal/notifier/dispatcher.go: which events become alerts, and the rate limit. The clock's
-- reading is an argument; the notifier's own result is only logged by the source.
pub mod Limit
pub mod Burst
mod Tests
use chronos_monitor.Prelude.{ℕ, ◌+◌, ℤ, pos, leb_ℤ, Bool, true, false, List, [], ◌∷◌, if◌then◌else◌}
use chronos_monitor.Clock.{Time, Duration, sub}
use chronos_monitor.Models.{TaskRun}
use chronos_monitor.Broker.{EventType, Event}

pub record Dispatcher : Type 0 where
  -- alerts allowed in a window; not positive for no limit
  pub limit : ℤ
  pub window : Duration
  pub window_start : Time
  pub window_count : ℕ

-- `NewDispatcher`: the zero time, and nothing counted.
abbrev pub new_dispatcher : ℤ → Duration → Dispatcher
new_dispatcher limit window = record {
  limit = limit;
  window = window;
  window_start = pos 0;
  window_count = 0;
}

abbrev pub roll : Time → Dispatcher → Dispatcher
roll now d =
    if leb_ℤ d.window (sub now d.window_start)
    then record d { window_start = now; window_count = 0 }
    else d

abbrev pub count_one_more : Dispatcher → Bool × Dispatcher
count_one_more d =
    if leb_ℤ d.limit (pos d.window_count)
    then (false, d)
    else (true, record d { window_count = d.window_count + 1 })

unfoldable pub allow : Time → Dispatcher → Bool × Dispatcher
allow now d = if leb_ℤ d.limit (pos 0) then (true, d) else count_one_more (roll now d)

-- The types for which `handle` goes on.
abbrev pub is_alert : EventType → Bool
is_alert EventType.failed = true
is_alert EventType.timeout = true
is_alert EventType.schedule_missed = true
is_alert EventType.started = false
is_alert EventType.heartbeat = false
is_alert EventType.succeeded = false

-- What `handle` does with an event: nothing, a line in the log, or a call of the notifier.
pub data Action : Type 0 where
  ignored suppressed : Action
  notified : TaskRun → Action

abbrev pub act : TaskRun → Bool × Dispatcher → Action × Dispatcher
act task (true, d) = (notified task, d)
act task (false, d) = (suppressed, d)

unfoldable pub handle : Event → Time → Dispatcher → Action × Dispatcher
handle evt now d = if is_alert evt.kind then act evt.task (allow now d) else (ignored, d)

-- The loop of `Run` over the events that it receives, each at the time of its reading.
unfoldable pub run : List (Event × Time) → Dispatcher → List Action × Dispatcher
run [] d = ([], d)
run ((evt, now) ∷ rest) d =
    let (a, d') = handle evt now d in let (actions, end) = run rest d' in (a ∷ actions, end)
