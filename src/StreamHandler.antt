-- ===== src/StreamHandler.antt =====
-- internal/handlers/stream_handler.go: the event stream of one client. The callback of `c.Stream`
-- waits for an event or for the end of the request; what other goroutines publish in between is
-- part of the run.
pub mod Turns
pub mod Order
mod Tests
use chronos_monitor.Prelude.{ℕ, String, List, [], ◌∷◌, Option, none, some, Bool, true, false}
use chronos_monitor.Models.{TaskRun}
use chronos_monitor.Broker.{Event, event_text, Hub, publish, receive, subscribe, unsubscribe}

-- What the client gets: `c.SSEvent(event.Type, event.Task)`.
pub record Message : Type 0 where
  pub name : String
  pub task : TaskRun

abbrev pub message_of : Event → Message
message_of evt = record { name = event_text evt.kind; task = evt.task }

pub data Moment : Type 0 where
  -- another goroutine publishes an event
  published : Event → Moment
  -- the callback gets the processor
  woken : Moment

-- One turn of the callback: with an event it sends a message and goes on; with none it waits, or
-- ends if the channel is closed, and sends nothing.
abbrev pub with_message : Option Event → List Message → List Message
with_message none rest = rest
with_message (some evt) rest = message_of evt ∷ rest

abbrev pub and_send : Option Event → Option (List Message × Hub) → Option (List Message × Hub)
and_send evt none = none
and_send evt (some (messages, hub)) = some (with_message evt messages, hub)

abbrev pub after_publish :
    Option Hub → (Hub → Option (List Message × Hub)) → Option (List Message × Hub)
after_publish none rest = none
after_publish (some hub) rest = rest hub

-- The messages that the stream sends over some moments, until the request ends.
unfoldable pub stream : List Moment → ℕ → Hub → Option (List Message × Hub)
stream [] id hub = some ([], hub)
stream (published evt ∷ rest) id hub = after_publish (publish evt hub) (stream rest id)
stream (woken ∷ rest) id hub = and_send (receive id hub).0 (stream rest id (receive id hub).1)

abbrev pub closed_stream : Option (List Message × Hub) → ℕ → Option (List Message × Hub)
closed_stream none id = none
closed_stream (some (messages, hub)) id =
    after_publish (unsubscribe id hub) (λ h. some (messages, h))

-- `Stream`: subscribed at first, and unsubscribed at the end by the deferred call.
unfoldable pub serve_stream : List Moment → Hub → Option (List Message × Hub)
serve_stream moments hub =
    closed_stream (stream moments (subscribe hub).0 (subscribe hub).1) (subscribe hub).0
