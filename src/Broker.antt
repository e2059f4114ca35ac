-- ===== src/Broker.antt =====
-- internal/broker/broker.go: the hub that fans events out to its subscribers. A channel is named
-- by a number; the hub's mutex makes each method one step. A send on a closed channel and a second
-- close panic in Go, which is `none` here.
pub mod Publishing
pub mod Soundness
pub mod Queues
pub mod Runs
mod Tests
use chronos_monitor.Prelude.{
  ℕ, suc, ◌+◌, String, List, [], ◌∷◌, ◌++◌, length, Option, none, some, Bool, true, false, ltb,
  ◌==◌, ◌||◌, if◌then◌else◌,
}
use chronos_monitor.Models.{TaskRun}

pub data EventType : Type 0 where
  started heartbeat succeeded failed timeout schedule_missed : EventType

abbrev pub event_text : EventType → String
event_text EventType.started = "task.started"
event_text EventType.heartbeat = "task.heartbeat"
event_text EventType.succeeded = "task.succeeded"
event_text EventType.failed = "task.failed"
event_text EventType.timeout = "task.timeout"
event_text EventType.schedule_missed = "schedule.missed"

pub record Event : Type 0 where
  pub kind : EventType
  pub task : TaskRun

pub record Channel : Type 0 where
  pub queue : List Event
  pub closed : Bool

-- The channels that were made so far are those below `next`.
pub record Hub : Type 0 where
  pub channels : ℕ → Channel
  pub next : ℕ
  pub subs : List ℕ

-- `make(chan Event, 16)`
abbrev pub capacity : ℕ
capacity = 16

abbrev pub empty_channel : Channel
empty_channel = record { queue = []; closed = false }

abbrev pub update : (ℕ → Channel) → ℕ → Channel → ℕ → Channel
update channels id ch j = if id == j then ch else channels j

unfoldable pub has_sub : ℕ → List ℕ → Bool
has_sub id [] = false
has_sub id (j ∷ js) = j == id || has_sub id js

-- `delete(h.subs, ch)`
unfoldable pub delete_sub : ℕ → List ℕ → List ℕ
delete_sub id [] = []
delete_sub id (j ∷ js) = let rest = delete_sub id js in if j == id then rest else j ∷ rest

-- `New`
abbrev pub new_hub : Hub
new_hub = record { channels = λ _. empty_channel; next = 0; subs = [] }

-- `Subscribe`: the new channel, and the hub
unfoldable pub subscribe : Hub → ℕ × Hub
subscribe hub = (
  hub.next,
  record {
    channels = update hub.channels hub.next empty_channel;
    next = hub.next + 1;
    subs = hub.next ∷ hub.subs;
  },
)

-- `close(ch)`
unfoldable pub close : ℕ → Hub → Option Hub
close id hub =
    if (hub.channels id).closed
    then none
    else some (record hub {
      channels = update hub.channels id (record (hub.channels id) { closed = true });
    })

-- the function that `Subscribe` returns
unfoldable pub unsubscribe : ℕ → Hub → Option Hub
unsubscribe id hub =
    if has_sub id hub.subs
    then close id (record hub { subs = delete_sub id hub.subs })
    else some hub

-- A send in a `select` with a default: a full channel drops the event.
abbrev pub offer : Event → Channel → Channel
offer evt ch =
    if ltb (length ch.queue) capacity then record ch { queue = ch.queue ++ evt ∷ [] } else ch

unfoldable pub send : Event → ℕ → Hub → Option Hub
send evt id hub =
    if (hub.channels id).closed
    then none
    else some (record hub { channels = update hub.channels id (offer evt (hub.channels id)) })

abbrev pub and_then : Option Hub → (Hub → Option Hub) → Option Hub
and_then none f = none
and_then (some hub) f = f hub

-- the loop of `Publish`
unfoldable pub send_all : Event → List ℕ → Hub → Option Hub
send_all evt [] hub = some hub
send_all evt (id ∷ ids) hub = and_then (send evt id hub) (send_all evt ids)

unfoldable pub publish : Event → Hub → Option Hub
publish evt hub = send_all evt hub.subs hub

-- A subscriber's receive: the oldest event; `none` where it would block or the channel is closed.
abbrev pub take_first : List Event → ℕ → Hub → Option Event × Hub
take_first [] id hub = (none, hub)
take_first (evt ∷ queue) id hub = (
  some evt,
  record hub { channels = update hub.channels id (record (hub.channels id) { queue = queue }) },
)

unfoldable pub receive : ℕ → Hub → Option Event × Hub
receive id hub = take_first (hub.channels id).queue id hub
