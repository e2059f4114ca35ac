-- ===== src/Broker/Queues.antt =====
-- The queue of a channel: what a receive takes from it, and what a new subscriber has.
use chronos_monitor.Prelude.{ℕ, ◌≡◌, refl, List, [], ◌∷◌, some, none, true, arith}
use chronos_monitor.Broker.{subscribe, Event, Hub, update, has_sub, receive}

pub receive-empty :
    (id : ℕ) (hub : Hub) → (hub.channels id).queue ≡ [] → receive id hub ≡ (none, hub)
unfolding receive
receive-empty id hub e = rw e refl

abbrev pub popped : List Event → ℕ → Hub → Hub
popped queue id hub = record hub {
  channels = update hub.channels id (record (hub.channels id) { queue = queue });
}

pub receive-first :
    (evt : Event) (queue : List Event) (id : ℕ) (hub : Hub)
    → (hub.channels id).queue ≡ evt ∷ queue
    → receive id hub ≡ (some evt, popped queue id hub)
unfolding receive
receive-first evt queue id hub e = rw e refl

pub queue-popped :
    (queue : List Event) (id : ℕ) (hub : Hub) → ((popped queue id hub).channels id).queue ≡ queue
queue-popped queue id hub = ground arith

pub has_sub-subscribed : (hub : Hub) → has_sub hub.next (subscribe hub).1.subs ≡ true
unfolding subscribe has_sub
has_sub-subscribed hub = ground arith

pub queue-subscribed : (hub : Hub) → ((subscribe hub).1.channels hub.next).queue ≡ []
unfolding subscribe
queue-subscribed hub = ground arith
