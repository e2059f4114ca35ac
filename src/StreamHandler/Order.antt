-- ===== src/StreamHandler/Order.antt =====
-- In which order a stream sends the events that are published.
use chronos_monitor.Prelude.{
  ℕ, suc, ltb, ◌+◌, ◌≤◌, ◌≡◌, refl, sym, ap, ◌∙◌, List, [], ◌∷◌, ◌++◌, map, length, length-append,
  some, none, true, arith,
}
use chronos_monitor.Broker.{subscribe, Event, Hub, capacity, has_sub}
use chronos_monitor.Broker.Publishing.{IsSound, offered, publish_lem}
use chronos_monitor.Broker.Soundness.{
  subscribe-IsSound, unsubscribe-IsSound, offered-IsSound, receive-IsSound,
}
use chronos_monitor.Broker.Queues.{
  receive-empty, popped, receive-first, queue-popped, has_sub-subscribed, queue-subscribed,
}
use chronos_monitor.StreamHandler.Turns.{
  events_of, received, turns, received-prefix, received-all, events_of-append_turns,
}
use chronos_monitor.StreamHandler.{
  message_of, Moment, published, woken, and_send, stream, serve_stream,
}

-- The messages are those of the queue without a bound, of which `waiting` is there at first.
abbrev SendsInOrder : List Moment → ℕ → Hub → List Event → Type 0
SendsInOrder moments id hub waiting =
    (end : Hub) × (stream moments id hub ≡ some (map message_of (received moments waiting), end))
    × IsSound end

queue-offered :
    (evt : Event) (id : ℕ) (hub : Hub)
    → has_sub id hub.subs ≡ true
    → suc (length (hub.channels id).queue) ≤ capacity
    → ((offered evt hub.subs hub).channels id).queue ≡ (hub.channels id).queue ++ evt ∷ []
queue-offered evt id hub h room =
    rw h (
      let fits : ltb (length (hub.channels id).queue) capacity ≡ true = ground arith in
      rw fits refl)

abbrev Ordered : List Moment → ℕ → Type 0
Ordered moments id =
    (hub : Hub)
    → IsSound hub
    → has_sub id hub.subs ≡ true
    → length (hub.channels id).queue + length (events_of moments) ≤ capacity
    → SendsInOrder moments id hub (hub.channels id).queue

woken-SendsInOrder :
    (queue : List Event) (rest : List Moment) (id : ℕ) (hub : Hub)
    → Ordered rest id
    → (hub.channels id).queue ≡ queue
    → IsSound hub
    → has_sub id hub.subs ≡ true
    → length (hub.channels id).queue + length (events_of rest) ≤ capacity
    → SendsInOrder (woken ∷ rest) id hub queue
unfolding stream
woken-SendsInOrder [] rest id hub ih e s h room =
    let (end, q, s') = ih hub s h room in
    let q' : stream rest id hub ≡ some (map message_of (received rest []), end) = rw e at q in
    (
      end,
      ap (λ r. and_send r.0 (stream rest id r.1)) (receive-empty id hub e) ∙ ap (and_send none) q',
      s',
    )
woken-SendsInOrder (evt ∷ queue) rest id hub ih e s h room =
    let sound : IsSound (popped queue id hub) =
      rw (receive-first evt queue id hub e) at (receive-IsSound id hub s) in
    let fits : length ((popped queue id hub).channels id).queue + length (events_of rest)
        ≤ capacity =
      rw (queue-popped queue id hub) (
        let shorter : suc (length queue) + length (events_of rest) ≤ capacity = rw e at room in
        omega arith) in
    let (end, q, s') = ih (popped queue id hub) sound h fits in
    let q' : stream rest id (popped queue id hub)
        ≡ some (map message_of (received rest queue), end) =
      rw (queue-popped queue id hub) at q in
    (
      end,
      ap (λ r. and_send r.0 (stream rest id r.1)) (receive-first evt queue id hub e)
          ∙ ap (and_send (some evt)) q',
      s',
    )

published-SendsInOrder :
    (evt : Event) (rest : List Moment) (id : ℕ) (hub : Hub)
    → Ordered rest id
    → IsSound hub
    → has_sub id hub.subs ≡ true
    → length (hub.channels id).queue + suc (length (events_of rest)) ≤ capacity
    → SendsInOrder (published evt ∷ rest) id hub (hub.channels id).queue
unfolding stream
published-SendsInOrder evt rest id hub ih s h room =
    let grown = queue-offered evt id hub h (omega arith) in
    let longer = length-append {0} (hub.channels id).queue (evt ∷ []) in
    let fits : length ((offered evt hub.subs hub).channels id).queue + length (events_of rest)
        ≤ capacity =
      rw grown (omega (arith, longer)) in
    let (end, q, s') = ih (offered evt hub.subs hub) (offered-IsSound evt hub s) h fits in
    (end, rw (publish_lem evt hub s, q, grown) refl, s')

-- A stream of a sound hub for which, with what waits already, at most 16 events are published.
stream-SendsInOrder :
    (moments : List Moment) (id : ℕ) (hub : Hub)
    → IsSound hub
    → has_sub id hub.subs ≡ true
    → length (hub.channels id).queue + length (events_of moments) ≤ capacity
    → SendsInOrder moments id hub (hub.channels id).queue
unfolding stream
stream-SendsInOrder [] id hub s h room = (hub, refl, s)
stream-SendsInOrder (published evt ∷ rest) id hub s h room =
    published-SendsInOrder evt rest id hub (stream-SendsInOrder rest id) s h room
stream-SendsInOrder (woken ∷ rest) id hub s h room =
    woken-SendsInOrder _ rest id hub (stream-SendsInOrder rest id) refl s h room

served :
    (moments : List Moment) (hub : Hub)
    → IsSound hub
    → length (events_of moments) ≤ capacity
    → (end : Hub) × (serve_stream moments hub ≡ some (map message_of (received moments []), end))
      × IsSound end
unfolding serve_stream subscribe
served moments hub s few =
    let empty = queue-subscribed hub in
    let fits : length ((subscribe hub).1.channels hub.next).queue + length (events_of moments)
        ≤ capacity =
      rw empty (omega arith) in
    let (end, e, sound) =
      stream-SendsInOrder moments hub.next (subscribe hub).1 (subscribe-IsSound hub s)
        (has_sub-subscribed hub) fits in
    let (left, u, sound') = unsubscribe-IsSound hub.next end sound in
    let e' : stream moments hub.next (subscribe hub).1
        ≡ some (map message_of (received moments []), end) =
      rw empty at e in
    (left, rw (e', u) refl, sound')

-- A client's stream during which at most 16 events are published, on a sound hub, however the turns
-- of the callback fall between them, does not panic: each turn of the callback sends the oldest
-- event that was published since the client subscribed and was not sent yet, and nothing if there
-- is none. The events that are sent are the first that were published, in their order, and the hub
-- that the stream leaves is sound.
pub serve_stream_lem :
    (moments : List Moment) (hub : Hub)
    → IsSound hub
    → length (events_of moments) ≤ capacity
    → (unsent : List Event) × (end : Hub) × (serve_stream moments hub
        ≡ some (map message_of (received moments []), end))
      × (received moments [] ++ unsent ≡ events_of moments)
      × IsSound end
serve_stream_lem moments hub s few =
    let (end, e, sound) = served moments hub s few in
    let (unsent, first) = received-prefix moments [] in (unsent, end, e, first, sound)

-- A client's stream during which at most 16 events are published, on a sound hub: once the callback
-- has had as many turns after the last publication as there were events, the client has got one
-- message for each event, in the order in which they were published, and the hub that the stream
-- leaves is sound.
pub serve_stream-turns :
    (moments : List Moment) (n : ℕ) (hub : Hub)
    → IsSound hub
    → length (events_of moments) ≤ capacity
    → length (events_of moments) ≤ n
    → (end : Hub) × (serve_stream (moments ++ turns n) hub
        ≡ some (map message_of (events_of moments), end))
      × IsSound end
serve_stream-turns moments n hub s few enough =
    let (end, e, sound) =
      served (moments ++ turns n) hub s (rw (events_of-append_turns moments n) few) in
    (end, rw (sym (received-all moments n [] (omega (arith, enough)))) e, sound)
