-- ===== src/Broker/Runs.antt =====
-- Whole runs of the hub: what any sequence of calls leaves, and which events a subscriber that
-- does not keep up loses.
use mathlib.Core.Path.{fun_ext}
use mathlib.Core.List.{append_assoc, append-nil}
use chronos_monitor.Prelude.{
  take-all, ℕ, zero, suc, ◌≤◌, ◌≡◌, refl, ap, ◌∙◌, sym, List, [], ◌∷◌, ◌++◌, length, length-append,
  take, Option, some, Bool, true, false, ltb, if◌then◌else◌, arith, Bool-cases, inl, inr,
}
use chronos_monitor.Broker.{
  Event, Channel, Hub, capacity, has_sub, new_hub, subscribe, unsubscribe, offer, and_then, publish,
  receive,
}
use chronos_monitor.Broker.Publishing.{IsSound, offered, publish_lem}
use chronos_monitor.Broker.Soundness.{
  new_hub-IsSound, subscribe-IsSound, unsubscribe-IsSound, publish-IsSound, offered-IsSound,
  receive-IsSound,
}

-- What a goroutine may do to the hub.
pub data Call : Type 0 where
  subscribing : Call
  unsubscribing : ℕ → Call
  publishing : Event → Call
  receiving : ℕ → Call

pub perform : Call → Hub → Option Hub
perform subscribing hub = some (subscribe hub).1
perform (unsubscribing id) hub = unsubscribe id hub
perform (publishing evt) hub = publish evt hub
perform (receiving id) hub = some (receive id hub).1

unfoldable pub run_calls : List Call → Hub → Option Hub
unfolding perform
run_calls [] hub = some hub
run_calls (c ∷ cs) hub = and_then (perform c hub) (run_calls cs)

perform-IsSound :
    (c : Call) (hub : Hub) → IsSound hub → (hub' : Hub) × (perform c hub ≡ some hub') × IsSound hub'
unfolding perform
perform-IsSound subscribing hub s = ((subscribe hub).1, refl, subscribe-IsSound hub s)
perform-IsSound (unsubscribing id) hub s = unsubscribe-IsSound id hub s
perform-IsSound (publishing evt) hub s = publish-IsSound evt hub s
perform-IsSound (receiving id) hub s = ((receive id hub).1, refl, receive-IsSound id hub s)

run_calls-IsSound :
    (cs : List Call) (hub : Hub)
    → IsSound hub
    → (hub' : Hub) × (run_calls cs hub ≡ some hub') × IsSound hub'
unfolding run_calls
run_calls-IsSound [] hub s = (hub, refl, s)
run_calls-IsSound (c ∷ cs) hub s =
    let (mid, e, s') = perform-IsSound c hub s in
    let (end, e', s'') = run_calls-IsSound cs mid s' in (end, rw e e', s'')

-- However the methods of a new hub are interleaved, none of them panics: no event is sent on a
-- closed channel and no channel is closed twice. In the hub that results the subscriptions are
-- distinct and open, and no channel holds more than 16 events.
pub new_hub-run :
    (calls : List Call) → (hub : Hub) × (run_calls calls new_hub ≡ some hub) × IsSound hub
new_hub-run calls = run_calls-IsSound calls new_hub new_hub-IsSound

unfoldable pub publish_all : List Event → Hub → Option Hub
publish_all [] hub = some hub
publish_all (evt ∷ evts) hub = and_then (publish evt hub) (publish_all evts)

-- A channel that is offered events one after the other keeps the first that fit.
offer_all : List Event → Channel → Channel
offer_all [] ch = ch
offer_all (evt ∷ evts) ch = offer_all evts (offer evt ch)

take_full : (n : ℕ) (xs ys : List Event) → n ≤ length xs → take n (xs ++ ys) ≡ take n xs
take_full zero xs ys h = refl
take_full (suc n) [] ys h = absurd (omega arith)
take_full (suc n) (x ∷ xs) ys h = ap (λ l. x ∷ l) (take_full n xs ys (omega arith))

offer_room :
    (evt : Event) (ch : Channel)
    → ltb (length ch.queue) capacity ≡ true
    → offer evt ch ≡ record ch { queue = ch.queue ++ evt ∷ [] }
offer_room evt ch h = rw h refl

offer_full :
    (evt : Event) (ch : Channel) → ltb (length ch.queue) capacity ≡ false → offer evt ch ≡ ch
offer_full evt ch h = rw h refl

queue-offer_all :
    (evts : List Event) (ch : Channel)
    → length ch.queue ≤ capacity
    → (offer_all evts ch).queue ≡ take capacity (ch.queue ++ evts)
unfolding offer_all
queue-offer_all [] ch h = sym (rw (append-nil ch.queue) (take-all capacity ch.queue h))
queue-offer_all (evt ∷ evts) ch h = elim (Bool-cases (ltb (length ch.queue) capacity)) [
  | inl room ↦
      ap (λ c. (offer_all evts c).queue) (offer_room evt ch room)
      ∙ queue-offer_all evts (record ch { queue = ch.queue ++ evt ∷ [] })
          (ground (arith, length-append {0} ch.queue (evt ∷ [])))
      ∙ ap (take capacity) (append_assoc ch.queue (evt ∷ []) evts)
  | inr full ↦
      ap (λ c. (offer_all evts c).queue) (offer_full evt ch full)
      ∙ queue-offer_all evts ch h
      ∙ take_full capacity ch.queue evts (ground arith)
      ∙ sym (take_full capacity ch.queue (evt ∷ evts) (ground arith))
]

-- The channels after a run of publications.
abbrev all_offered : List Event → Hub → Hub
all_offered evts hub = record hub {
  channels = λ j. if has_sub j hub.subs then offer_all evts (hub.channels j) else hub.channels j;
}

all_offered_step :
    (evt : Event) (evts : List Event) (ch : Channel) (b : Bool)
    → (if b
        then offer_all evts (if b then offer evt ch else ch)
        else (if b then offer evt ch else ch))
      ≡ (if b then offer_all (evt ∷ evts) ch else ch)
unfolding offer_all
all_offered_step evt evts ch true = refl
all_offered_step evt evts ch false = refl

all_offered_none : (ch : Channel) (b : Bool) → ch ≡ (if b then offer_all [] ch else ch)
unfolding offer_all
all_offered_none ch true = refl
all_offered_none ch false = refl

publish_all-eq :
    (evts : List Event) (hub : Hub)
    → IsSound hub
    → publish_all evts hub ≡ some (all_offered evts hub)
unfolding publish_all
publish_all-eq [] hub s =
    ap (λ channels. some (record hub { channels = channels }))
      (fun_ext λ j. all_offered_none (hub.channels j) (has_sub j hub.subs))
publish_all-eq (evt ∷ evts) hub s = rw (publish_lem evt hub s) (
    publish_all-eq evts (offered evt hub.subs hub) (offered-IsSound evt hub s)
    ∙ ap (λ channels. some (record hub { channels = channels }))
        (fun_ext λ j. all_offered_step evt evts (hub.channels j) (has_sub j hub.subs)))

-- A subscriber that receives nothing while events are published holds, in order, what it held and
-- then the events, cut off at 16: just the events that do not fit are dropped. The publisher never
-- waits for it.
pub publish_all_lem :
    (evts : List Event) (hub : Hub) (id : ℕ)
    → IsSound hub
    → has_sub id hub.subs ≡ true
    → (hub' : Hub) × (publish_all evts hub ≡ some hub')
      × ((hub'.channels id).queue ≡ take capacity ((hub.channels id).queue ++ evts))
publish_all_lem evts hub id s h = (
  all_offered evts hub,
  publish_all-eq evts hub s,
  rw h (queue-offer_all evts (hub.channels id) (s.bounded id)),
)
