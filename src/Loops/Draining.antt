-- ===== src/Loops/Draining.antt =====
-- What the dispatcher's loop does with the events that wait for it.
use chronos_monitor.Prelude.{
  ℕ, ◌≤◌, ◌≡◌, refl, ap, List, [], ◌∷◌, map, length, Option, none, some, Bool, true, false, pos,
  leb_ℤ, All, arith,
}
use chronos_monitor.Clock.{Time}
use chronos_monitor.Broker.{Event, Hub}
use chronos_monitor.Broker.Queues.{receive-empty, popped, receive-first, queue-popped}
use chronos_monitor.Dispatcher.{Dispatcher, Action, notified, is_alert, allow, handle}
use chronos_monitor.Loops.{woken, Dispatched, with_action, took, dispatch_loop}

abbrev pub alerted : Event → Action
alerted evt = notified evt.task

abbrev pub IsAlert : Event → Type 0
IsAlert evt = is_alert evt.kind ≡ true

-- The loop went on without a panic, and did `actions`.
abbrev pub Does : List Action → Option Dispatched → Type 0
Does actions x = (y : Dispatched) × (x ≡ some y) × (y.actions ≡ actions)

handle-alert :
    (evt : Event) (now : Time) (d : Dispatcher)
    → IsAlert evt
    → leb_ℤ d.limit (pos 0) ≡ true
    → handle evt now d ≡ (alerted evt, d)
unfolding handle allow
handle-alert evt now d alert free = rw (alert, free) refl

with_action-Does :
    (a : Action) (actions : List Action) (x : Option Dispatched)
    → Does actions x
    → Does (a ∷ actions) (with_action a x)
with_action-Does a actions x (y, e, same) =
    (record y { actions = a ∷ y.actions }, ap (with_action a) e, ap (λ l. a ∷ l) same)

took-none :
    (hub : Hub) (closed : Bool) (now : Time) (d : Dispatcher)
    (rest : Dispatcher → Hub → Option Dispatched)
    → Does [] (rest d hub)
    → Does [] (took (none, hub) closed now d rest)
took-none hub true now d rest h = (_, refl, refl)
took-none hub false now d rest h = h

pub dispatch_loop-Does :
    (times : List Time) (evts : List Event) (id : ℕ) (d : Dispatcher) (hub : Hub)
    → (hub.channels id).queue ≡ evts
    → All IsAlert evts
    → leb_ℤ d.limit (pos 0) ≡ true
    → length evts ≤ length times
    → Does (map alerted evts) (dispatch_loop (map woken times) id d hub)
unfolding dispatch_loop
dispatch_loop-Does [] [] id d hub e alerts free enough = (_, refl, refl)
dispatch_loop-Does [] (evt ∷ evts) id d hub e alerts free enough = absurd (omega (arith, enough))
dispatch_loop-Does (now ∷ times) [] id d hub e alerts free enough = rw (receive-empty id hub e) (
    took-none hub (hub.channels id).closed now d (dispatch_loop (map woken times) id)
      (dispatch_loop-Does times [] id d hub e tt free (omega arith)))
dispatch_loop-Does (now ∷ times) (evt ∷ evts) id d hub e alerts free enough =
    rw (receive-first evt evts id hub e, handle-alert evt now d alerts.0 free)
      (with_action-Does (alerted evt) (map alerted evts) _ (
        dispatch_loop-Does times evts id d (popped evts id hub) (queue-popped evts id hub) alerts.1
          free (omega arith)))
