-- ===== src/Loops/Dispatching.antt =====
-- The dispatcher's loop: it never panics, and when it has returned its subscription is gone.
use chronos_monitor.Prelude.{
  ℕ, ◌≡◌, refl, ap, sym, ◌∙◌, List, [], ◌∷◌, Option, none, some, Bool, true, false, ◌++◌, ◌==◌,
  Bool-cases, inl, inr,
}
use chronos_monitor.Clock.{Time}
use chronos_monitor.Broker.{Event, Hub, has_sub, delete_sub, close, subscribe, unsubscribe, receive}
use chronos_monitor.Broker.Publishing.{IsSound, offered, publish_lem}
use chronos_monitor.Broker.Soundness.{
  subscribe-IsSound, unsubscribe-IsSound, offered-IsSound, receive-IsSound,
}
use chronos_monitor.Dispatcher.{Dispatcher, Action}
use chronos_monitor.Loops.{
  returned, Moment, published, woken, stopped, Dispatched, with_action, took, dispatch_loop,
  with_hub, leave, unsubscribed, run_dispatcher,
}

-- Without a panic: the loop returned, and the hub is sound.
abbrev IsDone : Option Dispatched → Type 0
IsDone none = ⊥
IsDone (some x) = IsSound x.hub × (x.ended ≡ returned)

with_action-IsDone : (a : Action) (x : Option Dispatched) → IsDone x → IsDone (with_action a x)
with_action-IsDone a none h = h
with_action-IsDone a (some x) h = h

took-IsDone :
    (x : Option Event × Hub) (closed : Bool) (now : Time) (d : Dispatcher)
    (rest : Dispatcher → Hub → Option Dispatched)
    → ((d' : Dispatcher) (hub : Hub) → IsSound hub → IsDone (rest d' hub))
    → IsSound x.1
    → IsDone (took x closed now d rest)
took-IsDone (some evt, hub) closed now d rest f h = with_action-IsDone _ _ (f _ hub h)
took-IsDone (none, hub) true now d rest f h = (h, refl)
took-IsDone (none, hub) false now d rest f h = f d hub h

dispatch_loop-IsDone :
    (before rest : List Moment) (id : ℕ) (d : Dispatcher) (hub : Hub)
    → IsSound hub
    → IsDone (dispatch_loop (before ++ stopped ∷ rest) id d hub)
unfolding dispatch_loop
dispatch_loop-IsDone [] rest id d hub h = (h, refl)
dispatch_loop-IsDone (published evt ∷ before) rest id d hub h =
    rw (publish_lem evt hub h)
      (dispatch_loop-IsDone before rest id d (offered evt hub.subs hub) (offered-IsSound evt hub h))
dispatch_loop-IsDone (woken now ∷ before) rest id d hub h =
    took-IsDone (receive id hub) (hub.channels id).closed now d
      (dispatch_loop (before ++ stopped ∷ rest) id)
      (λ d' hub' k. dispatch_loop-IsDone before rest id d' hub' k) (receive-IsSound id hub h)
dispatch_loop-IsDone (stopped ∷ before) rest id d hub h = (h, refl)

has_sub-delete : (id : ℕ) (ids : List ℕ) → has_sub id (delete_sub id ids) ≡ false
unfolding has_sub delete_sub
has_sub-delete id [] = refl
has_sub-delete id (j ∷ js) = elim (Bool-cases (j == id)) [
  | inl same ↦ rw same (has_sub-delete id js)
  | inr other ↦ rw (other, other) (has_sub-delete id js)
]

closed-subs : (id : ℕ) (hub hub' : Hub) → close id hub ≡ some hub' → hub'.subs ≡ hub.subs
unfolding close
closed-subs id hub hub' e = elim (Bool-cases (hub.channels id).closed) [
  | inl shut ↦ let e' = rw shut at e in cc
  | inr open_ ↦ let e' = rw open_ at e in ap (λ h. h.subs) (sym (unwrap e'))
]
  where
    unwrap : {a b : Hub} → some a ≡ some b → a ≡ b
    unwrap e = cc

unsubscribe-gone :
    (id : ℕ) (hub hub' : Hub) → unsubscribe id hub ≡ some hub' → has_sub id hub'.subs ≡ false
unfolding unsubscribe
unsubscribe-gone id hub hub' e = elim (Bool-cases (has_sub id hub.subs)) [
  | inl here ↦
      let gone : hub'.subs ≡ delete_sub id hub.subs = closed-subs id _ hub' (rw here at e) in
      rw gone (has_sub-delete id hub.subs)
  | inr absent ↦
      let same : some hub ≡ some hub' = rw absent at e in
      let e' : hub ≡ hub' = cc in rw (ap (λ h. has_sub id h.subs) (sym e')) absent
]

left :
    (id : ℕ) (x : Option Dispatched)
    → IsDone x
    → (y : Dispatched) × (unsubscribed id x ≡ some y)
      × (y.ended ≡ returned)
      × IsSound y.hub
      × (has_sub id y.hub.subs ≡ false)
left id none h = absurd h
left id (some x) (sound, e) =
    let (hub', gone, sound') = unsubscribe-IsSound id x.hub sound in
    (
      record x { hub = hub' },
      ap (λ ended. leave ended id x) e ∙ ap (with_hub x) gone,
      e,
      sound',
      unsubscribe-gone id x.hub hub' gone,
    )

-- The dispatcher's `Run` on a sound hub, whatever is published and whatever `select` takes: it does
-- not panic, and once it finds its context ended it has returned, with the subscription that it made
-- gone from the hub and the hub sound.
pub run_dispatcher-returned :
    (before rest : List Moment) (d : Dispatcher) (hub : Hub)
    → IsSound hub
    → (x : Dispatched) × (run_dispatcher (before ++ stopped ∷ rest) d hub ≡ some x)
      × (x.ended ≡ returned)
      × IsSound x.hub
      × (has_sub (subscribe hub).0 x.hub.subs ≡ false)
unfolding run_dispatcher
run_dispatcher-returned before rest d hub sound = left (subscribe hub).0 _ (
    dispatch_loop-IsDone before rest (subscribe hub).0 d (subscribe hub).1
      (subscribe-IsSound hub sound))
