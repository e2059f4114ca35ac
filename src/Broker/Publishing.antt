-- ===== src/Broker/Publishing.antt =====
-- One step of the hub: no step panics, and publishing offers the event to each subscriber once,
-- in whatever order the subscribers are visited.
use mathlib.Core.Path.{fun_ext}
use chronos_monitor.Prelude.{
  ap, ℕ, ◌≤◌, ◌<◌, ◌≡◌, ◌≢◌, refl, inl, inr, List, [], ◌∷◌, length, length-append, some, false,
  ◌==◌, if◌then◌else◌, All, All-imp, arith, Bool-cases,
}
use chronos_monitor.Broker.{
  Event, Channel, Hub, capacity, update, has_sub, offer, send, send_all, publish,
}

abbrev pub IsFreshSub : ℕ → List ℕ → Type 0
IsFreshSub id ids = All (λ j. j ≢ id) ids

abbrev pub AreDistinct : List ℕ → Type 0
AreDistinct [] = Unit
AreDistinct (id ∷ ids) = IsFreshSub id ids × AreDistinct ids

abbrev pub IsLive : Hub → ℕ → Type 0
IsLive hub id = (id < hub.next) × ((hub.channels id).closed ≡ false)

-- Subscriptions are distinct and open, and no channel holds more than its capacity.
pub record IsSound (hub : Hub) : Type 0 where
  pub distinct : AreDistinct hub.subs
  pub live : All (IsLive hub) hub.subs
  pub bounded : (id : ℕ) → length (hub.channels id).queue ≤ capacity

has_sub_fresh : (id : ℕ) (ids : List ℕ) → IsFreshSub id ids → has_sub id ids ≡ false
unfolding has_sub
has_sub_fresh id [] h = refl
has_sub_fresh id (j ∷ js) h = ground (arith, has_sub_fresh id js h.1)

-- The channels after an event was offered along `ids`.
abbrev pub offered : Event → List ℕ → Hub → Hub
offered evt ids hub = record hub {
  channels = λ j. if has_sub j ids then offer evt (hub.channels j) else hub.channels j;
}

abbrev AreOpen : (ℕ → Channel) → List ℕ → Type 0
AreOpen channels ids = All (λ j. (channels j).closed ≡ false) ids

AreOpen-update :
    (channels : ℕ → Channel) (id : ℕ) (ch : Channel) (ids : List ℕ)
    → ch.closed ≡ false
    → AreOpen channels ids
    → AreOpen (update channels id ch) ids
AreOpen-update channels id ch [] c h = tt
AreOpen-update channels id ch (j ∷ js) c h =
    (ground (arith, h.0), AreOpen-update channels id ch js c h.1)

pub offer_closed : (evt : Event) (ch : Channel) → (offer evt ch).closed ≡ ch.closed
offer_closed evt ch = ground arith

offer_open : (evt : Event) (ch : Channel) → ch.closed ≡ false → (offer evt ch).closed ≡ false
offer_open evt ch h = ground arith

pub offer_bounded :
    (evt : Event) (ch : Channel)
    → length ch.queue ≤ capacity
    → length (offer evt ch).queue ≤ capacity
offer_bounded evt ch h = ground (arith, length-append {0} ch.queue (evt ∷ []))

send_open :
    (evt : Event) (id : ℕ) (hub : Hub)
    → (hub.channels id).closed ≡ false
    → send evt id hub
      ≡ some (record hub { channels = update hub.channels id (offer evt (hub.channels id)) })
unfolding send
send_open evt id hub h = rw h refl

offered_step :
    (evt : Event) (id : ℕ) (ids : List ℕ) (hub : Hub) (j : ℕ)
    → IsFreshSub id ids
    → (if has_sub j ids
        then offer evt (update hub.channels id (offer evt (hub.channels id)) j)
        else update hub.channels id (offer evt (hub.channels id)) j)
      ≡ (if has_sub j (id ∷ ids) then offer evt (hub.channels j) else hub.channels j)
unfolding has_sub
offered_step evt id ids hub j h = elim (Bool-cases (id == j)) [
  | inl same ↦
      let e : id ≡ j = ground arith in
      let absent : has_sub j ids ≡ false = rw e at (has_sub_fresh id ids h) in
      rw (same, absent) (rw e refl)
  | inr other ↦ rw other refl
]

pub send_all_lem :
    (evt : Event) (ids : List ℕ) (hub : Hub)
    → AreDistinct ids
    → AreOpen hub.channels ids
    → send_all evt ids hub ≡ some (offered evt ids hub)
unfolding send_all has_sub
send_all_lem evt [] hub d o = refl
send_all_lem evt (id ∷ ids) hub d o = rw (send_open evt id hub o.0) (
    rw
      (send_all_lem evt ids
        (record hub { channels = update hub.channels id (offer evt (hub.channels id)) }) d.1
        (AreOpen-update hub.channels id (offer evt (hub.channels id)) ids
          (offer_open evt (hub.channels id) o.0) o.1))
      (ap (λ channels. some (record hub { channels = channels }))
        (fun_ext λ j. offered_step evt id ids hub j d.0)))

live_open : (hub : Hub) (ids : List ℕ) → All (IsLive hub) ids → AreOpen hub.channels ids
live_open hub ids = All-imp (IsLive hub) (λ j. (hub.channels j).closed ≡ false) ids (λ j h. h.1)

-- Publishing on a sound hub does not panic. It offers the event once to each subscriber's channel,
-- which takes it unless it is full, and leaves the other channels and the subscriptions alone.
pub publish_lem :
    (evt : Event) (hub : Hub) → IsSound hub → publish evt hub ≡ some (offered evt hub.subs hub)
unfolding publish
publish_lem evt hub s = send_all_lem evt hub.subs hub s.distinct (live_open hub hub.subs s.live)
