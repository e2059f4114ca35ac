-- ===== src/Broker/Soundness.antt =====
-- The invariant of the hub under each of its methods and a subscriber's receive.
use chronos_monitor.Prelude.{
  ℕ, ◌≤◌, ◌≡◌, ◌≢◌, refl, inl, inr, List, [], ◌∷◌, length, some, true, false, ◌==◌, All, All-imp,
  arith, Bool-cases,
}
use chronos_monitor.Broker.{
  Event, Channel, Hub, capacity, empty_channel, update, has_sub, delete_sub, new_hub, subscribe,
  close, unsubscribe, publish, receive, take_first,
}
use chronos_monitor.Broker.Publishing.{
  IsFreshSub, AreDistinct, IsLive, IsSound, offered, offer_bounded, offer_closed, publish_lem,
}

pub new_hub-IsSound : IsSound new_hub
new_hub-IsSound = record { distinct = tt; live = tt; bounded = λ id. omega arith }

update_bounded :
    (channels : ℕ → Channel) (id : ℕ) (ch : Channel)
    → length ch.queue ≤ capacity
    → ((j : ℕ) → length (channels j).queue ≤ capacity)
    → (j : ℕ) → length (update channels id ch j).queue ≤ capacity
update_bounded channels id ch h k j = ground (arith, k j)

below-IsFreshSub : (hub : Hub) (ids : List ℕ) → All (IsLive hub) ids → IsFreshSub hub.next ids
below-IsFreshSub hub ids = All-imp (IsLive hub) (λ j. j ≢ hub.next) ids (λ j h. omega (arith, h.0))

subscribe-IsLive : (hub : Hub) (j : ℕ) → IsLive hub j → IsLive (subscribe hub).1 j
unfolding subscribe
subscribe-IsLive hub j h = (omega (arith, h.0), ground (arith, h.0, h.1))

pub subscribe-IsSound : (hub : Hub) → IsSound hub → IsSound (subscribe hub).1
unfolding subscribe
subscribe-IsSound hub s = record {
  distinct = (below-IsFreshSub hub hub.subs s.live, s.distinct);
  live = (
    (omega arith, ground arith),
    All-imp (IsLive hub) (IsLive (subscribe hub).1) hub.subs (subscribe-IsLive hub) s.live,
  );
  bounded = update_bounded hub.channels hub.next empty_channel (omega arith) s.bounded;
}

-- Deleting a subscription.
delete-IsFreshSub : (k id : ℕ) (ids : List ℕ) → IsFreshSub k ids → IsFreshSub k (delete_sub id ids)
unfolding delete_sub
delete-IsFreshSub k id [] h = tt
delete-IsFreshSub k id (j ∷ js) h = ground (arith, delete-IsFreshSub k id js h.1)

delete-AreDistinct : (id : ℕ) (ids : List ℕ) → AreDistinct ids → AreDistinct (delete_sub id ids)
unfolding delete_sub
delete-AreDistinct id [] h = tt
delete-AreDistinct id (j ∷ js) h =
    ground (arith, delete-AreDistinct id js h.1, delete-IsFreshSub j id js h.0)

-- What holds of the subscriptions, and stays true of the others when `id` is closed.
delete-All :
    (P Q : ℕ → Type 0) (id : ℕ) (ids : List ℕ)
    → ((j : ℕ) → j ≢ id → P j → Q j)
    → All P ids
    → All Q (delete_sub id ids)
unfolding delete_sub
delete-All P Q id [] f h = tt
delete-All P Q id (j ∷ js) f h = elim (Bool-cases (j == id)) [
  | inl same ↦ rw same (delete-All P Q id js f h.1)
  | inr other ↦ rw other (f j (ground arith) h.0, delete-All P Q id js f h.1)
]

has_sub-All : (P : ℕ → Type 0) (id : ℕ) (ids : List ℕ) → All P ids → has_sub id ids ≡ true → P id
unfolding has_sub
has_sub-All P id [] h e = cc
has_sub-All P id (j ∷ js) h e = elim (Bool-cases (j == id)) [
  | inl same ↦ let q : j ≡ id = ground arith in rw q at h.0
  | inr other ↦ has_sub-All P id js h.1 (ground arith)
]

closed_at : Hub → ℕ → Hub
closed_at hub id = record hub {
  channels = update hub.channels id (record (hub.channels id) { closed = true });
  subs = delete_sub id hub.subs;
}

unsubscribe_present :
    (id : ℕ) (hub : Hub)
    → IsSound hub
    → has_sub id hub.subs ≡ true
    → unsubscribe id hub ≡ some (closed_at hub id)
unfolding unsubscribe close closed_at
unsubscribe_present id hub s h = rw (h, (has_sub-All (IsLive hub) id hub.subs s.live h).1) refl

closed_at-IsSound : (id : ℕ) (hub : Hub) → IsSound hub → IsSound (closed_at hub id)
unfolding closed_at
closed_at-IsSound id hub s = record {
  distinct = delete-AreDistinct id hub.subs s.distinct;
  live = delete-All (IsLive hub) _ id hub.subs (λ j ne h. (h.0, ground (arith, h.1))) s.live;
  bounded =
      update_bounded hub.channels id (record (hub.channels id) { closed = true }) (s.bounded id)
        s.bounded;
}

unsubscribe_absent :
    (id : ℕ) (hub : Hub) → has_sub id hub.subs ≡ false → unsubscribe id hub ≡ some hub
unfolding unsubscribe
unsubscribe_absent id hub h = rw h refl

-- Calling an unsubscribe function never panics, also when it was called before, and keeps the
-- hub sound.
pub unsubscribe-IsSound :
    (id : ℕ) (hub : Hub)
    → IsSound hub
    → (hub' : Hub) × (unsubscribe id hub ≡ some hub') × IsSound hub'
unsubscribe-IsSound id hub s = elim (Bool-cases (has_sub id hub.subs)) [
  | inl h ↦ (closed_at hub id, unsubscribe_present id hub s h, closed_at-IsSound id hub s)
  | inr h ↦ (hub, unsubscribe_absent id hub h, s)
]

offered-IsLive :
    (evt : Event) (hub : Hub) (j : ℕ) → IsLive hub j → IsLive (offered evt hub.subs hub) j
offered-IsLive evt hub j h = (h.0, ground (arith, offer_closed evt (hub.channels j), h.1))

pub offered-IsSound : (evt : Event) (hub : Hub) → IsSound hub → IsSound (offered evt hub.subs hub)
offered-IsSound evt hub s = record {
  distinct = s.distinct;
  live = All-imp (IsLive hub) _ hub.subs (offered-IsLive evt hub) s.live;
  bounded = λ j. ground (arith, s.bounded j, offer_bounded evt (hub.channels j));
}

pub publish-IsSound :
    (evt : Event) (hub : Hub)
    → IsSound hub
    → (hub' : Hub) × (publish evt hub ≡ some hub') × IsSound hub'
publish-IsSound evt hub s =
    (offered evt hub.subs hub, publish_lem evt hub s, offered-IsSound evt hub s)

take_first-IsSound :
    (queue : List Event) (id : ℕ) (hub : Hub)
    → length queue ≤ capacity
    → IsSound hub
    → IsSound (take_first queue id hub).1
take_first-IsSound [] id hub h s = s
take_first-IsSound (evt ∷ queue) id hub h s = record {
  distinct = s.distinct;
  live = All-imp (IsLive hub) _ hub.subs (λ j l. (l.0, ground (arith, l.1))) s.live;
  bounded =
      update_bounded hub.channels id (record (hub.channels id) { queue = queue }) (omega arith)
        s.bounded;
}

pub receive-IsSound : (id : ℕ) (hub : Hub) → IsSound hub → IsSound (receive id hub).1
unfolding receive
receive-IsSound id hub s = take_first-IsSound (hub.channels id).queue id hub (s.bounded id) s
