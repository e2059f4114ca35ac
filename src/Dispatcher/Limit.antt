-- ===== src/Dispatcher/Limit.antt =====
-- How many alerts the rate limit lets through.
use chronos_monitor.Prelude.{
  ℕ, ◌+◌, ◌≤◌, ◌<◌, pos, ◌≤ℤ◌, ◌<ℤ◌, ◌+ℤ◌, leb_ℤ, +ℤ_parts, -ℤ_parts, ◌≡◌, ◌⊎◌, refl, Bool, true,
  false, List, [], ◌∷◌, All, arith, Bool-cases, inl, inr,
}
use chronos_monitor.Clock.{Time, sub, max_duration}
use chronos_monitor.Models.{TaskRun}
use chronos_monitor.Broker.{Event}
use chronos_monitor.Dispatcher.{
  Dispatcher, new_dispatcher, roll, count_one_more, allow, is_alert, Action, ignored, suppressed,
  notified, act, handle, run,
}

abbrev pub sent : Action → ℕ
sent ignored = 0
sent suppressed = 0
sent (notified task) = 1

-- The calls of the notifier among some actions.
unfoldable pub count_sent : List Action → ℕ
count_sent [] = 0
count_sent (a ∷ actions) = sent a + count_sent actions

abbrev granted : Bool → ℕ
granted true = 1
granted false = 0

-- A limit of `n` alerts, and no more than that counted.
pub record IsLimited (n : ℕ) (w : ℕ) (d : Dispatcher) : Type 0 where
  pub limit : d.limit ≡ pos n
  pub window : d.window ≡ pos w
  pub counted : d.window_count ≤ n

-- Times from `from` on, less than `w` nanoseconds later.
abbrev pub Within : Time → ℕ → Time → Type 0
Within from w t = (from ≤ℤ t) × (t <ℤ from +ℤ pos w)

module _ (n w : ℕ) (positive : 0 < n) (fits : pos w ≤ℤ max_duration) (from : Time) where
  no_roll :
      (now start : Time) → Within from w now → from ≤ℤ start → leb_ℤ (pos w) (sub now start) ≡ false
  unfolding sub
  no_roll now start h k = ground (arith, -ℤ_parts now start, +ℤ_parts from (pos w))

  -- What one step does to the count: `d'` is limited again, its window began no earlier than `e`,
  -- and `k` alerts were counted.
  abbrev Counts : Dispatcher → ℕ → Dispatcher → Type 0
  Counts d k d' =
      IsLimited n w d' × (d'.window_start ≡ d.window_start) × (k + d.window_count ≡ d'.window_count)

  count_one_more-Counts :
      (d : Dispatcher)
      → IsLimited n w d
      → Counts d (granted (count_one_more d).0) (count_one_more d).1
  count_one_more-Counts d l = elim (Bool-cases (leb_ℤ d.limit (pos d.window_count))) [
    | inl full ↦ rw full (l, refl, omega arith)
    | inr room ↦ rw room (
      record { limit = l.limit; window = l.window; counted = (let e = l.limit in ground arith) },
      refl,
      omega arith,
    )
  ]

  allow_limited :
      (now : Time) (d : Dispatcher) → IsLimited n w d → allow now d ≡ count_one_more (roll now d)
  unfolding allow
  allow_limited now d l =
      let e : leb_ℤ d.limit (pos 0) ≡ false = rw l.limit (ground arith) in rw e refl

  sent-act : (task : TaskRun) (x : Bool × Dispatcher) → sent (act task x).0 ≡ granted x.0
  sent-act task (true, d) = refl
  sent-act task (false, d) = refl

  act_state : (task : TaskRun) (x : Bool × Dispatcher) → (act task x).1 ≡ x.1
  act_state task (true, d) = refl
  act_state task (false, d) = refl

  -- With the window begun inside the interval there is no other window in it.
  handle_inside :
      (evt : Event) (now : Time) (d : Dispatcher)
      → IsLimited n w d
      → Within from w now
      → from ≤ℤ d.window_start
      → Counts d (sent (handle evt now d).0) (handle evt now d).1
  unfolding handle
  handle_inside evt now d l h k = elim (Bool-cases (is_alert evt.kind)) [
    | inl alert ↦
        let same : roll now d ≡ d = rw (l.window, no_roll now d.window_start h k) refl in
        rw (alert, sent-act, act_state, allow_limited now d l, same) (count_one_more-Counts d l)
    | inr quiet ↦ rw quiet (l, refl, omega arith)
  ]

  -- From any limited state, an event either leaves the window that there was, or begins one in
  -- the interval.
  handle_any :
      (evt : Event) (now : Time) (d : Dispatcher)
      → IsLimited n w d
      → Within from w now
      → Counts d (sent (handle evt now d).0) (handle evt now d).1
        ⊎ (IsLimited n w (handle evt now d).1
            × (from ≤ℤ (handle evt now d).1.window_start)
            × (sent (handle evt now d).0 ≡ (handle evt now d).1.window_count))
  unfolding handle
  handle_any evt now d l h = elim (Bool-cases (is_alert evt.kind)) [
    | inr quiet ↦ rw quiet (inl (l, refl, omega arith))
    | inl alert ↦
        rw (alert, sent-act, act_state, allow_limited now d l)
          (elim (Bool-cases (leb_ℤ d.window (sub now d.window_start))) [
            | inr early ↦
                let same : roll now d ≡ d = rw early refl in
                rw same (inl (count_one_more-Counts d l))
            | inl late ↦
                let fresh : Dispatcher = record d { window_start = now; window_count = 0 } in
                let same : roll now d ≡ fresh = rw late refl in
                let limited : IsLimited n w fresh = record {
                  limit = l.limit;
                  window = l.window;
                  counted = omega arith;
                } in
                let c = count_one_more-Counts fresh limited in
                rw same (inr (c.0, rw c.1 h.0, omega (arith, c.2)))
          ])
  ]

  abbrev AllWithin : List (Event × Time) → Type 0
  AllWithin = All (λ x. Within from w x.1)

  run_inside :
      (events : List (Event × Time)) (d : Dispatcher)
      → IsLimited n w d
      → AllWithin events
      → from ≤ℤ d.window_start
      → count_sent (run events d).0 + d.window_count ≤ n
  unfolding run count_sent
  run_inside [] d l h k = omega (arith, l.counted)
  run_inside ((evt, now) ∷ rest) d l h k =
      let c = handle_inside evt now d l h.0 k in
      omega (arith, c.2, run_inside rest (handle evt now d).1 c.0 h.1 (rw c.1 k))

  run_any :
      (events : List (Event × Time)) (d : Dispatcher)
      → IsLimited n w d
      → AllWithin events
      → count_sent (run events d).0 + d.window_count ≤ n + n
  unfolding run count_sent
  run_any [] d l h = omega (arith, l.counted)
  run_any ((evt, now) ∷ rest) d l h = elim (handle_any evt now d l h.0) [
    | inl c ↦ omega (arith, c.2, run_any rest (handle evt now d).1 c.0 h.1)
    | inr (limited, later, counted) ↦
        omega (arith, counted, l.counted, run_inside rest (handle evt now d).1 limited h.1 later)
  ]

module _ (n w : ℕ) (positive : 0 < n) (wide : 0 < w) (fits : pos w ≤ℤ max_duration) where
  handle-IsLimited :
      (evt : Event) (now : Time) (d : Dispatcher)
      → IsLimited n w d
      → IsLimited n w (handle evt now d).1
  handle-IsLimited evt now d l =
      let here : Within now w now = (omega arith, omega (arith, +ℤ_parts now (pos w))) in
      elim (handle_any n w positive fits now evt now d l here) [ inl c ↦ c.0 | inr c ↦ c.0 ]

  pub run-IsLimited :
      (events : List (Event × Time)) (d : Dispatcher)
      → IsLimited n w d
      → IsLimited n w (run events d).1
  unfolding run
  run-IsLimited [] d l = l
  run-IsLimited ((evt, now) ∷ rest) d l =
      run-IsLimited rest (handle evt now d).1 (handle-IsLimited evt now d l)

new_dispatcher-IsLimited : (n w : ℕ) → IsLimited n w (new_dispatcher (pos n) (pos w))
new_dispatcher-IsLimited n w = record { limit = refl; window = refl; counted = omega arith }

-- With a positive limit of `n` alerts and a window of `w` nanoseconds that int64 can hold,
-- whatever a new dispatcher handled before, it calls the notifier at most 2n times for events that
-- it handles within less than `w` nanoseconds of one another.
pub count_sent-run :
    (n w : ℕ) (from : Time) (before events : List (Event × Time))
    → 0 < n
    → 0 < w
    → pos w ≤ℤ max_duration
    → All (λ x. Within from w x.1) events
    → count_sent (run events (run before (new_dispatcher (pos n) (pos w))).1).0 ≤ n + n
count_sent-run n w from before events positive wide fits h = omega (
  arith,
  run_any n w positive fits from events (run before (new_dispatcher (pos n) (pos w))).1
      (run-IsLimited n w positive wide fits before (new_dispatcher (pos n) (pos w))
        (new_dispatcher-IsLimited n w))
      h,
)
