-- ===== src/ScheduleHandler/Validation.antt =====
-- Which registrations `Register` accepts.
use chronos_monitor.Prelude.{
  String, str_eq, eq_iff, ℤ, pos, leb_ℤ, ltb_ℤ, ◌<ℤ◌, ◌≡◌, ◌≢◌, refl, ◌⊎◌, inl, inr, Option, none,
  some, true, false, arith, Bool-cases, ne_of_test,
}
use chronos_monitor.Clock.{Time}
use chronos_monitor.Models.{RegisterScheduleRequest}
use chronos_monitor.Schedules.{upsert}
use chronos_monitor.Schedules.Invariant.{HasMode, IsExpectation}
use chronos_monitor.Server.{Server, Response}
use chronos_monitor.ScheduleHandler.{
  expectation_of, is_some, is_not_empty, not_positive, not_exactly_one, invalid_cron,
  negative_grace, refusal_of, switch, after_upsert, register,
}

is_some-cases {ℓ} :
    {A : Type ℓ} (o : Option A)
    → ((is_some o ≡ true) × (o ≢ none)) ⊎ ((is_some o ≡ false) × (o ≡ none))
is_some-cases none = inr (refl, refl)
is_some-cases (some a) = inl (refl, λ e. ground arith)

module _ (parse_standard : String → Option (Time → Time)) where
  abbrev Refused : Option ℤ → Option String → RegisterScheduleRequest → Type 0
  Refused interval cron req =
      (r : Response) × (refusal_of parse_standard (is_some interval) (is_not_empty cron) req
        ≡ some r)
      × (r.status ≡ 400)
      × (HasMode parse_standard interval cron → ⊥)

  abbrev Accepted : Option ℤ → Option String → RegisterScheduleRequest → Type 0
  Accepted interval cron req =
      (refusal_of parse_standard (is_some interval) (is_not_empty cron) req ≡ none)
      × HasMode parse_standard interval cron

  module _ (req : RegisterScheduleRequest) where
    interval_cases :
        (n : ℤ)
        → req.expected_interval_seconds ≡ some n
        → ((refusal_of parse_standard true false req ≡ none) × (pos 0 <ℤ n))
          ⊎ ((r : Response) × (refusal_of parse_standard true false req ≡ some r)
              × (r.status ≡ 400)
              × (pos 0 <ℤ n → ⊥))
    interval_cases n e = elim (Bool-cases (leb_ℤ n (pos 0))) [
      | inl low ↦ inr (not_positive, rw (e, low) refl, refl, λ k. ground arith)
      | inr high ↦ inl (rw (e, high) refl, ground arith)
    ]

    cron_cases :
        (text : String)
        → req.cron_expression ≡ some text
        → ((refusal_of parse_standard false true req ≡ none) × (parse_standard text ≢ none))
          ⊎ ((r : Response) × (refusal_of parse_standard false true req ≡ some r)
              × (r.status ≡ 400)
              × (parse_standard text ≡ none))
    cron_cases text e = elim (is_some-cases (parse_standard text)) [
      | inl good ↦ inl (rw (e, good.0) refl, good.1)
      | inr bad ↦ inr (invalid_cron, rw (e, bad.0) refl, refl, bad.1)
    ]

    -- The switch of `Register` lets through what has a mode, and answers all else with 400.
    pub switch_cases :
        (interval : Option ℤ) (cron : Option String)
        → req.expected_interval_seconds ≡ interval
        → req.cron_expression ≡ cron
        → Accepted interval cron req ⊎ Refused interval cron req
    switch_cases (some n) none e e' = interval_cases n e
    switch_cases (some n) (some text) e e' = elim (Bool-cases (str_eq text "")) [
      | inl empty ↦ elim (interval_cases n e) [
        | inl good ↦ inl (rw empty good.0, (good.1, (eq_iff text "").0 empty))
        | inr (r, q, st, bar) ↦ inr (r, rw empty q, st, λ k. bar k.0)
      ]
      | inr full ↦ inr (not_exactly_one, rw full refl, refl, λ k. ne_of_test text "" full k.1)
    ]
    switch_cases none (some text) e e' = elim (Bool-cases (str_eq text "")) [
      | inl empty ↦ inr (not_exactly_one, rw empty refl, refl, λ k. k.0 ((eq_iff text "").0 empty))
      | inr full ↦ elim (cron_cases text e') [
        | inl good ↦ inl (rw full good.0, (ne_of_test text "" full, good.1))
        | inr (r, q, st, bar) ↦ inr (r, rw full q, st, λ k. k.1 bar)
      ]
    ]
    switch_cases none none e e' = inr (not_exactly_one, refl, refl, λ k. k)

  pub register-valid :
      (req : RegisterScheduleRequest) (now : Time) (s : Server)
      → switch parse_standard req ≡ none
      → ltb_ℤ req.grace_period_seconds (pos 0) ≡ false
      → register parse_standard (some req) now s
        ≡ after_upsert (upsert req.task_name (expectation_of req) now s.db) s.hub
  unfolding register
  register-valid req now s h g = rw (h, g) refl

  register-refused :
      (req : RegisterScheduleRequest) (now : Time) (s : Server) (r : Response)
      → switch parse_standard req ≡ some r
      → register parse_standard (some req) now s ≡ (r, s)
  unfolding register
  register-refused req now s r h = rw h refl

  register-negative :
      (req : RegisterScheduleRequest) (now : Time) (s : Server)
      → switch parse_standard req ≡ none
      → ltb_ℤ req.grace_period_seconds (pos 0) ≡ true
      → register parse_standard (some req) now s ≡ (negative_grace, s)
  unfolding register
  register-negative req now s h g = rw (h, g) refl

  -- A registration with exactly one of a positive interval and a cron expression that parses (an
  -- empty one counting as none) and a grace period that is not negative goes to the store as it is,
  -- and the answer is 204 if the store reports no error. Any other is answered with 400 and changes
  -- nothing.
  pub register_cases :
      (req : RegisterScheduleRequest) (now : Time) (s : Server)
      → (IsExpectation parse_standard (expectation_of req)
          × (register parse_standard (some req) now s
              ≡ after_upsert (upsert req.task_name (expectation_of req) now s.db) s.hub))
        ⊎ ((IsExpectation parse_standard (expectation_of req) → ⊥)
            × ((register parse_standard (some req) now s).0.status ≡ 400)
            × ((register parse_standard (some req) now s).1 ≡ s))
  register_cases req now s =
      elim (switch_cases req req.expected_interval_seconds req.cron_expression refl refl) [
        | inl good ↦ elim (Bool-cases (ltb_ℤ req.grace_period_seconds (pos 0))) [
          | inl low ↦ inr (
            λ x. ground (arith, x.1),
            rw (register-negative req now s good.0 low) refl,
            rw (register-negative req now s good.0 low) refl,
          )
          | inr high ↦ inl ((good.1, ground arith), register-valid req now s good.0 high)
        ]
        | inr (r, q, st, bar) ↦ inr (
          λ x. bar x.0,
          rw (register-refused req now s r q) st,
          rw (register-refused req now s r q) refl,
        )
      ]
