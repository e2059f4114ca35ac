-- ===== src/Startup/Intervals.antt =====
-- For which configurations every job gets to its loop.
use chronos_monitor.Prelude.{
  ℕ, ◌*◌, ◌<◌, ◌-ℤ◌, ◌*ℤ◌, ◌≢◌, eq_iff, String, str_eq, pos, leb_ℤ, ltb_ℤ, ◌≤ℤ◌, ◌<ℤ◌, ◌≡◌, refl,
  ◌⊎◌, inl, inr, List, ◌∷◌, none, some, true, Bool-cases, arith,
}
use chronos_monitor.Config.{Config, load, get_env_int}
use chronos_monitor.Config.Atoi.{atoi}
use chronos_monitor.Startup.{
  Job, ttl_sweeper, missed_run_detector, new_ticker, ticked, start_job, start_jobs, dispatchers,
  cleaners, jobs_of,
}
use chronos_monitor.Clock.{Duration, second, duration_of, wrap64, int64_half}
use chronos_monitor.Cleaner.{new_cleaner}

abbrev pub HasIntervals : Config → Type 0
HasIntervals cfg =
    (pos 0 <ℤ cfg.ttl_sweep_interval)
    × (pos 0 <ℤ cfg.missed_run_check_interval)
    × ((cfg.retention_days ≤ℤ pos 0) ⊎ (pos 0 <ℤ cfg.retention_sweep_interval))

neither :
    (cfg : Config)
    → ltb_ℤ (pos 0) cfg.retention_days ≡ true
    → leb_ℤ cfg.retention_sweep_interval (pos 0) ≡ true
    → (cfg.retention_days ≤ℤ pos 0) ⊎ (pos 0 <ℤ cfg.retention_sweep_interval)
    → ⊥
neither cfg on low (inl h) = ground arith
neither cfg on low (inr h) = ground arith

abbrev Decided : Type 0 → List Job → Type 0
Decided P jobs = (P × (start_jobs jobs ≡ some jobs)) ⊎ ((P → ⊥) × (start_jobs jobs ≡ none))

ticker-Decided :
    (P : Type 0) (d : Duration) (job : Job) (jobs : List Job)
    → start_job job ≡ ticked (new_ticker d) job
    → Decided P jobs
    → Decided ((pos 0 <ℤ d) × P) (job ∷ jobs)
unfolding start_jobs
ticker-Decided P d job jobs h decided = elim (Bool-cases (leb_ℤ d (pos 0))) [
  | inl low ↦ inr (λ q. let p = q.0 in ground arith, rw (h, low) refl)
  | inr high ↦ elim decided [
    | inl (p, e) ↦ inl ((ground arith, p), rw (h, high, e) refl)
    | inr (n, e) ↦ inr (λ q. n q.1, rw (h, high, e) refl)
  ]
]

dispatchers-Decided :
    (P : Type 0) (cfg : Config) (jobs : List Job)
    → Decided P jobs
    → Decided P (dispatchers cfg jobs)
unfolding start_jobs
dispatchers-Decided P cfg jobs decided = elim (Bool-cases (str_eq cfg.alert_webhook_url "")) [
  | inl empty ↦ rw empty decided
  | inr full ↦ elim decided [
    | inl (p, e) ↦ inl (p, rw (full, e) refl)
    | inr (n, e) ↦ inr (n, rw (full, e) refl)
  ]
]

abbrev CleansWell : Config → Type 0
CleansWell cfg = (cfg.retention_days ≤ℤ pos 0) ⊎ (pos 0 <ℤ cfg.retention_sweep_interval)

cleaners-Decided : (cfg : Config) → Decided (CleansWell cfg) (cleaners cfg)
unfolding start_jobs new_cleaner
cleaners-Decided cfg = elim (Bool-cases (ltb_ℤ (pos 0) cfg.retention_days)) [
  | inl on ↦ elim (Bool-cases (leb_ℤ cfg.retention_sweep_interval (pos 0))) [
    | inl low ↦ inr (λ q. neither cfg on low q, rw (on, low) refl)
    | inr high ↦ inl (inr (ground arith), rw (on, high) refl)
  ]
  | inr off ↦ inl (inl (ground arith), rw off refl)
]

-- The jobs of a configuration all start, the dispatcher with a webhook and the cleaner with a
-- positive number of days, if the intervals of the sweep, of the missed-run check and, where it
-- runs, of the cleaner are positive. Otherwise one of them panics.
pub start_jobs_lem :
    (cfg : Config)
    → (HasIntervals cfg × (start_jobs (jobs_of cfg) ≡ some (jobs_of cfg)))
      ⊎ ((HasIntervals cfg → ⊥) × (start_jobs (jobs_of cfg) ≡ none))
unfolding jobs_of
start_jobs_lem cfg =
    let rest = dispatchers-Decided (CleansWell cfg) cfg (cleaners cfg) (cleaners-Decided cfg) in
    let checked =
      ticker-Decided (CleansWell cfg) cfg.missed_run_check_interval
        (missed_run_detector cfg.missed_run_check_interval) _ refl rest in
    elim (ticker-Decided _ cfg.ttl_sweep_interval (ttl_sweeper cfg.ttl_sweep_interval) _ refl
      checked) [
        | inl (p, e) ↦ inl ((p.0, p.1.0, p.1.1), e)
        | inr (n, e) ↦ inr (λ q. n (q.0, (q.1, q.2)), e)
      ]

-- A number of seconds from -9223372036 to 0.
not_positive :
    (n : ℕ) → n * second < int64_half → leb_ℤ (duration_of (pos 0 -ℤ pos n) second) (pos 0) ≡ true
unfolding duration_of wrap64 ◌*ℤ◌ ◌-ℤ◌
not_positive n h = ground arith

sweep_interval :
    (getenv : String → String) (n : ℕ)
    → getenv "CHRONOS_TTL_SWEEP_INTERVAL_SECONDS" ≢ ""
    → atoi (getenv "CHRONOS_TTL_SWEEP_INTERVAL_SECONDS") ≡ some (pos 0 -ℤ pos n)
    → n * second < int64_half
    → leb_ℤ (load getenv).ttl_sweep_interval (pos 0) ≡ true
unfolding load get_env_int
sweep_interval getenv n set e h =
    elim (Bool-cases (str_eq (getenv "CHRONOS_TTL_SWEEP_INTERVAL_SECONDS") "")) [
      | inl empty ↦ absurd (set ((eq_iff _ "").0 empty))
      | inr full ↦ rw (full, e) (not_positive n h)
    ]

-- If the variable for the interval of the sweep is set to a number of seconds from -9223372036 to 0,
-- then a job of the server panics when it starts, whatever the other variables are.
pub start_jobs-load :
    (getenv : String → String) (n : ℕ)
    → getenv "CHRONOS_TTL_SWEEP_INTERVAL_SECONDS" ≢ ""
    → atoi (getenv "CHRONOS_TTL_SWEEP_INTERVAL_SECONDS") ≡ some (pos 0 -ℤ pos n)
    → n * second < int64_half
    → start_jobs (jobs_of (load getenv)) ≡ none
start_jobs-load getenv n set e h = elim (start_jobs_lem (load getenv)) [
  | inl (p, started) ↦
      absurd (let low = sweep_interval getenv n set e h in let high = p.0 in ground arith)
  | inr (q, panics) ↦ panics
]
