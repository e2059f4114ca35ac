-- ===== src/Threads/Interleavings.antt =====
-- Whole runs of the server's threads.
use chronos_monitor.Prelude.{
  ℕ, ◌+◌, ◌-◌, ◌≡◌, refl, String, List, [], ◌∷◌, ◌++◌, Option, none, some, Bool, Bool-cases, inl,
  inr, All, All-append, ◌==◌, if◌then◌else◌, arith,
}
use chronos_monitor.Clock.{Time}
use chronos_monitor.Database.{Outcome}
use chronos_monitor.Broker.Soundness.{subscribe-IsSound, unsubscribe-IsSound, receive-IsSound}
use chronos_monitor.Server.{Server}
use chronos_monitor.System.Invariant.{IsHealthy}
use chronos_monitor.System.Runs.{new_server, new_server-IsHealthy}
use chronos_monitor.Threads.{
  Point, enter, move, Pool, Turn, arriving, sweep_due, check_due, clean_due, moving, joining,
  leaving, receiving, thread_at, replace_at, moved, move_thread, turn, turns,
}
use chronos_monitor.Threads.Ticks.{Tick}
use chronos_monitor.Threads.TickSafety.{Leads}
use chronos_monitor.Threads.Safety.{IsLegal, enter-IsLegal, GoesOn, move-GoesOn}
use chronos_monitor.Threads.Ending.{Every, AnswersWithin, move-AnswersWithin}
use chronos_monitor.Threads.Lookup.{
  thread_at-All, replace_at-All, thread_at-replace, thread_at-replace_other, thread_at-append,
}

-- The threads at a pool's start, and at a number.
abbrev pub new_pool : List Outcome → Pool
new_pool outcomes = record { server = new_server outcomes; threads = [] }

-- How many of the turns are those of thread `i`.
abbrev own : ℕ → Turn → ℕ
own i (moving j) = if i == j then 1 else 0
own i (arriving q now) = 0
own i (sweep_due now) = 0
own i (check_due now) = 0
own i (clean_due c now) = 0
own i joining = 0
own i (leaving id) = 0
own i (receiving id) = 0

abbrev pub moves_of : ℕ → List Turn → ℕ
moves_of i [] = 0
moves_of i (t ∷ ts) = own i t + moves_of i ts

-- What is left of `n` accesses of thread `i` after a turn.
abbrev rest_of : ℕ → Turn → ℕ → ℕ
rest_of i (moving j) n = if i == j then n - 1 else n
rest_of i (arriving q now) n = n
rest_of i (sweep_due now) n = n
rest_of i (check_due now) n = n
rest_of i (clean_due c now) n = n
rest_of i joining n = n
rest_of i (leaving id) n = n
rest_of i (receiving id) n = n

-- Thread `i` stands where `E n` holds.
abbrev pub Stands : (ℕ → Point → Type 0) → ℕ → ℕ → Pool → Type 0
Stands E n i pool = (p : Point) × (thread_at i pool.threads ≡ some p) × E n p

module _ (format : Time → String) (parse_standard : String → Option (Time → Time))
    (collates : String → String → Bool) where
  -- A pool whose server is in good order and whose threads hold on to what they may.
  pub record IsOrderly (pool : Pool) : Type 0 where
    pub healthy : IsHealthy format parse_standard collates pool.server
    pub legal : All IsLegal pool.threads

  module _ (E : ℕ → Point → Type 0)
      (less : (n : ℕ) (p : Point) (s : Server)
        → E n p
        → Every (λ p' s'. E (n - 1) p') (move format parse_standard collates p s)) where
    -- What a turn leaves of a pool, and of the accesses that thread `i` may need.
    abbrev Turned : Turn → Pool → Pool → Type 0
    Turned t pool pool' =
        IsOrderly pool' × ((n i : ℕ) → Stands E n i pool → Stands E (rest_of i t n) i pool')

    begun :
        (p : Point) (pool : Pool)
        → IsOrderly pool
        → IsLegal p
        → IsOrderly (record pool { threads = pool.threads ++ p ∷ [] })
          × ((n i : ℕ)
              → Stands E n i pool
              → Stands E n i (record pool { threads = pool.threads ++ p ∷ [] }))
    begun p pool o l = (
      record {
        healthy = o.healthy;
        legal = All-append IsLegal pool.threads (p ∷ []) o.legal (l, tt);
      },
      λ n i (q, e, h). (q, thread_at-append i pool.threads p q e, h),
    )

    replace-Stands :
        (i j n : ℕ) (p p' : Point) (s' : Server) (pool : Pool)
        → thread_at j pool.threads ≡ some p
        → (E n p → E (n - 1) p')
        → Stands E n i pool
        → Stands E
            (rest_of i (moving j) n)
            i
            (record { server = s'; threads = replace_at j p' pool.threads })
    replace-Stands i j n p p' s' pool e f (q, eq, h) = elim (Bool-cases (i == j)) [
      | inl same ↦
          let ij : i ≡ j = ground arith in
          let qp : q ≡ p = cc in
          rw same (p', rw ij (thread_at-replace j p' pool.threads p e), f (rw qp at h))
      | inr other ↦ rw other (q, rw (thread_at-replace_other i j p' pool.threads other) eq, h)
    ]

    moved_lem :
        (j : ℕ) (p : Point) (pool : Pool) (x : Option (Point × Server))
        → thread_at j pool.threads ≡ some p
        → IsOrderly pool
        → Leads (GoesOn format parse_standard collates) x
        → ((n : ℕ) → E n p → Every (λ p' s'. E (n - 1) p') x)
        → (pool' : Pool) × (moved j pool x ≡ some pool') × Turned (moving j) pool pool'
    moved_lem j p pool none e o h f = absurd h
    moved_lem j p pool (some (p', s')) e o h f = (
      record { server = s'; threads = replace_at j p' pool.threads },
      refl,
      (
        record { healthy = h.1; legal = replace_at-All IsLegal j p' pool.threads h.0 o.legal },
        λ n i. replace-Stands i j n p p' s' pool e (f n),
      ),
    )

    move_thread_lem :
        (j : ℕ) (pool : Pool) (found : Option Point)
        → thread_at j pool.threads ≡ found
        → IsOrderly pool
        → (pool' : Pool) × (move_thread format parse_standard collates j pool found ≡ some pool')
          × Turned (moving j) pool pool'
    move_thread_lem j pool none e o = (
      pool,
      refl,
      (
        o,
        λ n i (q, eq, h). elim (Bool-cases (i == j)) [
          | inl same ↦ let ij : i ≡ j = ground arith in absurd (cc)
          | inr other ↦ rw other (q, eq, h)
        ],
      ),
    )
    move_thread_lem j pool (some p) e o =
        moved_lem j p pool (move format parse_standard collates p pool.server) e o
          (move-GoesOn format parse_standard collates p pool.server
            (thread_at-All IsLegal j pool.threads p e o.legal) o.healthy)
          (λ n. less n p pool.server)

    pub turn_lem :
        (t : Turn) (pool : Pool)
        → IsOrderly pool
        → (pool' : Pool) × (turn format parse_standard collates t pool ≡ some pool')
          × Turned t pool pool'
    unfolding turn
    turn_lem (arriving q now) pool o = (_, refl, begun (enter q now) pool o (enter-IsLegal q now))
    turn_lem (sweep_due now) pool o = (_, refl, begun (Point.sweeping now Tick.querying) pool o tt)
    turn_lem (check_due now) pool o = (_, refl, begun (Point.checking now Tick.querying) pool o tt)
    turn_lem (clean_due c now) pool o = (_, refl, begun (Point.cleaning c now) pool o tt)
    turn_lem (moving j) pool o = move_thread_lem j pool (thread_at j pool.threads) refl o
    turn_lem joining pool o = (
      _,
      refl,
      (
        record {
          healthy = record {
            db = o.healthy.db;
            hub = subscribe-IsSound pool.server.hub o.healthy.hub;
          };
          legal = o.legal;
        },
        λ n i h. h,
      ),
    )
    turn_lem (leaving id) pool o =
        let (hub', e, k) = unsubscribe-IsSound id pool.server.hub o.healthy.hub in
        (
          record pool { server = record { db = pool.server.db; hub = hub' } },
          rw e refl,
          (record { healthy = record { db = o.healthy.db; hub = k }; legal = o.legal }, λ n i h. h),
        )
    turn_lem (receiving id) pool o = (
      _,
      refl,
      (
        record {
          healthy = record {
            db = o.healthy.db;
            hub = receive-IsSound id pool.server.hub o.healthy.hub;
          };
          legal = o.legal;
        },
        λ n i h. h,
      ),
    )

    rest-moves :
        (i k n : ℕ) (t : Turn) (p : Point) → E (rest_of i t n - k) p → E (n - (own i t + k)) p
    rest-moves i k n (moving j) p h = elim (Bool-cases (i == j)) [
      | inl same ↦ let e : n - 1 - k ≡ n - (1 + k) = omega arith in rw same (rw e at (rw same at h))
      | inr other ↦ let e : n - k ≡ n - (0 + k) = omega arith in rw other (rw e at (rw other at h))
    ]
    rest-moves i k n (arriving q now) p h = let e : n - k ≡ n - (0 + k) = omega arith in rw e at h
    rest-moves i k n (sweep_due now) p h = let e : n - k ≡ n - (0 + k) = omega arith in rw e at h
    rest-moves i k n (check_due now) p h = let e : n - k ≡ n - (0 + k) = omega arith in rw e at h
    rest-moves i k n (clean_due c now) p h = let e : n - k ≡ n - (0 + k) = omega arith in rw e at h
    rest-moves i k n joining p h = let e : n - k ≡ n - (0 + k) = omega arith in rw e at h
    rest-moves i k n (leaving id) p h = let e : n - k ≡ n - (0 + k) = omega arith in rw e at h
    rest-moves i k n (receiving id) p h = let e : n - k ≡ n - (0 + k) = omega arith in rw e at h

    pub turns_lem :
        (ts : List Turn) (pool : Pool)
        → IsOrderly pool
        → (pool' : Pool) × (turns format parse_standard collates ts pool ≡ some pool')
          × IsOrderly pool'
          × ((n i : ℕ) → Stands E n i pool → Stands E (n - moves_of i ts) i pool')
    unfolding turns
    turns_lem [] pool o =
        (pool, refl, o, λ n i (p, e, h). let same : n ≡ n - 0 = omega arith in (p, e, rw same at h))
    turns_lem (t ∷ ts) pool o =
        let (mid, e, (o', f)) = turn_lem t pool o in
        let (end, e', o'', g) = turns_lem ts mid o' in
        (
          end,
          rw e e',
          o'',
          λ n i w.
              let (p, eq, h) = g (rest_of i t n) i (f n i w) in
              (p, eq, rest-moves i (moves_of i ts) n t p h),
        )

  pub new_pool-IsOrderly : (outcomes : List Outcome) → IsOrderly (new_pool outcomes)
  new_pool-IsOrderly outcomes = record {
    healthy = new_server-IsHealthy format parse_standard collates outcomes;
    legal = tt;
  }

  -- However the requests, the ticks of the jobs and the clients of the event stream of a new server
  -- are interleaved, one access to the database or the hub at a time and with whatever outcomes of
  -- the statements, no access panics. In the end run ids and schedule names are distinct, each run
  -- has the columns that its status calls for, each schedule has an expectation that registration
  -- lets through, the subscriptions are distinct and open, and no channel holds more than 16 events.
  pub new_pool-turns :
      (ts : List Turn) (outcomes : List Outcome)
      → (pool : Pool) × (turns format parse_standard collates ts (new_pool outcomes) ≡ some pool)
        × IsHealthy format parse_standard collates pool.server
  new_pool-turns ts outcomes =
      let (pool, e, o, f) =
        turns_lem AnswersWithin (move-AnswersWithin format parse_standard collates) ts
          (new_pool outcomes) (new_pool-IsOrderly outcomes) in
      (pool, e, o.healthy)
