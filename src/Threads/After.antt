-- ===== src/Threads/After.antt =====
-- The runs over some turns of the server's threads, of any but the retention job.
use chronos_monitor.Prelude.{
  ℕ, ◌≡◌, refl, String, List, [], ◌∷◌, Option, none, some, Bool, All, All-append,
}
use chronos_monitor.Clock.{Time}
use chronos_monitor.Database.{Db}
use chronos_monitor.Broker.{Hub, unsubscribe}
use chronos_monitor.Server.{Server, with_db}
use chronos_monitor.Threads.{
  Point, enter, Pool, Turn, arriving, sweep_due, check_due, clean_due, moving, joining, leaving,
  receiving, thread_at, moved, move_thread, begin, on_server, turn, turns, then_pool,
}
use chronos_monitor.Threads.Ticks.{Tick}
use chronos_monitor.Threads.Lookup.{thread_at-All, replace_at-All}
use chronos_monitor.Threads.Lives.{Respects, IsKeeping, IsAllowed, enter-IsKeeping}
use chronos_monitor.Threads.LivesOn.{LivesOn, move-LivesOn}

-- No tick of the retention job, and only such requests as are allowed.
abbrev pub IsAllowedTurn : Type 0 → Turn → Type 0
IsAllowedTurn Ending (clean_due c now) = ⊥
IsAllowedTurn Ending (arriving q now) = IsAllowed Ending q
IsAllowedTurn Ending (sweep_due now) = Unit
IsAllowedTurn Ending (check_due now) = Unit
IsAllowedTurn Ending (moving i) = Unit
IsAllowedTurn Ending joining = Unit
IsAllowedTurn Ending (leaving id) = Unit
IsAllowedTurn Ending (receiving id) = Unit

module _ (R : Db → Db → Type 0) (Ending : Type 0) (respects : Respects R Ending) where
  abbrev pub After : Pool → Option Pool → Type 0
  After pool none = Unit
  After pool (some pool') = All (IsKeeping Ending) pool'.threads × R pool.server.db pool'.server.db

  module _ (format : Time → String) (parse_standard : String → Option (Time → Time))
      (collates : String → String → Bool) where
    moved-After :
        (i : ℕ) (pool : Pool) (x : Option (Point × Server))
        → All (IsKeeping Ending) pool.threads
        → LivesOn R Ending pool.server x
        → After pool (moved i pool x)
    moved-After i pool none k h = tt
    moved-After i pool (some (p, s)) k h =
        (replace_at-All (IsKeeping Ending) i p pool.threads h.0 k, h.1)

    move_thread-After :
        (i : ℕ) (pool : Pool) (found : Option Point)
        → thread_at i pool.threads ≡ found
        → All (IsKeeping Ending) pool.threads
        → After pool (move_thread format parse_standard collates i pool found)
    move_thread-After i pool none e k = (k, respects.order.start pool.server.db)
    move_thread-After i pool (some p) e k = moved-After i pool _ k (
        move-LivesOn R Ending respects format parse_standard collates p pool.server
          (thread_at-All (IsKeeping Ending) i pool.threads p e k))

    on_server-After :
        (pool : Pool) (hub : Option Hub)
        → All (IsKeeping Ending) pool.threads
        → After pool (on_server pool (with_db pool.server.db hub))
    on_server-After pool none k = tt
    on_server-After pool (some hub) k = (k, respects.order.start pool.server.db)

    begun :
        (p : Point) (pool : Pool)
        → IsKeeping Ending p
        → All (IsKeeping Ending) pool.threads
        → After pool (begin p pool)
    begun p pool l k = (
      All-append (IsKeeping Ending) pool.threads (p ∷ []) k (l, tt),
      respects.order.start pool.server.db,
    )

    turn-After :
        (t : Turn) (pool : Pool)
        → IsAllowedTurn Ending t
        → All (IsKeeping Ending) pool.threads
        → After pool (turn format parse_standard collates t pool)
    unfolding turn
    turn-After (arriving q now) pool l k =
        begun (enter q now) pool (enter-IsKeeping Ending q now l) k
    turn-After (sweep_due now) pool l k = begun (Point.sweeping now Tick.querying) pool tt k
    turn-After (check_due now) pool l k = begun (Point.checking now Tick.querying) pool tt k
    turn-After (clean_due c now) pool l k = absurd l
    turn-After (moving i) pool l k = move_thread-After i pool (thread_at i pool.threads) refl k
    turn-After joining pool l k = (k, respects.order.start pool.server.db)
    turn-After (leaving id) pool l k = on_server-After pool (unsubscribe id pool.server.hub) k
    turn-After (receiving id) pool l k = (k, respects.order.start pool.server.db)

    joined :
        (pool mid : Pool) (x : Option Pool)
        → R pool.server.db mid.server.db
        → After mid x
        → After pool x
    joined pool mid none h k = tt
    joined pool mid (some end) h k =
        (k.0, respects.order.then_ pool.server.db mid.server.db _ h k.1)

    then-After :
        (pool : Pool) (x : Option Pool) (f : Pool → Option Pool)
        → After pool x
        → ((mid : Pool) → All (IsKeeping Ending) mid.threads → After mid (f mid))
        → After pool (then_pool x f)
    then-After pool none f h g = tt
    then-After pool (some mid) f h g = joined pool mid (f mid) h.1 (g mid h.0)

    pub turns-After :
        (ts : List Turn) (pool : Pool)
        → All (IsAllowedTurn Ending) ts
        → All (IsKeeping Ending) pool.threads
        → After pool (turns format parse_standard collates ts pool)
    unfolding turns
    turns-After [] pool l k = (k, respects.order.start pool.server.db)
    turns-After (t ∷ ts) pool l k =
        then-After pool (turn format parse_standard collates t pool) _ (turn-After t pool l.0 k)
          (λ mid k'. turns-After ts mid l.1 k')

    pub reached :
        (pool : Pool) (x : Option Pool) (pool' : Pool)
        → x ≡ some pool'
        → After pool x
        → All (IsKeeping Ending) pool'.threads × R pool.server.db pool'.server.db
    reached pool none pool' e h = cc
    reached pool (some y) pool' e h = let same : y ≡ pool' = cc in rw (← same) h
