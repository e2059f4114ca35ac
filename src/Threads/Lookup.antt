-- ===== src/Threads/Lookup.antt =====
-- The list of threads: what stands at a number when a thread is replaced or added.
use chronos_monitor.Prelude.{
  ℕ, zero, suc, ◌≡◌, refl, List, [], ◌∷◌, ◌++◌, length, some, false, All, ◌==◌, arith,
}
use chronos_monitor.Threads.{Point, thread_at, replace_at}

pub thread_at-All :
    (P : Point → Type 0) (i : ℕ) (ps : List Point) (p : Point)
    → thread_at i ps ≡ some p
    → All P ps
    → P p
thread_at-All P i [] p e h = cc
thread_at-All P zero (x ∷ ps) p e h = let e' : x ≡ p = cc in rw (← e') h.0
thread_at-All P (suc i) (x ∷ ps) p e h = thread_at-All P i ps p e h.1

pub replace_at-All :
    (P : Point → Type 0) (i : ℕ) (q : Point) (ps : List Point)
    → P q
    → All P ps
    → All P (replace_at i q ps)
replace_at-All P i q [] hq h = tt
replace_at-All P zero q (x ∷ ps) hq h = (hq, h.1)
replace_at-All P (suc i) q (x ∷ ps) hq h = (h.0, replace_at-All P i q ps hq h.1)

pub thread_at-replace :
    (i : ℕ) (q : Point) (ps : List Point) (p : Point)
    → thread_at i ps ≡ some p
    → thread_at i (replace_at i q ps) ≡ some q
thread_at-replace i q [] p e = cc
thread_at-replace zero q (x ∷ ps) p e = refl
thread_at-replace (suc i) q (x ∷ ps) p e = thread_at-replace i q ps p e

pub thread_at-replace_other :
    (i j : ℕ) (q : Point) (ps : List Point)
    → (i == j) ≡ false
    → thread_at i (replace_at j q ps) ≡ thread_at i ps
thread_at-replace_other i j q [] d = refl
thread_at-replace_other zero zero q (x ∷ ps) d = absurd (ground (arith, d))
thread_at-replace_other (suc i) zero q (x ∷ ps) d = refl
thread_at-replace_other zero (suc j) q (x ∷ ps) d = refl
thread_at-replace_other (suc i) (suc j) q (x ∷ ps) d =
    thread_at-replace_other i j q ps (ground (arith, d))

pub thread_at-append :
    (i : ℕ) (ps : List Point) (q p : Point)
    → thread_at i ps ≡ some p
    → thread_at i (ps ++ q ∷ []) ≡ some p
thread_at-append i [] q p e = cc
thread_at-append zero (x ∷ ps) q p e = e
thread_at-append (suc i) (x ∷ ps) q p e = thread_at-append i ps q p e

pub thread_at-last : (ps : List Point) (q : Point) → thread_at (length ps) (ps ++ q ∷ []) ≡ some q
thread_at-last [] q = refl
thread_at-last (x ∷ ps) q = thread_at-last ps q
