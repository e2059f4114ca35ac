-- ===== src/Clock/Bounds.antt =====
-- When the arithmetic on durations is exact, and where it wraps around.
use chronos_monitor.Prelude.{
  ◌+ℤ◌, ◌+◌, ℕ, ◌*◌, ◌≤◌, ◌<◌, ◌≡◌, ℤ, pos, negsuc, ◌≤ℤ◌, ◌<ℤ◌, ◌*ℤ◌, ◌-ℤ◌, arith,
}
use chronos_monitor.Clock.{
  int64_half, int64_mod, wrap64, sub, duration_of, max_duration, min_duration, second,
}

-- A value in the range of int64 is left as it is.
pub wrap64_exact : (z : ℤ) → min_duration ≤ℤ z → z ≤ℤ max_duration → wrap64 z ≡ z
unfolding wrap64
wrap64_exact (pos n) lo hi = ground arith
wrap64_exact (negsuc n) lo hi = ground arith

pub duration_of_exact :
    (n unit : ℕ) → n * unit < int64_half → duration_of (pos n) unit ≡ pos (n * unit)
unfolding duration_of wrap64 ◌*ℤ◌
duration_of_exact n unit h = ground arith

-- A number of seconds that is too large for int64 nanoseconds, and below twice that, has a
-- negative duration.
pub duration_of_wraps :
    (n : ℕ) → int64_half ≤ n * second → n * second < int64_mod → duration_of (pos n) second <ℤ pos 0
unfolding duration_of wrap64 ◌*ℤ◌
duration_of_wraps n lo hi = ground arith

pub sub_exact : (t u : ℤ) → min_duration ≤ℤ t -ℤ u → t -ℤ u ≤ℤ max_duration → sub t u ≡ t -ℤ u
unfolding sub
sub_exact t u lo hi = ground arith

pub wrap64-sum : (a b : ℕ) → a + b < int64_half → wrap64 (pos a +ℤ pos b) ≡ pos (a + b)
unfolding wrap64 ◌+ℤ◌
wrap64-sum a b h = ground arith
