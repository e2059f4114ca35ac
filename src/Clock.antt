-- ===== src/Clock.antt =====
-- Go's `time.Time` and `time.Duration`. An instant is a number of nanoseconds since Go's zero
-- time; a duration is an int64 of nanoseconds, whose products wrap around and whose differences
-- of instants saturate, as the language and its standard library do.
pub mod Bounds
use chronos_monitor.Prelude.{
  ℕ, suc, ◌+◌, ◌-◌, ◌%◌, ◌^◌, ℤ, pos, negsuc, ltb, ltb_ℤ, ◌+ℤ◌, ◌-ℤ◌, ◌*ℤ◌, quot_ℤ, if◌then◌else◌,
  Bool,
}

abbrev pub Time : Type 0
Time = ℤ

abbrev pub Duration : Type 0
Duration = ℤ

abbrev pub int64_mod : ℕ
int64_mod = 2 ^ 64

abbrev pub int64_half : ℕ
int64_half = 2 ^ 63

abbrev of_bits : ℕ → ℤ
of_bits m = if ltb m int64_half then pos m else negsuc (int64_mod - m - 1)

-- The int64 that an integer wraps around to.
unfoldable pub wrap64 : ℤ → ℤ
wrap64 (pos n) = of_bits (n % int64_mod)
wrap64 (negsuc n) = of_bits (int64_mod - 1 - n % int64_mod)

abbrev pub max_duration : Duration
max_duration = pos (int64_half - 1)

abbrev pub min_duration : Duration
min_duration = negsuc (int64_half - 1)

-- `t.Sub(u)`
unfoldable pub sub : Time → Time → Duration
sub t u =
    let d = t -ℤ u in
    if ltb_ℤ max_duration d then max_duration else if ltb_ℤ d min_duration then min_duration else d

-- `t.Add(d)`
unfoldable pub add : Time → Duration → Time
add t d = t +ℤ d

-- `time.Duration(n) * unit`, for a unit of so many nanoseconds
unfoldable pub duration_of : ℤ → ℕ → Duration
duration_of n unit = wrap64 (n *ℤ pos unit)

abbrev pub second : ℕ
second = 1000000000

abbrev pub hour : ℕ
hour = 3600000000000

-- `d.Milliseconds()`
abbrev pub milliseconds : Duration → ℤ
milliseconds d = quot_ℤ d 1000000
