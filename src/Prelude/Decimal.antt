-- ===== src/Prelude/Decimal.antt =====
-- Texts as the source's `fmt` verbs write them: %s and %d.
use Prim.Native.Nat.{ℕ, zero, suc, ◌+◌, ◌/◌, ◌%◌}
use Prim.Native.String.{String, slice, ◌++◌ as join}
use mathlib.Core.List.{List, [], ◌∷◌}
use chronos_monitor.Prelude.Tests.{ltb, if◌then◌else◌}
use chronos_monitor.Prelude.Int.{ℤ, pos, negsuc}

abbrev pub concat : List String → String
concat [] = ""
concat (s ∷ ss) = join s (concat ss)

-- The character of a digit, for a number below ten.
abbrev pub digit : ℕ → String
digit d = slice "0123456789" d (d + 1)

-- At most so many digits.
unfoldable pub decimal_within : ℕ → ℕ → String
decimal_within zero n = ""
decimal_within (suc k) n =
    let before = decimal_within k (n / 10) in
    if ltb n 10 then digit n else join before (digit (n % 10))

-- An int64 has at most 19 digits.
abbrev pub decimal : ℤ → String
decimal (pos n) = decimal_within 19 n
decimal (negsuc n) = join "-" (decimal_within 19 (suc n))
