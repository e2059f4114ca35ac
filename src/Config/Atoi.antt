-- ===== src/Config/Atoi.antt =====
-- `strconv.Atoi`, as Go's standard library documents it: an optional sign and at least one decimal
-- digit, for a value that an int of 64 bits can hold; `none` is its error.
use Prim.Native.Nat.{ℕ, zero, suc, ◌+◌, ◌-◌, ◌*◌}
use Prim.Native.Char.{Char, code}
use Prim.Native.String.{String, [], ◌∷◌}
use mathlib.Core.Option.{Option, none, some}
use chronos_monitor.Prelude.{ltb, leb, ◌==◌, if◌then◌else◌, ℤ, pos, negsuc}
use chronos_monitor.Clock.{int64_half}

abbrev digit_of : Char → Option ℕ
digit_of c = if leb 48 (code c) then if leb (code c) 57 then some (code c - 48) else none else none

abbrev digit_then : Option ℕ → ℕ → (ℕ → Option ℕ) → Option ℕ
digit_then none acc rest = none
digit_then (some d) acc rest = rest (acc * 10 + d)

-- The value of the digits after `acc`.
unfoldable pub digits_after : ℕ → String → Option ℕ
digits_after acc [] = some acc
digits_after acc (c ∷ s) = digit_then (digit_of c) acc (λ value. digits_after value s)

unfoldable pub unsigned : String → Option ℕ
unsigned [] = none
unsigned (c ∷ s) = digits_after 0 (c ∷ s)

abbrev positive_in_range : Option ℕ → Option ℤ
positive_in_range none = none
positive_in_range (some n) = if ltb n int64_half then some (pos n) else none

abbrev negated : ℕ → ℤ
negated zero = pos 0
negated (suc n) = negsuc n

abbrev negative_in_range : Option ℕ → Option ℤ
negative_in_range none = none
negative_in_range (some n) = if leb n int64_half then some (negated n) else none

unfoldable pub atoi : String → Option ℤ
atoi [] = none
atoi (c ∷ s) =
    if code c == 45
    then negative_in_range (unsigned s)
    else if code c == 43
    then positive_in_range (unsigned s)
    else positive_in_range (unsigned (c ∷ s))
