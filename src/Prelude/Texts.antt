-- ===== src/Prelude/Texts.antt =====
-- Texts compared by their equality test.
use Prim.Native.String.{String}
use mathlib.Core.Path.{◌≡◌}
use mathlib.Core.Logic.{◌≢◌, inl, inr}
use chronos_monitor.Prelude.Tests.{Bool-cases}
use mathlib.Core.Bool.{false}
use text.Mathlib.Text.{◌==◌}
use text.Mathlib.TextEquality.{eq_iff}

pub ne_of_test : (s t : String) → (s == t) ≡ false → s ≢ t
ne_of_test s t h e = let same = (eq_iff s t).1 e in cc

pub test_of_ne : (s t : String) → s ≢ t → (s == t) ≡ false
test_of_ne s t n = elim (Bool-cases (s == t)) [
  | inl same ↦ absurd (n ((eq_iff s t).0 same))
  | inr other ↦ other
]
