-- ===== src/Connection/Marks.antt =====
-- `rebind` over a text without placeholders, and over one placeholder.
use Prim.Native.String.{[], ◌∷◌, ◌++◌}
use text.Mathlib.TextLemmas.{cons-append, nil-append}
use chronos_monitor.Prelude.{
  ℕ, ◌+◌, String, pos, decimal, ◌≡◌, refl, ap, false, Bool-cases, inl, inr, arith,
}
use chronos_monitor.Connection.{is_mark, contains_mark, rebind_from}

pub rebind_from-append :
    (n : ℕ) (s t : String) → contains_mark s ≡ false → rebind_from n (s ++ t) ≡ s ++ rebind_from n t
unfolding rebind_from contains_mark
rebind_from-append n [] t h = rw (nil-append t, nil-append (rebind_from n t)) refl
rebind_from-append n (c ∷ s) t h = elim (Bool-cases (is_mark c)) [
  | inl mark ↦ absurd (ground arith)
  | inr other ↦
      let k : contains_mark s ≡ false = ground arith in
      rw (cons-append c s t, cons-append c s (rebind_from n t), other)
        (ap (λ r. c ∷ r) (rebind_from-append n s t k))
]

pub rebind_from-mark :
    (n : ℕ) (t : String)
    → rebind_from n ("?" ++ t) ≡ "$" ++ decimal (pos (n + 1)) ++ rebind_from (n + 1) t
unfolding rebind_from
rebind_from-mark n t = rw (cons-append _ [] t, nil-append t) refl

-- A text without placeholders is left as it is, so the early return changes nothing.
pub rebind_from_unmarked : (n : ℕ) (s : String) → contains_mark s ≡ false → rebind_from n s ≡ s
unfolding rebind_from contains_mark
rebind_from_unmarked n [] h = refl
rebind_from_unmarked n (c ∷ s) h = elim (Bool-cases (is_mark c)) [
  | inl mark ↦ absurd (ground arith)
  | inr other ↦
      let k : contains_mark s ≡ false = ground arith in
      rw other (ap (λ r. c ∷ r) (rebind_from_unmarked n s k))
]
