-- ===== src/Connection/Placeholders.antt =====
-- The placeholders that `rebind` writes for PostgreSQL.
use Prim.Native.String.{◌++◌ as join}
use chronos_monitor.Prelude.{
  ℕ, ◌+◌, String, str_eq, pos, decimal, List, [], ◌∷◌, All, ◌≡◌, refl, sym, ap, ◌∙◌, false,
  Bool-cases, inl, inr, if◌then◌else◌,
}
use chronos_monitor.Connection.{contains_mark, rebind_from, rebind}
use chronos_monitor.Connection.Marks.{rebind_from-append, rebind_from-mark, rebind_from_unmarked}

-- A statement as the texts around its placeholders.
abbrev pub marked : String → List String → String
marked first [] = first
marked first (p ∷ ps) = join first (join "?" (marked p ps))

-- The same texts with $n + 1, $n + 2, … between them.
abbrev pub numbered : ℕ → String → List String → String
numbered n first [] = first
numbered n first (p ∷ ps) =
    join first (join "$" (join (decimal (pos (n + 1))) (numbered (n + 1) p ps)))

abbrev pub HasNoMark : String → Type 0
HasNoMark s = contains_mark s ≡ false

rebind_from-marked :
    (n : ℕ) (first : String) (rest : List String)
    → HasNoMark first
    → All HasNoMark rest
    → rebind_from n (marked first rest) ≡ numbered n first rest
rebind_from-marked n first [] h k = rebind_from_unmarked n first h
rebind_from-marked n first (p ∷ ps) h k =
    rebind_from-append n first (join "?" (marked p ps)) h
    ∙ ap (join first) (
        rebind_from-mark n (marked p ps)
        ∙ ap (λ r. join "$" (join (decimal (pos (n + 1))) r))
            (rebind_from-marked (n + 1) p ps k.0 k.1))

-- For the driver "postgres" the placeholders of a statement become $1, $2, … in their order, and the
-- texts around them stay; for any other driver the statement stays as it is.
pub rebind_lem :
    (driver first : String) (rest : List String)
    → HasNoMark first
    → All HasNoMark rest
    → rebind driver (marked first rest)
      ≡ (if str_eq driver "postgres" then numbered 0 first rest else marked first rest)
unfolding rebind
rebind_lem driver first rest h k = elim (Bool-cases (str_eq driver "postgres")) [
  | inl same ↦ elim (Bool-cases (contains_mark (marked first rest))) [
    | inl some_mark ↦ rw (same, some_mark) (rebind_from-marked 0 first rest h k)
    | inr no_mark ↦
        rw (same, no_mark)
          (sym (rebind_from_unmarked 0 (marked first rest) no_mark)
            ∙ rebind_from-marked 0 first rest h k)
  ]
  | inr other ↦ rw other refl
]
