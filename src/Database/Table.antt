-- ===== src/Database/Table.antt =====
-- A table as the list of its rows, and the clauses of the statements that internal/store issues:
-- SELECT … WHERE, UPDATE … WHERE, DELETE … WHERE and the count of affected rows.
use chronos_monitor.Prelude.{ℕ, suc, Bool, List, [], ◌∷◌, Option, none, some, if◌then◌else◌}

module _ {A : Type 0} where
  unfoldable pub select_where : (A → Bool) → List A → List A
  select_where p [] = []
  select_where p (x ∷ xs) = let rest = select_where p xs in if p x then x ∷ rest else rest

  abbrev update_row : (A → Bool) → (A → A) → A → A
  update_row p f x = if p x then f x else x

  unfoldable pub update_where : (A → Bool) → (A → A) → List A → List A
  update_where p f [] = []
  update_where p f (x ∷ xs) = update_row p f x ∷ update_where p f xs

  unfoldable pub delete_where : (A → Bool) → List A → List A
  delete_where p [] = []
  delete_where p (x ∷ xs) = let rest = delete_where p xs in if p x then rest else x ∷ rest

  unfoldable pub count_where : (A → Bool) → List A → ℕ
  count_where p [] = 0
  count_where p (x ∷ xs) = let rest = count_where p xs in if p x then suc rest else rest

  -- The row that `QueryRow` reads.
  unfoldable pub find_where : (A → Bool) → List A → Option A
  find_where p [] = none
  find_where p (x ∷ xs) = let rest = find_where p xs in if p x then some x else rest
