-- ===== src/Database/Keys.antt =====
-- Primary keys: what the writes on a table do to its rows when their keys are distinct.
use chronos_monitor.Prelude.{
  String, str_eq, eq_iff, ◌≡◌, ◌≢◌, refl, Bool, true, false, List, [], ◌∷◌, ◌++◌, none, All, arith,
  if◌then◌else◌, Bool-cases, inl, inr, sym,
}
use chronos_monitor.Database.Table.{update_where, delete_where, find_where}

module _ {A : Type 0} (key : A → String) where
  abbrev pub has_key : String → A → Bool
  has_key k x = str_eq (key x) k

  abbrev pub IsFresh : String → List A → Type 0
  IsFresh k xs = All (λ x. key x ≢ k) xs

  abbrev pub IsDistinct : List A → Type 0
  IsDistinct [] = Unit
  IsDistinct (x ∷ xs) = IsFresh (key x) xs × IsDistinct xs

  abbrev pub KeepsKey : (A → A) → Type 0
  KeepsKey f = (x : A) → key (f x) ≡ key x

  IsFresh-concat :
      (k : String) (xs : List A) (x : A) → IsFresh k xs → key x ≢ k → IsFresh k (xs ++ x ∷ [])
  IsFresh-concat k [] x h n = (n, tt)
  IsFresh-concat k (y ∷ ys) x h n = (h.0, IsFresh-concat k ys x h.1 n)

  pub IsDistinct-concat :
      (xs : List A) (x : A) → IsDistinct xs → IsFresh (key x) xs → IsDistinct (xs ++ x ∷ [])
  IsDistinct-concat [] x h n = (tt, tt)
  IsDistinct-concat (y ∷ ys) x h n =
      (IsFresh-concat (key y) ys x h.0 (λ e. n.0 (sym e)), IsDistinct-concat ys x h.1 n.1)

  pub IsFresh-find_where :
      (k : String) (xs : List A) → find_where (has_key k) xs ≡ none → IsFresh k xs
  unfolding find_where
  IsFresh-find_where k [] h = tt
  IsFresh-find_where k (x ∷ xs) h = elim (Bool-cases (str_eq (key x) k)) [
    | inl same ↦ absurd (ground arith)
    | inr other ↦ (ground (arith, eq_iff (key x) k), IsFresh-find_where k xs (ground arith))
  ]

  pub find_of_IsFresh : (k : String) (xs : List A) → IsFresh k xs → find_where (has_key k) xs ≡ none
  unfolding find_where
  find_of_IsFresh k [] h = refl
  find_of_IsFresh k (x ∷ xs) h = ground (arith, eq_iff (key x) k, find_of_IsFresh k xs h.1)

  update_key : (f : A → A) → KeepsKey f → (b : Bool) (x : A) → key (if b then f x else x) ≡ key x
  update_key f keeps true x = keeps x
  update_key f keeps false x = refl

  IsFresh-update :
      (k : String) (p : A → Bool) (f : A → A) (xs : List A)
      → KeepsKey f
      → IsFresh k xs
      → IsFresh k (update_where p f xs)
  unfolding update_where
  IsFresh-update k p f [] keeps h = tt
  IsFresh-update k p f (x ∷ xs) keeps h =
      (rw (update_key f keeps (p x) x) h.0, IsFresh-update k p f xs keeps h.1)

  pub IsDistinct-update :
      (p : A → Bool) (f : A → A) (xs : List A)
      → KeepsKey f
      → IsDistinct xs
      → IsDistinct (update_where p f xs)
  unfolding update_where
  IsDistinct-update p f [] keeps h = tt
  IsDistinct-update p f (x ∷ xs) keeps h = (
    rw (update_key f keeps (p x) x) (IsFresh-update (key x) p f xs keeps h.0),
    IsDistinct-update p f xs keeps h.1,
  )

  IsFresh-delete :
      (k : String) (p : A → Bool) (xs : List A) → IsFresh k xs → IsFresh k (delete_where p xs)
  unfolding delete_where
  IsFresh-delete k p [] h = tt
  IsFresh-delete k p (x ∷ xs) h = ground (arith, IsFresh-delete k p xs h.1)

  pub IsDistinct-delete :
      (p : A → Bool) (xs : List A) → IsDistinct xs → IsDistinct (delete_where p xs)
  unfolding delete_where
  IsDistinct-delete p [] h = tt
  IsDistinct-delete p (x ∷ xs) h =
      ground (arith, IsDistinct-delete p xs h.1, IsFresh-delete (key x) p xs h.0)
