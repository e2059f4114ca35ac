-- ===== src/Database/Rows.antt =====
-- What holds of every row, under the writes on a table.
use chronos_monitor.Prelude.{
  ◌≡◌, refl, Bool, true, false, List, [], ◌∷◌, All, Pointwise, arith, if◌then◌else◌,
}
use chronos_monitor.Database.Table.{update_where, delete_where}

module _ {A : Type 0} where
  update_case :
      (P : A → Type 0) (b : Bool) (x y : A) → P x → (b ≡ true → P y) → P (if b then y else x)
  update_case P true x y hx hy = hy refl
  update_case P false x y hx hy = hx

  pub All-update :
      (P : A → Type 0) (p : A → Bool) (f : A → A) (xs : List A)
      → ((x : A) → p x ≡ true → P x → P (f x))
      → All P xs
      → All P (update_where p f xs)
  unfolding update_where
  All-update P p f [] keep h = tt
  All-update P p f (x ∷ xs) keep h =
      (update_case P (p x) x (f x) h.0 (λ e. keep x e h.0), All-update P p f xs keep h.1)

  pub Pointwise-update :
      (R : A → A → Type 0) (p : A → Bool) (f : A → A) (xs : List A)
      → ((x : A) → R x x)
      → ((x : A) → p x ≡ true → R x (f x))
      → Pointwise R xs (update_where p f xs)
  unfolding update_where
  Pointwise-update R p f [] same change = tt
  Pointwise-update R p f (x ∷ xs) same change =
      (update_case (R x) (p x) x (f x) (same x) (change x), Pointwise-update R p f xs same change)

  pub All-delete :
      (P : A → Type 0) (p : A → Bool) (xs : List A) → All P xs → All P (delete_where p xs)
  unfolding delete_where
  All-delete P p [] h = tt
  All-delete P p (x ∷ xs) h = ground (arith, All-delete P p xs h.1)
