-- ===== src/Database/OneRow.antt =====
-- A write by key on a table with distinct keys: it changes, counts and finds one row.
use chronos_monitor.Prelude.{
  suc, String, eq_iff, ◌≡◌, ◌≢◌, refl, ap, sym, Bool, true, false, List, [], ◌∷◌, ◌++◌, some, arith,
}
use chronos_monitor.Database.Table.{update_where, count_where, find_where}
use chronos_monitor.Database.Keys.{IsFresh, IsDistinct, has_key}

module _ {A : Type 0} (key : A → String) where
  fresh_at : (k : String) (pre xs : List A) (x : A) → IsFresh key k (pre ++ x ∷ xs) → key x ≢ k
  fresh_at k [] xs x h = h.0
  fresh_at k (y ∷ ys) xs x h = fresh_at k ys xs x h.1

  pub IsFresh-before :
      (pre xs : List A) (x : A) → IsDistinct key (pre ++ x ∷ xs) → IsFresh key (key x) pre
  IsFresh-before [] xs x h = tt
  IsFresh-before (y ∷ ys) xs x h =
      (λ e. fresh_at (key y) ys xs x h.0 (sym e), IsFresh-before ys xs x h.1)

  pub IsFresh-behind :
      (pre xs : List A) (x : A) → IsDistinct key (pre ++ x ∷ xs) → IsFresh key (key x) xs
  IsFresh-behind [] xs x h = h.0
  IsFresh-behind (y ∷ ys) xs x h = IsFresh-behind ys xs x h.1

  IsFresh-replace :
      (k : String) (pre xs : List A) (x y : A)
      → key y ≡ key x
      → IsFresh key k (pre ++ x ∷ xs)
      → IsFresh key k (pre ++ y ∷ xs)
  IsFresh-replace k [] xs x y e h = (rw e h.0, h.1)
  IsFresh-replace k (z ∷ zs) xs x y e h = (h.0, IsFresh-replace k zs xs x y e h.1)

  pub IsDistinct-replace :
      (pre xs : List A) (x y : A)
      → key y ≡ key x
      → IsDistinct key (pre ++ x ∷ xs)
      → IsDistinct key (pre ++ y ∷ xs)
  IsDistinct-replace [] xs x y e h = (rw e h.0, h.1)
  IsDistinct-replace (z ∷ zs) xs x y e h =
      (IsFresh-replace (key z) zs xs x y e h.0, IsDistinct-replace zs xs x y e h.1)

  -- A test that is false off the key `k`.
  abbrev pub NeedsKey : String → (A → Bool) → Type 0
  NeedsKey k p = (x : A) → key x ≢ k → p x ≡ false

  module _ (k : String) (p : A → Bool) (needs : NeedsKey k p) where
    pub update_none : (f : A → A) (xs : List A) → IsFresh key k xs → update_where p f xs ≡ xs
    unfolding update_where
    update_none f [] h = refl
    update_none f (x ∷ xs) h = rw (needs x h.0) (ap (λ l. x ∷ l) (update_none f xs h.1))

    pub count_none : (xs : List A) → IsFresh key k xs → count_where p xs ≡ 0
    unfolding count_where
    count_none [] h = refl
    count_none (x ∷ xs) h = rw (needs x h.0) (count_none xs h.1)

    module _ (x : A) (hit : p x ≡ true) (xs : List A) (behind : IsFresh key k xs) where
      pub update_one :
          (f : A → A) (pre : List A)
          → IsFresh key k pre
          → update_where p f (pre ++ x ∷ xs) ≡ pre ++ f x ∷ xs
      unfolding update_where
      update_one f [] h = rw hit (ap (λ l. f x ∷ l) (update_none f xs behind))
      update_one f (y ∷ ys) h = rw (needs y h.0) (ap (λ l. y ∷ l) (update_one f ys h.1))

      pub count_one : (pre : List A) → IsFresh key k pre → count_where p (pre ++ x ∷ xs) ≡ 1
      unfolding count_where
      count_one [] h = rw hit (ap suc (count_none xs behind))
      count_one (y ∷ ys) h = rw (needs y h.0) (count_one ys h.1)

      pub find_one : (pre : List A) → IsFresh key k pre → find_where p (pre ++ x ∷ xs) ≡ some x
      unfolding find_where
      find_one [] h = rw hit
      find_one (y ∷ ys) h = rw (needs y h.0) (find_one ys h.1)

    -- The row with the key may fail the rest of the test.
    module _ (x : A) (miss : p x ≡ false) (xs : List A) (behind : IsFresh key k xs) where
      pub update_miss :
          (f : A → A) (pre : List A)
          → IsFresh key k pre
          → update_where p f (pre ++ x ∷ xs) ≡ pre ++ x ∷ xs
      unfolding update_where
      update_miss f [] h = rw miss (ap (λ l. x ∷ l) (update_none f xs behind))
      update_miss f (y ∷ ys) h = rw (needs y h.0) (ap (λ l. y ∷ l) (update_miss f ys h.1))

      pub count_miss : (pre : List A) → IsFresh key k pre → count_where p (pre ++ x ∷ xs) ≡ 0
      unfolding count_where
      count_miss [] h = rw miss (count_none xs behind)
      count_miss (y ∷ ys) h = rw (needs y h.0) (count_miss ys h.1)

  pub has_key-NeedsKey : (k : String) → NeedsKey k (has_key key k)
  has_key-NeedsKey k x h = ground (arith, eq_iff (key x) k)
