-- ===== src/Table/Keys.antt =====
-- Statements that name a row by a unique key.
use quickworks.Base.{
  ◌+◌, ◌≤◌, ◌≡◌, refl, Bool, true, ◌&&◌, some, List, [], ◌∷◌, arith, not, if◌then◌else◌, Bool-cases,
  inl, inr,
}
use quickworks.Table.{count, select, first, update, delete, insert}
use quickworks.Table.Counts.{first-count, count_mono}

module _ {ℓ} {A : Type ℓ} where
  -- After an update by key, the rows that meet `q` are old ones under other keys, or under the key.
  pub count-update-le :
      (q key p : A → Bool) (f : A → A) (xs : List A)
      → ((x : A) → p x ≡ true → key x ≡ true)
      → count q (update p f xs) ≤ count (λ x. not (key x) && q x) xs + count key xs
  unfolding count update
  count-update-le q key p f [] h = omega arith
  count-update-le q key p f (x ∷ xs) h = ground (arith, h x, count-update-le q key p f xs h)

  -- The one row under a unique key decides every test that implies the key.
  pub count_unique :
      (key r p : A → Bool) (xs : List A) (w : A)
      → ((x : A) → r x ≡ true → key x ≡ true)
      → count key xs ≤ 1
      → first p xs ≡ some w
      → key w ≡ true
      → count r xs ≡ (if r w then 1 else 0)
  unfolding count first
  count_unique key r p [] w h u e k = cc
  count_unique key r p (y ∷ ys) w h u e k = elim (Bool-cases (p y)) [
    | inl t ↦ ground (arith, h y, count_mono r key ys h)
    | inr t ↦ ground (arith, h y, first-count p key ys w, count_unique key r p ys w h)
  ]

  -- A new row under a key that no row has is the one that the key selects.
  pub first-insert :
      (p : A → Bool) (x : A) (xs : List A)
      → count p xs ≡ 0
      → p x ≡ true
      → first p (insert x xs) ≡ some x
  unfolding count first insert
  first-insert p x [] h k = ground arith
  first-insert p x (y ∷ xs) h k = ground (arith, first-insert p x xs)

  pub delete_none : (p : A → Bool) (xs : List A) → count p xs ≡ 0 → delete p xs ≡ xs
  unfolding count delete select
  delete_none p [] h = refl
  delete_none p (x ∷ xs) h = ground (arith, delete_none p xs)

  pub count-zero_mono :
      (p q : A → Bool) (xs : List A)
      → ((x : A) → p x ≡ true → q x ≡ true)
      → count q xs ≡ 0
      → count p xs ≡ 0
  count-zero_mono p q xs h k = omega (arith, count_mono p q xs h)
