-- ===== src/Table/Counts.antt =====
-- How many rows a statement leaves: the arithmetic behind every table invariant.
use quickworks.Base.{
  suc, ◌+◌, ◌≤◌, ◌<◌, ◌≡◌, refl, Bool, true, false, ◌&&◌, none, some, List, [], ◌∷◌, arith,
  if◌then◌else◌,
}
use quickworks.Table.{count, first, update, insert}

module _ {ℓ} {A : Type ℓ} where
  pub count-insert :
      (p : A → Bool) (x : A) (xs : List A)
      → count p (insert x xs) ≡ (if p x then suc (count p xs) else count p xs)
  unfolding count insert
  count-insert p x [] = ground arith
  count-insert p x (y ∷ xs) = ground (arith, count-insert p x xs)

  -- Rows that meet `q` after an update, by the rows that it touches.
  pub count-update :
      (q p : A → Bool) (f : A → A) (xs : List A)
      → count q (update p f xs) + count (λ x. p x && q x) xs
        ≡ count q xs + count (λ x. p x && q (f x)) xs
  unfolding count update
  count-update q p f [] = refl
  count-update q p f (x ∷ xs) = ground (arith, count-update q p f xs)

  pub count-false : (p : A → Bool) (xs : List A) → ((x : A) → p x ≡ false) → count p xs ≡ 0
  unfolding count
  count-false p [] h = refl
  count-false p (x ∷ xs) h = ground (arith, h x, count-false p xs h)

  pub count_mono :
      (p q : A → Bool) (xs : List A) → ((x : A) → p x ≡ true → q x ≡ true) → count p xs ≤ count q xs
  unfolding count
  count_mono p q [] h = omega arith
  count_mono p q (x ∷ xs) h = ground (arith, h x, count_mono p q xs h)

  -- An update that leaves a test alone leaves its count alone.
  pub count-update_same :
      (q p : A → Bool) (f : A → A) (xs : List A)
      → ((x : A) → q (f x) ≡ q x)
      → count q (update p f xs) ≡ count q xs
  unfolding count update
  count-update_same q p f [] h = refl
  count-update_same q p f (x ∷ xs) h = ground (arith, h x, count-update_same q p f xs h)

  pub first_holds : (p : A → Bool) (xs : List A) (x : A) → first p xs ≡ some x → p x ≡ true
  unfolding first
  first_holds p [] x h = cc
  first_holds p (y ∷ xs) x h = ground (arith, first_holds p xs x)

  pub first-count :
      (p q : A → Bool) (xs : List A) (x : A) → first p xs ≡ some x → q x ≡ true → 0 < count q xs
  unfolding first count
  first-count p q [] x h k = cc
  first-count p q (y ∷ xs) x h k = ground (arith, first-count p q xs x)

  pub first-none : (p : A → Bool) (xs : List A) → count p xs ≡ 0 → first p xs ≡ none
  unfolding first count
  first-none p [] h = refl
  first-none p (x ∷ xs) h = ground (arith, first-none p xs)
