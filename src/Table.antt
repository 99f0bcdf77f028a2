-- ===== src/Table.antt =====
-- The SQL of internal/server: a table is the list of its rows, a WHERE clause a test on a row.
pub mod Counts
pub mod Keys
pub mod Rows
pub mod Changes
use quickworks.Base.{
  ℕ, zero, suc, Bool, true, false, not, Option, none, some, List, [], ◌∷◌, ◌++◌, if◌then◌else◌,
}

module _ {ℓ} {A : Type ℓ} where
  -- SELECT COUNT(*) ... WHERE p
  unfoldable pub count : (A → Bool) → List A → ℕ
  count p [] = 0
  count p (x ∷ xs) = if p x then suc (count p xs) else count p xs

  -- SELECT ... WHERE p, in the order of the table
  unfoldable pub select : (A → Bool) → List A → List A
  select p [] = []
  select p (x ∷ xs) = let rest = select p xs in if p x then x ∷ rest else rest

  -- SELECT ... WHERE p LIMIT 1
  unfoldable pub first : (A → Bool) → List A → Option A
  first p [] = none
  first p (x ∷ xs) = if p x then some x else first p xs

  -- UPDATE ... SET f WHERE p
  unfoldable pub update : (A → Bool) → (A → A) → List A → List A
  update p f [] = []
  update p f (x ∷ xs) = (if p x then f x else x) ∷ update p f xs

  -- DELETE FROM ... WHERE p
  unfoldable pub delete : (A → Bool) → List A → List A
  delete p xs = select (λ x. not (p x)) xs

  -- INSERT INTO ...
  unfoldable pub insert : A → List A → List A
  insert x xs = xs ++ x ∷ []

  -- One row into a sorted result, behind the rows that it ties with.
  unfoldable pub insert_sorted : (A → A → Bool) → A → List A → List A
  insert_sorted le x [] = x ∷ []
  insert_sorted le x (y ∷ ys) =
      let rest = insert_sorted le x ys in if le x y then x ∷ y ∷ ys else y ∷ rest

  -- ORDER BY, of a test "comes first or ties"
  unfoldable pub sort : (A → A → Bool) → List A → List A
  unfolding insert_sorted
  sort le [] = []
  sort le (x ∷ xs) = insert_sorted le x (sort le xs)
