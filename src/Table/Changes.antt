-- ===== src/Table/Changes.antt =====
-- Rows before and after an UPDATE, one by one.
use quickworks.Base.{
  ◌≤◌, ◌≡◌, refl, Bool, true, false, not, ◌&&◌, some, List, [], ◌∷◌, arith, if◌then◌else◌,
}
use quickworks.Table.{count, select, first, update, delete, sort, insert_sorted}
use quickworks.Table.Counts.{count_mono}

module _ {ℓ} {A : Type ℓ} where
  -- What an UPDATE makes of one row.
  abbrev pub changed : (A → Bool) → (A → A) → A → A
  changed p f x = if p x then f x else x

  pub count-update_onto :
      (q r p : A → Bool) (f : A → A) (xs : List A)
      → ((x : A) → q (changed p f x) ≡ r x)
      → count q (update p f xs) ≡ count r xs
  unfolding count update
  count-update_onto q r p f [] each = refl
  count-update_onto q r p f (x ∷ xs) each = rw (each x) (rw (count-update_onto q r p f xs each))

  pub first-update :
      (q p : A → Bool) (f : A → A) (xs : List A) (x : A)
      → ((y : A) → q (changed p f y) ≡ q y)
      → first q xs ≡ some x
      → first q (update p f xs) ≡ some (changed p f x)
  unfolding first update
  first-update q p f [] x each found = cc
  first-update q p f (y ∷ ys) x each found =
      rw (each y) (ground (arith, first-update q p f ys x each))

  pub select-update_none :
      (q p : A → Bool) (f : A → A) (xs : List A)
      → ((x : A) → q (f x) ≡ q x)
      → ((x : A) → q x ≡ true → p x ≡ false)
      → select q (update p f xs) ≡ select q xs
  unfolding select update
  select-update_none q p f [] same apart = refl
  select-update_none q p f (x ∷ xs) same apart =
      ground (arith, same x, apart x, select-update_none q p f xs same apart)

  pub count-insert_sorted :
      (q : A → Bool) (le : A → A → Bool) (x : A) (xs : List A)
      → count q (insert_sorted le x xs) ≡ count q (x ∷ xs)
  unfolding count insert_sorted
  count-insert_sorted q le x [] = refl
  count-insert_sorted q le x (y ∷ ys) = ground (arith, count-insert_sorted q le x ys)

  pub count-sort :
      (q : A → Bool) (le : A → A → Bool) (xs : List A) → count q (sort le xs) ≡ count q xs
  unfolding count sort
  count-sort q le [] = refl
  count-sort q le (x ∷ xs) =
      ground (arith, count-insert_sorted q le x (sort le xs), count-sort q le xs)

  pub count-select :
      (q p : A → Bool) (xs : List A) → count q (select p xs) ≡ count (λ x. p x && q x) xs
  unfolding count select
  count-select q p [] = refl
  count-select q p (x ∷ xs) = ground (arith, count-select q p xs)

  -- A DELETE leaves no more rows that meet `q` than there were.
  pub count-delete_mono : (p q : A → Bool) (xs : List A) → count q (delete p xs) ≤ count q xs
  unfolding delete
  count-delete_mono p q xs = omega (
    arith,
    count-select q (λ x. not (p x)) xs,
    count_mono (λ x. not (p x) && q x) q xs (λ x. ground arith),
  )
