-- ===== src/Table/Rows.antt =====
-- What holds of every row of a table, through the statements that change it.
use quickworks.Base.{
  ℕ, zero, suc, take, ◌+◌, ◌≤◌, ◌<◌, ◌≡◌, refl, Bool, true, false, ◌&&◌, not, List, [], ◌∷◌, arith,
  All, Bool-cases, inl, inr,
}
use quickworks.Table.{count, select, update, insert, sort, insert_sorted}
use quickworks.Table.Counts.{count-update, count-false, count_mono}

module _ {ℓ} {A : Type ℓ} where
  pub All-update {κ μ} :
      (P : A → Type κ) (Q : A → Type μ) (p : A → Bool) (f : A → A) (xs : List A)
      → ((x : A) → P x → p x ≡ true → Q (f x))
      → ((x : A) → P x → p x ≡ false → Q x)
      → All P xs
      → All Q (update p f xs)
  unfolding update
  All-update P Q p f [] hit miss h = tt
  All-update P Q p f (x ∷ xs) hit miss (h, hs) = elim (Bool-cases (p x)) [
    | inl t ↦ (rw t (hit x h t), All-update P Q p f xs hit miss hs)
    | inr t ↦ (rw t (miss x h t), All-update P Q p f xs hit miss hs)
  ]

  pub All-insert {κ} : (P : A → Type κ) (x : A) (xs : List A) → P x → All P xs → All P (insert x xs)
  unfolding insert
  All-insert P x [] h hs = (h, tt)
  All-insert P x (y ∷ xs) h (k, hs) = (k, All-insert P x xs h hs)

  pub All-mono {κ μ} :
      (P : A → Type κ) (Q : A → Type μ) (xs : List A) → ((x : A) → P x → Q x) → All P xs → All Q xs
  All-mono P Q [] h hs = tt
  All-mono P Q (x ∷ xs) h (k, hs) = (h x k, All-mono P Q xs h hs)

  pub All-select {κ} :
      (P : A → Type κ) (p : A → Bool) (xs : List A) → All P xs → All P (select p xs)
  unfolding select
  All-select P p [] h = tt
  All-select P p (x ∷ xs) (h, hs) = elim (Bool-cases (p x)) [
    | inl t ↦ rw t (h, All-select P p xs hs)
    | inr t ↦ rw t (All-select P p xs hs)
  ]

  -- An update to rows that no longer meet `q` lowers the count by the rows it touches.
  pub count-update_clears :
      (q p : A → Bool) (f : A → A) (xs : List A)
      → ((x : A) → q (f x) ≡ false)
      → count q (update p f xs) + count (λ x. p x && q x) xs ≡ count q xs
  count-update_clears q p f xs h = ground (
    arith,
    count-update q p f xs,
    count-false (λ x. p x && q (f x)) xs (λ x. ground (arith, h x)),
  )

  pub count_split :
      (p q : A → Bool) (xs : List A)
      → count p xs ≡ count (λ x. p x && q x) xs + count (λ x. p x && not (q x)) xs
  unfolding count
  count_split p q [] = refl
  count_split p q (x ∷ xs) = ground (arith, count_split p q xs)

  -- Where every row has a key of its own, a row is the only one that a relation within the key sees.
  pub All-unique :
      (key r : A → A → Bool) (xs : List A)
      → ((e : A) → key e e ≡ true)
      → ((e : A) → r e e ≡ false)
      → ((e x : A) → r e x ≡ true → key e x ≡ true)
      → ((e : A) → count (key e) xs ≤ 1)
      → All (λ e. (0 < count (key e) xs) × (count (r e) xs ≡ 0)) xs
  unfolding count
  All-unique key r [] own irr within unique = tt
  All-unique key r (y ∷ ys) own irr within unique = (
    ground (arith, own y, irr y, unique y, count_mono (r y) (key y) ys (within y)),
    All-mono _ _ ys (λ e (present, none_other). ground (arith, within e y, unique e))
        (All-unique key r ys own irr within (λ e. ground (arith, unique e))),
  )

  pub count-update_none :
      (q p : A → Bool) (f : A → A) (xs : List A)
      → ((x : A) → p x ≡ true → q (f x) ≡ false)
      → ((x : A) → p x ≡ false → q x ≡ false)
      → count q (update p f xs) ≡ 0
  unfolding count update
  count-update_none q p f [] hit miss = refl
  count-update_none q p f (x ∷ xs) hit miss =
      ground (arith, hit x, miss x, count-update_none q p f xs hit miss)

  pub All-count_none : (q : A → Bool) (xs : List A) → All (λ x. q x ≡ false) xs → count q xs ≡ 0
  unfolding count
  All-count_none q [] h = refl
  All-count_none q (x ∷ xs) (h, hs) = ground (arith, All-count_none q xs hs)

  -- An update to rows outside `q` loses none of those that meet it.
  pub count-update_keeps :
      (q p : A → Bool) (f : A → A) (xs : List A)
      → ((x : A) → (p x && q x) ≡ false)
      → count q xs ≤ count q (update p f xs)
  count-update_keeps q p f xs apart =
      omega (arith, count-update q p f xs, count-false (λ x. p x && q x) xs apart)

  pub All-insert_sorted {κ} :
      (P : A → Type κ) (le : A → A → Bool) (x : A) (xs : List A)
      → P x
      → All P xs
      → All P (insert_sorted le x xs)
  unfolding insert_sorted
  All-insert_sorted P le x [] h hs = (h, tt)
  All-insert_sorted P le x (y ∷ ys) h (k, ks) = elim (Bool-cases (le x y)) [
    | inl t ↦ rw t (h, (k, ks))
    | inr t ↦ rw t (k, All-insert_sorted P le x ys h ks)
  ]

  pub All-sort {κ} :
      (P : A → Type κ) (le : A → A → Bool) (xs : List A) → All P xs → All P (sort le xs)
  unfolding sort
  All-sort P le [] h = tt
  All-sort P le (x ∷ xs) (h, hs) = All-insert_sorted P le x (sort le xs) h (All-sort P le xs hs)

  pub All-take {κ} : (P : A → Type κ) (n : ℕ) (xs : List A) → All P xs → All P (take n xs)
  All-take P zero xs h = tt
  All-take P (suc n) [] h = tt
  All-take P (suc n) (x ∷ xs) (h, hs) = (h, All-take P n xs hs)

  pub All-selected : (p : A → Bool) (xs : List A) → All (λ x. p x ≡ true) (select p xs)
  unfolding select
  All-selected p [] = tt
  All-selected p (x ∷ xs) = elim (Bool-cases (p x)) [
    | inl t ↦ rw t (t, All-selected p xs)
    | inr t ↦ rw t (All-selected p xs)
  ]
