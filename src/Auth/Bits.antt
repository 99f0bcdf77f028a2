-- ===== src/Auth/Bits.antt =====
-- internal/server/auth/auth.go: subtleEqual, which looks at every byte, decides equality.
use quickworks.Base.{
  ℕ, zero, suc, ◌+◌, ◌<◌, ◌≡◌, ◌↔◌, refl, sym, Bool, true, false, ◌||◌, List, [], ◌∷◌, arith,
  length, any, All, ◌%◌, ◌/◌, ◌∙◌,
}
use quickworks.Auth.{bits, xor_bits, or_bits, difference, no_bits, subtle_equal}

abbrev pub is_set : List Bool → Bool
is_set s = any (λ b. b) s

pow2 : ℕ → ℕ
pow2 zero = 1
pow2 (suc n) = pow2 n + pow2 n

is_set-or_bits :
    (s t : List Bool) → length s ≡ length t → is_set (or_bits s t) ≡ (is_set s || is_set t)
unfolding or_bits
is_set-or_bits [] [] same = refl
is_set-or_bits [] (b ∷ t) same = absurd (omega arith)
is_set-or_bits (a ∷ s) [] same = absurd (omega arith)
is_set-or_bits (true ∷ s) (b ∷ t) same = refl
is_set-or_bits (false ∷ s) (true ∷ t) same = ground arith
is_set-or_bits (false ∷ s) (false ∷ t) same = is_set-or_bits s t (omega arith)

length-or_bits : (s t : List Bool) → length s ≡ length t → length (or_bits s t) ≡ length s
unfolding or_bits
length-or_bits [] [] same = refl
length-or_bits [] (b ∷ t) same = absurd (omega arith)
length-or_bits (a ∷ s) [] same = absurd (omega arith)
length-or_bits (a ∷ s) (b ∷ t) same = omega (arith, length-or_bits s t (omega arith))

length-xor_bits : (n a b : ℕ) → length (xor_bits (bits n a) (bits n b)) ≡ n
unfolding xor_bits bits
length-xor_bits zero a b = refl
length-xor_bits (suc n) a b = omega (arith, length-xor_bits n (a / 2) (b / 2))

xor_bits_self : (s : List Bool) → is_set (xor_bits s s) ≡ false
unfolding xor_bits
xor_bits_self [] = refl
xor_bits_self (true ∷ s) = xor_bits_self s
xor_bits_self (false ∷ s) = xor_bits_self s

-- Bytes without a bit between them are equal.
xor_bits-eq :
    (n a b : ℕ) → a < pow2 n → b < pow2 n → is_set (xor_bits (bits n a) (bits n b)) ≡ false → a ≡ b
unfolding xor_bits bits pow2
xor_bits-eq zero a b la lb clear = omega arith
xor_bits-eq (suc n) a b la lb clear =
    let half : a / 2 ≡ b / 2 =
      xor_bits-eq n (a / 2) (b / 2) (omega arith) (omega arith) (ground arith) in
    let low : a % 2 ≡ b % 2 = ground arith in omega arith

-- Some pair of bytes differs.
abbrev differ : List ℕ → List ℕ → Bool
differ (a ∷ s) (b ∷ t) = is_set (xor_bits (bits 8 a) (bits 8 b)) || differ s t
differ _ _ = false

difference-differ :
    (result : List Bool) (s t : List ℕ)
    → length result ≡ 8
    → is_set (difference result s t) ≡ (is_set result || differ s t)
unfolding difference
difference-differ result [] t eight = ground arith
difference-differ result (a ∷ s) [] eight = ground arith
difference-differ result (a ∷ s) (b ∷ t) eight =
    let pair : List Bool = xor_bits (bits 8 a) (bits 8 b) in
    let same : length result ≡ length pair = eight ∙ sym (length-xor_bits 8 a b) in
    ground (
      arith,
      difference-differ (or_bits result pair) s t (length-or_bits result pair same ∙ eight),
      is_set-or_bits result pair same,
    )

differ_self : (s : List ℕ) → differ s s ≡ false
differ_self [] = refl
differ_self (a ∷ s) = ground (arith, xor_bits_self (bits 8 a), differ_self s)

differ-eq :
    (s t : List ℕ)
    → All (λ c. c < 256) s
    → All (λ c. c < 256) t
    → length s ≡ length t
    → differ s t ≡ false
    → s ≡ t
unfolding pow2
differ-eq [] [] ls lt same clear = refl
differ-eq [] (b ∷ t) ls lt same clear = absurd (omega arith)
differ-eq (a ∷ s) [] ls lt same clear = absurd (omega arith)
differ-eq (a ∷ s) (b ∷ t) (la, ls) (lb, lt) same clear =
    rw (byte, differ-eq s t ls lt (omega arith) (ground arith)) refl
  where
    byte : a ≡ b
    byte = xor_bits-eq 8 a b la lb (ground arith)

-- On texts of bytes, the comparison that looks at every byte holds exactly when the two are equal.
pub subtle_equal-eq :
    (left right : List ℕ)
    → All (λ c. c < 256) left
    → All (λ c. c < 256) right
    → (subtle_equal left right ≡ true) ↔ (left ≡ right)
subtle_equal-eq left right ls lt = (to, from)
  where
    counted : is_set (difference no_bits left right) ≡ differ left right
    counted = difference-differ no_bits left right refl

    to : subtle_equal left right ≡ true → left ≡ right
    to h =
        differ-eq left right ls lt (unfold subtle_equal in (ground arith))
          (unfold subtle_equal in (ground (arith, counted)))

    from : left ≡ right → subtle_equal left right ≡ true
    from e = rw (← e) (
        unfold subtle_equal in
        (ground (arith, difference-differ no_bits left left refl, differ_self left)))
