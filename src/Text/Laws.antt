-- ===== src/Text/Laws.antt =====
-- What Go's string functions do to texts that are put together.
use quickworks.Base.{ℕ, ◌≡◌, ◌↔◌, refl, true, false, some, List, [], ◌∷◌, ◌++◌, arith}
use quickworks.Text.{same, split, split_parts, cut, contains}

pub same-eq : (a b : List ℕ) → same a b ≡ true → a ≡ b
unfolding same
same-eq [] [] h = refl
same-eq [] (y ∷ b) h = cc
same-eq (x ∷ a) [] h = cc
same-eq (x ∷ a) (y ∷ b) h =
    let head : x ≡ y = ground arith in rw (head, same-eq a b (ground arith)) refl

pub same_self : (a : List ℕ) → same a a ≡ true
unfolding same
same_self [] = refl
same_self (x ∷ a) = ground (arith, same_self a)

pub same_iff : (a b : List ℕ) → (same a b ≡ true) ↔ (a ≡ b)
same_iff a b = (same-eq a b, λ e. rw e (same_self b))

-- strings.Split(line + "\n" + rest, "\n") for a line without a separator
pub split-append :
    (c : ℕ) (line rest : List ℕ)
    → contains c line ≡ false
    → split c (line ++ c ∷ rest) ≡ line ∷ split c rest
unfolding split split_parts contains
split-append c [] rest apart = ground arith
split-append c (b ∷ line) rest apart = ground (arith, split-append c line rest)

-- strings.Cut(before + "=" + after, "=") for a first part without a separator
pub cut-append :
    (c : ℕ) (before after : List ℕ)
    → contains c before ≡ false
    → cut c (before ++ c ∷ after) ≡ some (before, after)
unfolding cut contains
cut-append c [] after apart = ground arith
cut-append c (b ∷ before) after apart = ground (arith, cut-append c before after)

pub contains-append :
    (c : ℕ) (s t : List ℕ)
    → contains c s ≡ false
    → contains c t ≡ false
    → contains c (s ++ t) ≡ false
unfolding contains
contains-append c [] t hs ht = ht
contains-append c (b ∷ s) t hs ht = ground (arith, contains-append c s t)
