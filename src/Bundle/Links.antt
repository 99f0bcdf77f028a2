-- ===== src/Bundle/Links.antt =====
-- internal/agent/bundle.go: symlinkStaysInRoot, with filepath.Dir and filepath.Rel of absolute paths.
use quickworks.Base.{
  ℕ, ◌≡◌, refl, Bool, true, false, not, ◌&&◌, List, [], ◌∷◌, ◌++◌, if◌then◌else◌, map, nat_eq,
  arith, Bool-cases, inl, inr,
}
use quickworks.Text.{bytes, same, has_prefix, split, join}
use quickworks.Text.Laws.{same-eq}
use quickworks.Text.Paths.{clean, join_path}
use quickworks.Bundle.{is_nil}

-- What stands before a last slash, the slash included.
unfoldable pub up_to_slash : List ℕ → List ℕ
up_to_slash [] = []
up_to_slash (b ∷ s) = elim (up_to_slash s) [
  | [] ↦ if nat_eq b b'/' then b ∷ [] else []
  | c ∷ rest ↦ b ∷ c ∷ rest
]

-- filepath.Dir
abbrev pub dir : List ℕ → List ℕ
dir path = clean (up_to_slash path)

unfoldable pub filled_parts : List (List ℕ) → List (List ℕ)
filled_parts [] = []
filled_parts (part ∷ parts) =
    let rest = filled_parts parts in if is_nil part then rest else part ∷ rest

-- The elements of an absolute path, once it is clean.
abbrev pub elements : List ℕ → List (List ℕ)
elements path = filled_parts (split b'/' (clean path))

abbrev pub dots : List ℕ
dots = bytes ".."

unfoldable pub rel_elements : List (List ℕ) → List (List ℕ) → List ℕ
rel_elements [] [] = bytes "."
rel_elements [] (t ∷ target) = join b'/' (t ∷ target)
rel_elements (b ∷ base) [] = join b'/' (dots ∷ map (λ part. dots) base)
rel_elements (b ∷ base) (t ∷ target) =
    let rest = rel_elements base target in
    if same b t then rest else join b'/' (dots ∷ map (λ part. dots) base ++ t ∷ target)

-- filepath.Rel of absolute paths, which gives no error
abbrev pub rel : List ℕ → List ℕ → List ℕ
rel base target = rel_elements (elements base) (elements target)

abbrev pub is_inside : List ℕ → Bool
is_inside relative = not (same relative dots) && not (has_prefix (bytes "../") relative)

abbrev pub resolved : List ℕ → List ℕ → List ℕ
resolved path target = clean (join_path (dir path) target)

-- symlinkStaysInRoot
unfoldable pub symlink_stays_in_root : List ℕ → List ℕ → List ℕ → List ℕ → Bool
symlink_stays_in_root path target destination root =
    is_inside (rel (join_path destination root) (resolved path target))

-- A relative path that starts with two dots does not stay.
is_inside-dots : (parts : List (List ℕ)) → is_inside (join b'/' (dots ∷ parts)) ≡ false
unfolding join same has_prefix
is_inside-dots [] = refl
is_inside-dots (part ∷ parts) = refl

rel_elements-Under :
    (base target : List (List ℕ))
    → is_inside (rel_elements base target) ≡ true
    → (rest : List (List ℕ)) × (target ≡ base ++ rest)
unfolding rel_elements
rel_elements-Under [] target h = (target, refl)
rel_elements-Under (b ∷ base) [] h =
    absurd (ground (arith, is_inside-dots (map (λ part. dots) base)))
rel_elements-Under (b ∷ base) (t ∷ target) h = elim (Bool-cases (same b t)) [
  | inl equal ↦
      let (rest, e) = rel_elements-Under base target (rw (equal, rel_elements) at h) in
      (rest, rw (same-eq b t equal, e) refl)
  | inr differs ↦ absurd (ground (arith, is_inside-dots (map (λ part. dots) base ++ t ∷ target)))
]

-- If symlinkStaysInRoot accepts a link, then its target, resolved by its text from the directory of
-- the link, has the elements of the archive's own directory in front; links on the way are not
-- followed.
pub symlink_stays_in_root-Under :
    (path target destination root : List ℕ)
    → symlink_stays_in_root path target destination root ≡ true
    → (rest : List (List ℕ)) × (elements (resolved path target)
        ≡ elements (join_path destination root) ++ rest)
unfolding symlink_stays_in_root
symlink_stays_in_root-Under path target destination root h =
    rel_elements-Under (elements (join_path destination root)) (elements (resolved path target)) h
