-- ===== src/Text.antt =====
-- The functions of Go's strings package that the program uses, over the bytes of a text.
pub mod Laws
pub mod Paths
use Prim.Native.Char.{code}
use quickworks.Base.{
  ℕ, String, Bool, true, false, ◌&&◌, ◌||◌, Option, none, some, List, [], ◌∷◌, ◌++◌, if◌then◌else◌,
  nat_eq, ◌+◌, leb,
}

-- The bytes of a text in ASCII.
abbrev pub bytes : String → List ℕ
bytes String.[] = []
bytes (String.◌∷◌ c s) = code c ∷ bytes s

-- strings.ToLower, of one byte
abbrev pub to_lower : ℕ → ℕ
to_lower c = if leb b'A' c && leb c b'Z' then c + 32 else c

-- left == right
unfoldable pub same : List ℕ → List ℕ → Bool
same [] [] = true
same (a ∷ s) (b ∷ t) = nat_eq a b && same s t
same _ _ = false

-- strings.HasPrefix(s, prefix), the prefix first
unfoldable pub has_prefix : List ℕ → List ℕ → Bool
has_prefix [] s = true
has_prefix (a ∷ p) [] = false
has_prefix (a ∷ p) (b ∷ s) = nat_eq a b && has_prefix p s

-- strings.Contains(s, part)
unfoldable pub contains_text : List ℕ → List ℕ → Bool
contains_text part [] = has_prefix part []
contains_text part (b ∷ s) = has_prefix part (b ∷ s) || contains_text part s

-- strings.Contains(s, string(c)) for one byte
unfoldable pub contains : ℕ → List ℕ → Bool
contains c [] = false
contains c (b ∷ s) = nat_eq b c || contains c s

-- The first part of strings.Split(s, string(c)), and the others.

unfoldable pub split_parts : ℕ → List ℕ → List ℕ × List (List ℕ)
split_parts c [] = ([], [])
split_parts c (b ∷ s) =
    let (part, parts) = split_parts c s in
    if nat_eq b c then ([], part ∷ parts) else (b ∷ part, parts)

-- strings.Split(s, string(c)) for one byte
unfoldable pub split : ℕ → List ℕ → List (List ℕ)
unfolding split_parts
split c s = let (part, parts) = split_parts c s in part ∷ parts

-- strings.Join(parts, string(c))
unfoldable pub join : ℕ → List (List ℕ) → List ℕ
join c [] = []
join c (part ∷ []) = part
join c (part ∷ next ∷ parts) = part ++ c ∷ join c (next ∷ parts)

-- strings.Cut(s, string(c)) for one byte
unfoldable pub cut : ℕ → List ℕ → Option (List ℕ × List ℕ)
cut c [] = none
cut c (b ∷ s) =
    let rest = cut c s in
    if nat_eq b c
    then some ([], s)
    else elim rest [ none ↦ none | some (before, after) ↦ some (b ∷ before, after) ]
