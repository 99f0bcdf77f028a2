-- ===== src/Text/Paths.antt =====
-- The functions of Go's path/filepath that the program uses, on Linux, over the bytes of a path.
use mathlib.Core.List.{reverse}
use quickworks.Base.{ℕ, Bool, false, not, ◌&&◌, ◌||◌, List, [], ◌∷◌, ◌++◌, if◌then◌else◌, nat_eq}
use quickworks.Text.{same, split, join}

-- filepath.IsAbs
abbrev pub is_abs : List ℕ → Bool
is_abs [] = false
is_abs (b ∷ path) = nat_eq b b'/'

abbrev pub is_dots : List ℕ → Bool
is_dots part = same part (b'.' ∷ b'.' ∷ [])

abbrev pub is_no_step : List ℕ → Bool
is_no_step part = same part [] || same part (b'.' ∷ [])

-- One part of a path taken onto the parts before it, the last one first.
unfoldable pub push_part : Bool → List ℕ → List (List ℕ) → List (List ℕ)
push_part rooted part [] =
    if is_no_step part then [] else (if is_dots part && rooted then [] else part ∷ [])
push_part rooted part (top ∷ below) =
    if is_no_step part
    then top ∷ below
    else (if is_dots part && not (is_dots top) then below else part ∷ top ∷ below)

unfoldable pub push_parts : Bool → List (List ℕ) → List (List ℕ) → List (List ℕ)
push_parts rooted [] before = before
push_parts rooted (part ∷ parts) before = push_parts rooted parts (push_part rooted part before)

abbrev dot_if_empty : List ℕ → List ℕ
dot_if_empty [] = b'.' ∷ []
dot_if_empty (b ∷ path) = b ∷ path

-- filepath.Clean
unfoldable pub clean : List ℕ → List ℕ
unfolding push_parts push_part
clean path =
    let parts = reverse (push_parts (is_abs path) (split b'/' path) []) in
    if is_abs path then b'/' ∷ join b'/' parts else dot_if_empty (join b'/' parts)

-- filepath.Join(a, b) for a first part that is not empty
unfoldable pub join_path : List ℕ → List ℕ → List ℕ
unfolding clean
join_path a [] = clean a
join_path a (b ∷ path) = clean (a ++ b'/' ∷ b ∷ path)
