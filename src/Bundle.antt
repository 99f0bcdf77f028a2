-- ===== src/Bundle.antt =====
-- internal/agent/bundle.go: which entries of a workbench archive may be unpacked, and where.
-- A path is the list of its bytes; on the agent's systems the separator is a slash.
pub mod Containment
pub mod Links
pub mod Examples
use quickworks.Base.{
  ℕ, zero, suc, Bool, true, false, not, ◌&&◌, ◌||◌, Option, none, some, List, [], ◌∷◌,
  if◌then◌else◌, all, nat_eq,
}
use quickworks.Text.{same, has_prefix, split}

abbrev pub is_nil {ℓ} : {A : Type ℓ} → List A → Bool
is_nil [] = true
is_nil (x ∷ xs) = false

-- A part that is not empty, "." or "..".
abbrev pub is_plain : List ℕ → Bool
is_plain part = not (is_nil part || (same part (b'.' ∷ []) || same part (b'.' ∷ b'.' ∷ [])))

-- relativeArchivePath
unfoldable pub relative_archive_path : List ℕ → Bool
relative_archive_path path =
    if is_nil path || has_prefix (b'/' ∷ []) path then false else all is_plain (split b'/' path)

-- strings.TrimSuffix(name, "/")
unfoldable pub trim_slash : List ℕ → List ℕ
trim_slash [] = []
trim_slash (c ∷ []) = if nat_eq c b'/' then [] else c ∷ []
trim_slash (c ∷ d ∷ s) = c ∷ trim_slash (d ∷ s)

-- The name and its top-level directory; a file needs a directory above it.
unfoldable pub split_name : Bool → List ℕ → List (List ℕ) → Option (List ℕ × List ℕ)
split_name is_directory name [] = none
split_name is_directory name (first ∷ []) = if is_directory then some (name, first) else none
split_name is_directory name (first ∷ next ∷ rest) = some (name, first)

-- archivePath
unfoldable pub archive_path : List ℕ → Bool → Option (List ℕ × List ℕ)
archive_path name is_directory =
    let trimmed = if is_directory then trim_slash name else name in
    if has_prefix (b'/' ∷ []) trimmed || not (relative_archive_path trimmed)
    then none
    else split_name is_directory trimmed (split b'/' trimmed)

-- The check of the loop in extractBundle over the names of the entries: all below one directory,
-- which the first of them names.
unfoldable pub check_root : List ℕ → List (List ℕ × Bool) → Option (List ℕ)
check_root root [] = some root
check_root root ((name, is_directory) ∷ entries) = elim (archive_path name is_directory) [
  | none ↦ none
  | some (path, first) ↦
      let root' = if is_nil root then first else root in
      let rest = check_root root' entries in if same first root' then rest else none
]
