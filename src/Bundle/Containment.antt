-- ===== src/Bundle/Containment.antt =====
-- internal/agent/bundle.go: no entry that is accepted leaves the archive's directory.
use quickworks.Base.{
  ℕ, ◌≡◌, ◌∙◌, refl, Bool, true, false, ◌||◌, Option, none, some, List, [], ◌∷◌, arith,
  if◌then◌else◌, all, All, Option-cases, inl, inr,
}
use quickworks.Text.Laws.{same-eq}
use quickworks.Text.{same, split}
use quickworks.Bundle.{
  is_nil, is_plain, relative_archive_path, trim_slash, split_name, archive_path, check_root,
}

-- Walking down a path from a directory, as the file system resolves it: the last directory first.
-- None for a walk that leaves the directory it starts in.
abbrev up : List (List ℕ) → Option (List (List ℕ))
up [] = none
up (d ∷ ds) = some ds

abbrev step : List ℕ → List (List ℕ) → Option (List (List ℕ))
step part here =
    if is_nil part || same part (b'.' ∷ [])
    then some here
    else (if same part (b'.' ∷ b'.' ∷ []) then up here else some (part ∷ here))

unfoldable pub walk : List (List ℕ) → List (List ℕ) → Option (List (List ℕ))
walk [] here = some here
walk (part ∷ parts) here = elim (step part here) [ none ↦ none | some here' ↦ walk parts here' ]

abbrev pub onto : List (List ℕ) → List (List ℕ) → List (List ℕ)
onto [] here = here
onto (part ∷ parts) here = onto parts (part ∷ here)

walk-plain :
    (parts here : List (List ℕ))
    → all is_plain parts ≡ true
    → walk parts here ≡ some (onto parts here)
unfolding walk
walk-plain [] here plain = refl
walk-plain (part ∷ parts) here plain =
    let taken : step part here ≡ some (part ∷ here) = ground arith in
    rw (taken, walk) (walk-plain parts (part ∷ here) (ground arith))

split_name-some :
    (is_directory : Bool) (name : List ℕ) (parts : List (List ℕ)) (path first : List ℕ)
    → split_name is_directory name parts ≡ some (path, first)
    → (path ≡ name) × ((rest : List (List ℕ)) × (parts ≡ first ∷ rest))
unfolding split_name
split_name-some is_directory name [] path first h = cc
split_name-some true name (f ∷ []) path first h = (cc, ([], cc))
split_name-some false name (f ∷ []) path first h = cc
split_name-some is_directory name (f ∷ next ∷ rest) path first h = (cc, (next ∷ rest, cc))

archive_path-plain :
    (name : List ℕ) (is_directory : Bool) (path first : List ℕ)
    → archive_path name is_directory ≡ some (path, first)
    → ((rest : List (List ℕ)) × (split b'/' path ≡ first ∷ rest))
      × (all is_plain (split b'/' path) ≡ true)
unfolding archive_path relative_archive_path
archive_path-plain name is_directory path first h =
    let trimmed : List ℕ = if is_directory then trim_slash name else name in
    let named : split_name is_directory trimmed (split b'/' trimmed) ≡ some (path, first) =
      ground arith in
    let plain : all is_plain (split b'/' trimmed) ≡ true = ground arith in
    let (same_path, parts) =
      split_name-some is_directory trimmed (split b'/' trimmed) path first named in
    rw same_path (parts, plain)

-- The name of an archive entry that is accepted starts with its top-level directory, and resolving
-- the name step by step from the directory it is unpacked in goes down through each of its parts
-- and never up.
pub archive_path-walk :
    (name : List ℕ) (is_directory : Bool) (path first : List ℕ)
    → archive_path name is_directory ≡ some (path, first)
    → (rest : List (List ℕ)) × (split b'/' path ≡ first ∷ rest)
      × (walk (split b'/' path) [] ≡ some (onto rest (first ∷ [])))
archive_path-walk name is_directory path first h =
    let ((rest, parts), plain) = archive_path-plain name is_directory path first h in
    (rest, parts, rw parts (walk-plain (first ∷ rest) [] (rw parts at plain)))

-- An entry whose name is accepted and lies under the directory `root`.
abbrev pub Under : List ℕ → List ℕ × Bool → Type 0
Under root (name, is_directory) =
    (path : List ℕ) × (archive_path name is_directory ≡ some (path, root))

check_root-known :
    (root : List ℕ) (entries : List (List ℕ × Bool)) (r : List ℕ)
    → is_nil root ≡ false
    → check_root root entries ≡ some r
    → (root ≡ r) × All (Under r) entries
unfolding check_root
check_root-known root [] r set h = (cc, tt)
check_root-known root ((name, is_directory) ∷ entries) r set h =
    elim (Option-cases (archive_path name is_directory)) [
      | inl unsafe ↦ absurd (ground arith)
      | inr ((path, first), accepted) ↦
          let under : same first root ≡ true = ground arith in
          let later : check_root root entries ≡ some r = ground arith in
          let (kept, others) = check_root-known root entries r set later in
          let same_root : first ≡ r = same-eq first root under ∙ kept in
          (kept, ((path, rw (← same_root) accepted), others))
    ]

first-filled :
    (name : List ℕ) (is_directory : Bool) (path first : List ℕ)
    → archive_path name is_directory ≡ some (path, first)
    → is_nil first ≡ false
first-filled name is_directory path first h =
    let ((rest, parts), plain) = archive_path-plain name is_directory path first h in
    let all_plain : all is_plain (first ∷ rest) ≡ true = rw parts at plain in ground arith

-- If the names of an archive's entries pass the loop, every one of them is accepted, with the same
-- top-level directory.
pub check_root-Under :
    (entries : List (List ℕ × Bool)) (r : List ℕ)
    → check_root [] entries ≡ some r
    → All (Under r) entries
unfolding check_root
check_root-Under [] r h = tt
check_root-Under ((name, is_directory) ∷ entries) r h =
    elim (Option-cases (archive_path name is_directory)) [
      | inl unsafe ↦ absurd (ground arith)
      | inr ((path, first), accepted) ↦
          let later : check_root first entries ≡ some r = ground arith in
          let (kept, others) =
            check_root-known first entries r (first-filled name is_directory path first accepted)
              later in
          ((path, rw (← kept) accepted), others)
    ]
