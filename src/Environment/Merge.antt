-- ===== src/Environment/Merge.antt =====
-- internal/agent/supervisor.go: mergeEnvironment. The map of values is listed in the order in which the
-- loop over it happens to run.
use quickworks.Base.{
  Bool, true, false, ℕ, Option, none, some, List, [], ◌∷◌, ◌++◌, if◌then◌else◌, any,
}
use quickworks.Text.{same, has_prefix, cut}
use quickworks.Environment.{Variables}

-- seen[key]
abbrev pub listed : List ℕ → List (List ℕ) → Bool
listed k seen = any (λ j. same j k) seen

-- key + "=" + value
abbrev pub item_of : List ℕ → List ℕ → List ℕ
item_of k v = k ++ b'=' ∷ v

-- The first loop: the keys that it has seen, and the result.
unfoldable pub merge_base :
    List (List ℕ) → List (List ℕ) → List (List ℕ) → List (List ℕ) × List (List ℕ)
merge_base [] seen result = (seen, result)
merge_base (item ∷ items) seen result = elim (cut b'=' item) [
  | none ↦ merge_base items seen result
  | some (key, value) ↦ elim (listed key seen) [
    | true ↦ merge_base items seen result
    | false ↦ merge_base items (key ∷ seen) (result ++ item ∷ [])
  ]
]

-- `for index, item := range result { if strings.HasPrefix(item, key+"=") { ... } }`
unfoldable pub override : List ℕ → List ℕ → List (List ℕ) → List (List ℕ)
override k v [] = []
override k v (item ∷ items) =
    (if has_prefix (item_of k []) item then item_of k v else item) ∷ override k v items

-- The second loop.
unfoldable pub merge_values : Variables → List (List ℕ) → List (List ℕ) → List (List ℕ)
merge_values [] seen result = result
merge_values ((key, value) ∷ values) seen result = elim (listed key seen) [
  | true ↦ merge_values values seen (override key value result)
  | false ↦ merge_values values (key ∷ seen) (result ++ item_of key value ∷ [])
]

unfoldable pub merge_environment : List (List ℕ) → Variables → List (List ℕ) → List (List ℕ)
merge_environment base values additions =
    let (seen, result) = merge_base (base ++ additions) [] [] in merge_values values seen result

-- What a process finds under a name in its environment: its first entry.
unfoldable pub get : List ℕ → List (List ℕ) → Option (List ℕ)
get k [] = none
get k (item ∷ items) =
    let rest = get k items in
    elim (cut b'=' item) [
      | none ↦ rest
      | some (key, value) ↦ if same key k then some value else rest
    ]
