-- ===== src/Environment/Merged.antt =====
-- internal/agent/supervisor.go: the environment that mergeEnvironment makes, as a function of names.
use quickworks.Base.{
  ℕ, suc, ◌≡◌, ◌≤◌, ◌∙◌, refl, Bool, true, false, Option, none, some, List, [], ◌∷◌, ◌++◌,
  if◌then◌else◌, arith, is_some, Bool-cases, Option-cases, inl, inr,
}
use quickworks.Table.{count, insert}
use quickworks.Table.Counts.{count-insert}
use quickworks.Text.{same, has_prefix, cut, contains}
use quickworks.Text.Laws.{same-eq, same_iff, cut-append}
use quickworks.Environment.{Variables, lookup}
use quickworks.Environment.Merge.{
  listed, item_of, merge_base, override, merge_values, merge_environment, get,
}

-- What one entry gives for a name.
abbrev given : List ℕ → List ℕ → Option (List ℕ)
given k item = get k (item ∷ [])

abbrev or_else : Option (List ℕ) → Option (List ℕ) → Option (List ℕ)
or_else none other = other
or_else (some v) other = some v

get-append : (k : List ℕ) (xs ys : List (List ℕ)) → get k (xs ++ ys) ≡ or_else (get k xs) (get k ys)
unfolding get
get-append k [] ys = refl
get-append k (x ∷ xs) ys = ground (arith, get-append k xs ys)

get-item_of :
    (k j v : List ℕ)
    → contains b'=' j ≡ false
    → get k (item_of j v ∷ []) ≡ (if same j k then some v else none)
unfolding get
get-item_of k j v plain = rw (cut-append b'=' j v plain, get) refl

-- The entry begins with the name and a sign exactly if Cut finds the name.
has_prefix-cut :
    (k item : List ℕ)
    → contains b'=' k ≡ false
    → has_prefix (item_of k []) item
      ≡ elim (cut b'=' item) [ none ↦ false | some (key, value) ↦ same key k ]
unfolding has_prefix cut contains same
has_prefix-cut [] [] plain = refl
has_prefix-cut [] (b ∷ item) plain = ground arith
has_prefix-cut (c ∷ k) [] plain = refl
has_prefix-cut (c ∷ k) (b ∷ item) plain = ground (arith, has_prefix-cut k item)

-- `seen` lists the names that the result gives a value.
abbrev Sees : List (List ℕ) → List (List ℕ) → Type 0
Sees seen result = (k : List ℕ) → listed k seen ≡ is_some (get k result)

-- The entry is one of that name.
abbrev names : List ℕ → List ℕ → Bool
names k item = elim (cut b'=' item) [ none ↦ false | some (key, value) ↦ same key k ]

abbrev pub IsUnique : List (List ℕ) → Type 0
IsUnique items = (k : List ℕ) → count (names k) items ≤ 1

count-names_none :
    (k : List ℕ) (items : List (List ℕ)) → get k items ≡ none → count (names k) items ≡ 0
unfolding get count
count-names_none k [] gone = refl
count-names_none k (item ∷ items) gone = ground (arith, count-names_none k items)

Sees-append :
    (key item value : List ℕ) (seen result : List (List ℕ))
    → cut b'=' item ≡ some (key, value)
    → Sees seen result
    → Sees (key ∷ seen) (result ++ item ∷ [])
Sees-append key item value seen result found sees k =
    ground (arith, sees k, get-append k result (item ∷ []), given_by k)
  where
    given_by : (k : List ℕ) → get k (item ∷ []) ≡ (if same key k then some value else none)
    given_by k = unfold get in rw (found, get) refl

IsUnique-append :
    (key item value : List ℕ) (seen result : List (List ℕ))
    → cut b'=' item ≡ some (key, value)
    → listed key seen ≡ false
    → Sees seen result
    → IsUnique result
    → IsUnique (result ++ item ∷ [])
IsUnique-append key item value seen result found new sees unique k =
    elim (Bool-cases (same key k)) [
      | inl same_name ↦
          let e : key ≡ k = same-eq key k same_name in
          ground (arith, added k, count-names_none k result, sees k, rw e at new)
      | inr other ↦ ground (arith, added k, names_it k, unique k)
    ]
  where
    added :
        (k : List ℕ)
        → count (names k) (result ++ item ∷ [])
          ≡ (if names k item then suc (count (names k) result) else count (names k) result)
    added k = unfold insert in count-insert (names k) item result

    names_it : (k : List ℕ) → names k item ≡ same key k
    names_it k = rw (found, names) refl

pub merge_base-get :
    (items seen result : List (List ℕ))
    → Sees seen result
    → IsUnique result
    → Sees (merge_base items seen result).0 (merge_base items seen result).1
      × IsUnique (merge_base items seen result).1
      × ((k : List ℕ)
          → get k (merge_base items seen result).1 ≡ or_else (get k result) (get k items))
unfolding merge_base
merge_base-get [] seen result sees unique = (sees, unique, λ k. unfold get in (ground arith))
merge_base-get (item ∷ items) seen result sees unique = elim (Option-cases (cut b'=' item)) [
  | inl bare ↦
      rw (bare, merge_base)
        (let (s, u, g) = merge_base-get items seen result sees unique in
          (s, u, λ k. g k ∙ unfold get in (ground (arith, bare))))
  | inr ((key, value), found) ↦ elim (Bool-cases (listed key seen)) [
    | inl old ↦
        rw (found, merge_base)
          (rw old (
            let (s, u, g) = merge_base-get items seen result sees unique in
            (s, u, λ k. g k ∙ passed_over k key value found old)))
    | inr new ↦
        rw (found, merge_base)
          (rw new (
            let (s, u, g) =
              merge_base-get items (key ∷ seen) (result ++ item ∷ [])
                (Sees-append key item value seen result found sees)
                (IsUnique-append key item value seen result found new sees unique) in
            (s, u, λ k. g k ∙ taken_in k)))
  ]
]
  where
    passed_over :
        (k key value : List ℕ)
        → cut b'=' item ≡ some (key, value)
        → listed key seen ≡ true
        → or_else (get k result) (get k items) ≡ or_else (get k result) (get k (item ∷ items))
    passed_over k key value found old = elim (Bool-cases (same key k)) [
      | inl same_name ↦
          let e : key ≡ k = same-eq key k same_name in ground (arith, sees k, rw e at old)
      | inr other ↦ unfold get in (ground (arith, found))
    ]

    taken_in :
        (k : List ℕ)
        → or_else (get k (result ++ item ∷ [])) (get k items)
          ≡ or_else (get k result) (get k (item ∷ items))
    taken_in k = ground (arith, get-append k result (item ∷ []), get-append k (item ∷ []) items)

override-get :
    (j v k : List ℕ) (items : List (List ℕ))
    → contains b'=' j ≡ false
    → get k (override j v items)
      ≡ (if same j k then elim (get k items) [ none ↦ none | some old ↦ some v ] else get k items)
unfolding get override
override-get j v k [] plain = ground arith
override-get j v k (item ∷ items) plain = elim (Option-cases (cut b'=' item)) [
  | inl bare ↦ ground (arith, has_prefix-cut j item plain, override-get j v k items plain)
  | inr ((key, value), found) ↦ ground (
    arith,
    has_prefix-cut j item plain,
    cut-append b'=' j v plain,
    override-get j v k items plain,
    same_iff key j,
    same_iff key k,
    same_iff j k,
  )
]

override-names :
    (j v k : List ℕ) (items : List (List ℕ))
    → contains b'=' j ≡ false
    → count (names k) (override j v items) ≡ count (names k) items
unfolding override count
override-names j v k [] plain = refl
override-names j v k (item ∷ items) plain = elim (Option-cases (cut b'=' item)) [
  | inl bare ↦ ground (arith, has_prefix-cut j item plain, override-names j v k items plain)
  | inr ((key, value), found) ↦ ground (
    arith,
    has_prefix-cut j item plain,
    cut-append b'=' j v plain,
    override-names j v k items plain,
    same_iff key j,
  )
]

-- The entries of a map: every key once, none with a sign in it.
abbrev pub AreVariables : Variables → Type 0
AreVariables [] = Unit
AreVariables ((k, v) ∷ values) =
    (contains b'=' k ≡ false) × (lookup k values ≡ none) × AreVariables values

merge_values-get :
    (values : Variables) (seen result : List (List ℕ))
    → AreVariables values
    → Sees seen result
    → IsUnique result
    → IsUnique (merge_values values seen result)
      × ((k : List ℕ)
          → get k (merge_values values seen result) ≡ or_else (lookup k values) (get k result))
unfolding merge_values lookup
merge_values-get [] seen result distinct sees unique = (unique, λ k. refl)
merge_values-get ((j, v) ∷ values) seen result (plain, once, distinct) sees unique =
    elim (Bool-cases (listed j seen)) [
      | inl old ↦
          rw (old, merge_values)
            (let (u, g) =
                merge_values-get values seen (override j v result) distinct
                  (λ k.
                    ground (arith, sees k, sees j, override-get j v k result plain, same_iff j k))
                  (λ k. rw (override-names j v k result plain) (unique k)) in
              (u, λ k. g k ∙ overridden k old))
      | inr new ↦
          rw (new, merge_values)
            (let (u, g) =
                merge_values-get values (j ∷ seen) (result ++ item_of j v ∷ []) distinct
                  (Sees-append j (item_of j v) v seen result (cut-append b'=' j v plain) sees)
                  (IsUnique-append j (item_of j v) v seen result (cut-append b'=' j v plain) new
                    sees unique) in
              (u, λ k. g k ∙ added k new))
    ]
  where
    overridden :
        (k : List ℕ)
        → listed j seen ≡ true
        → or_else (lookup k values) (get k (override j v result))
          ≡ or_else (if same j k then some v else lookup k values) (get k result)
    overridden k old = elim (Bool-cases (same j k)) [
      | inl same_name ↦
          let e : j ≡ k = same-eq j k same_name in
          ground (arith, sees k, override-get j v k result plain, rw e at old, rw e at once)
      | inr other ↦ ground (arith, override-get j v k result plain)
    ]

    added :
        (k : List ℕ)
        → listed j seen ≡ false
        → or_else (lookup k values) (get k (result ++ item_of j v ∷ []))
          ≡ or_else (if same j k then some v else lookup k values) (get k result)
    added k new = elim (Bool-cases (same j k)) [
      | inl same_name ↦
          let e : j ≡ k = same-eq j k same_name in
          ground (
            arith,
            sees k,
            get-append k result (item_of j v ∷ []),
            get-item_of k j v plain,
            rw e at new,
            rw e at once,
          )
      | inr other ↦ ground (arith, get-append k result (item_of j v ∷ []), get-item_of k j v plain)
    ]

-- For a map of values with unique names and no equals sign in them, listed in any order, the merged
-- environment has each name once, and gives it the value of the map, or else the first value that
-- the base and then the additions give it.
pub merge_environment-get :
    (base additions : List (List ℕ)) (values : Variables)
    → AreVariables values
    → IsUnique (merge_environment base values additions)
      × ((k : List ℕ)
          → get k (merge_environment base values additions)
            ≡ elim (lookup k values) [ none ↦ get k (base ++ additions) | some v ↦ some v ])
unfolding merge_environment
merge_environment-get base additions values distinct =
    let (sees, unique, g) =
      merge_base-get (base ++ additions) [] [] nothing_seen (λ k. unfold count in (omega arith)) in
    let (u, h) = merge_values-get values _ _ distinct sees unique in
    (u, λ k. h k ∙ ground (arith, g k, nothing k))
  where
    nothing : (k : List ℕ) → get k [] ≡ none
    nothing k = unfold get in refl

    nothing_seen : (k : List ℕ) → listed k [] ≡ is_some (get k [])
    nothing_seen k = unfold get in refl
