-- ===== src/Snapshots/Pruned.antt =====
-- internal/provisioner/state/local.go: prune leaves no more snapshots than are to be retained.
use mathlib.Core.Path.{subst}
use quickworks.Base.{
  ℕ, ◌≤◌, ◌≡◌, ◌∙◌, refl, sym, String, Bool, true, false, not, ◌&&◌, ◌||◌, List, [], ◌∷◌, ◌==◌,
  arith, any, map, ltb, length, All, Bool-cases, inl, inr, eq_iff, eq_refl,
}
use quickworks.Table.{count, select, delete, insert_sorted, sort}
use quickworks.Table.Counts.{count_mono}
use quickworks.Table.Rows.{count_split, All-mono, All-count_none}
use quickworks.Table.Changes.{count-select, count-delete_mono}
use quickworks.Snapshots.{Entry, is_snapshot, comes_first, prune_names, snapshot_names, prune}

abbrev listed : String → List String → Bool
listed name ns = any (λ n. n == name) ns

-- Every snapshot's name is on the list.
abbrev Covered : List String → List Entry → Type 0
Covered ns = All (λ e. is_snapshot e ≡ true → listed e.name ns ≡ true)

-- No two entries of a directory have one name.
abbrev pub IsDirectory : List Entry → Type 0
IsDirectory entries = (n : String) → count (λ e. e.name == n) entries ≤ 1

Covered-delete :
    (n : String) (ns : List String) (entries : List Entry)
    → Covered (n ∷ ns) entries
    → Covered ns (delete (λ e. e.name == n) entries)
unfolding delete select
Covered-delete n ns [] covered = tt
Covered-delete n ns (e ∷ entries) (on_list, covered) = elim (Bool-cases (e.name == n)) [
  | inl same ↦ rw same (Covered-delete n ns entries covered)
  | inr other ↦ rw other (
    (λ snap. ground (arith, on_list snap, eq_iff n e.name, eq_iff e.name n)),
    Covered-delete n ns entries covered,
  )
]

Covered-count :
    (ns : List String) (entries : List Entry)
    → Covered ns entries
    → IsDirectory entries
    → count is_snapshot entries ≤ length ns
Covered-count [] entries covered unique = omega (
  arith,
  All-count_none is_snapshot entries (All-mono _ _ entries (λ e h. none_left e h) covered),
)
  where
    none_left : (e : Entry) → (is_snapshot e ≡ true → false ≡ true) → is_snapshot e ≡ false
    none_left e h = elim (Bool-cases (is_snapshot e)) [ inl s ↦ absurd (cc (h s)) | inr f ↦ f ]
Covered-count (n ∷ ns) entries covered unique = omega (
  arith,
  count_split is_snapshot (λ e. e.name == n) entries,
  unique n,
  count_mono (λ e. is_snapshot e && (e.name == n)) (λ e. e.name == n) entries (λ e. ground arith),
  counted,
  Covered-count ns (delete (λ e. e.name == n) entries) (Covered-delete n ns entries covered) (λ k.
      omega (arith, unique k, count-delete_mono (λ e. e.name == n) (λ e. e.name == k) entries)),
)
  where
    counted :
        count (λ e. is_snapshot e && not (e.name == n)) entries
        ≤ count is_snapshot (delete (λ e. e.name == n) entries)
    counted =
        unfold delete in
        (omega (
          arith,
          count-select is_snapshot (λ e. not (e.name == n)) entries,
          count_mono (λ e. is_snapshot e && not (e.name == n))
              (λ e. not (e.name == n) && is_snapshot e) entries (λ e. ground arith),
        ))

prune_names-bounded :
    (retention : ℕ) (ns : List String) (entries : List Entry)
    → Covered ns entries
    → IsDirectory entries
    → count is_snapshot (prune_names retention ns entries) ≤ retention
unfolding prune_names
prune_names-bounded retention [] entries covered unique =
    omega (arith, Covered-count [] entries covered unique)
prune_names-bounded retention (n ∷ ns) entries covered unique =
    elim (Bool-cases (ltb retention (length (n ∷ ns)))) [
      | inl more ↦ rw more (
          prune_names-bounded retention ns (delete (λ e. e.name == n) entries)
            (Covered-delete n ns entries covered)
            (λ k.
              omega
                (arith, unique k, count-delete_mono (λ e. e.name == n) (λ e. e.name == k) entries)))
      | inr enough ↦ rw enough (ground (arith, Covered-count (n ∷ ns) entries covered unique))
    ]

listed-insert_sorted :
    (name n : String) (ns : List String)
    → listed name (insert_sorted comes_first n ns) ≡ ((n == name) || listed name ns)
unfolding insert_sorted
listed-insert_sorted name n [] = refl
listed-insert_sorted name n (x ∷ ns) = ground (arith, listed-insert_sorted name n ns)

listed-sort :
    (name : String) (ns : List String) → listed name (sort comes_first ns) ≡ listed name ns
unfolding sort
listed-sort name [] = refl
listed-sort name (n ∷ ns) =
    ground (arith, listed-insert_sorted name n (sort comes_first ns), listed-sort name ns)

names-more :
    (name : String) (entries : List Entry) (ns : List String)
    → Covered ns entries
    → Covered (name ∷ ns) entries
names-more name entries ns covered =
    All-mono _ _ entries (λ e h snap. ground (arith, h snap)) covered

select_kept :
    (e : Entry) (entries : List Entry)
    → is_snapshot e ≡ true
    → select is_snapshot (e ∷ entries) ≡ e ∷ select is_snapshot entries
unfolding select
select_kept e entries snapped = rw snapped refl

select_dropped :
    (e : Entry) (entries : List Entry)
    → is_snapshot e ≡ false
    → select is_snapshot (e ∷ entries) ≡ select is_snapshot entries
unfolding select
select_dropped e entries other = rw other refl

names-Covered :
    (entries : List Entry) → Covered (map (λ e. e.name) (select is_snapshot entries)) entries
names-Covered [] = tt
names-Covered (e ∷ entries) = elim (Bool-cases (is_snapshot e)) [
  | inl snapped ↦
      subst (λ xs. Covered (map (λ x. x.name) xs) (e ∷ entries))
        (sym (select_kept e entries snapped))
        ((λ s. ground (arith, eq_refl e.name)), names-more e.name entries _ (names-Covered entries))
  | inr other ↦
      subst (λ xs. Covered (map (λ x. x.name) xs) (e ∷ entries))
        (sym (select_dropped e entries other)) ((λ s. absurd (ground arith)), names-Covered entries)
]

-- In a directory with no two entries of one name, pruning leaves no more snapshots than are to be
-- retained.
pub prune-bounded :
    (retention : ℕ) (entries : List Entry)
    → IsDirectory entries
    → count is_snapshot (prune retention entries) ≤ retention
unfolding prune snapshot_names
prune-bounded retention entries unique =
    prune_names-bounded retention
      (sort comes_first (map (λ e. e.name) (select is_snapshot entries))) entries
      (All-mono _ _ entries
        (λ e h snap. listed-sort e.name (map (λ x. x.name) (select is_snapshot entries)) ∙ h snap)
        (names-Covered entries))
      unique
