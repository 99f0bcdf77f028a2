-- ===== src/Snapshots/Restored.antt =====
-- internal/provisioner/state/local.go: the newest snapshot outlives pruning and can be restored.
use quickworks.Base.{
  ℕ, ◌<◌, ◌≡◌, ◌≢◌, ◌∙◌, refl, String, Bool, true, false, not, ◌&&◌, some, List, [], ◌∷◌, ◌++◌,
  ◌==◌, arith, eq_iff, eq_refl, map, ltb, length, All, Bool-cases, inl, inr,
}
use quickworks.Base.Maps.{find, put, find-put_self}
use quickworks.Table.{count, select, first, delete, insert, insert_sorted, sort}
use quickworks.Table.Keys.{first-insert, delete_none, count-zero_mono}
use quickworks.Table.Rows.{All-mono, All-sort, All-count_none}
use quickworks.Snapshots.{
  Entry, Local, valid_workspace_id, is_snapshot_name, is_snapshot, comes_first, prune_names,
  snapshot_names, prune, directory_of, write_entry, saved, backup, restore,
}

abbrev AllBefore : String → List String → Type 0
AllBefore m = All (λ n. (comes_first n m ≡ true) × (n ≢ m))

insert_sorted-last :
    (n m : String) (ns : List String)
    → comes_first n m ≡ true
    → insert_sorted comes_first n (ns ++ m ∷ []) ≡ insert_sorted comes_first n ns ++ m ∷ []
unfolding insert_sorted
insert_sorted-last n m [] before = rw before refl
insert_sorted-last n m (x ∷ ns) before = elim (Bool-cases (comes_first n x)) [
  | inl first_one ↦ rw first_one refl
  | inr later ↦ rw later (rw (insert_sorted-last n m ns before) refl)
]

sort-last :
    (m : String) (ns : List String)
    → AllBefore m ns
    → sort comes_first (ns ++ m ∷ []) ≡ sort comes_first ns ++ m ∷ []
unfolding sort insert_sorted
sort-last m [] before = refl
sort-last m (n ∷ ns) ((le, ne), before) =
    rw (sort-last m ns before) (insert_sorted-last n m (sort comes_first ns) le)

first-delete :
    (p : Entry → Bool) (n : String) (entries : List Entry)
    → ((e : Entry) → p e ≡ true → (e.name == n) ≡ false)
    → first p (delete (λ e. e.name == n) entries) ≡ first p entries
unfolding first delete select
first-delete p n [] apart = refl
first-delete p n (e ∷ entries) apart = ground (arith, apart e, first-delete p n entries apart)

prune_names-last :
    (retention : ℕ) (m : String) (ns : List String) (entries : List Entry) (p : Entry → Bool)
    → 0 < retention
    → ((e : Entry) → p e ≡ true → (e.name == m) ≡ true)
    → All (λ n. n ≢ m) ns
    → first p (prune_names retention (ns ++ m ∷ []) entries) ≡ first p entries
unfolding prune_names
prune_names-last retention m [] entries p kept named apart = ground arith
prune_names-last retention m (n ∷ ns) entries p kept named (other, apart) =
    elim (Bool-cases (ltb retention (length (n ∷ (ns ++ m ∷ []))))) [
      | inl more ↦ rw more (
          prune_names-last retention m ns (delete (λ e. e.name == n) entries) p kept named apart
          ∙ first-delete p n entries
              (λ e h. ground (arith, named e h, eq_iff e.name m, eq_iff e.name n, other)))
      | inr enough ↦ rw enough refl
    ]

abbrev pub IsNewest : String → List Entry → Type 0
IsNewest name = All (λ e. (comes_first e.name name ≡ true) × (e.name ≢ name))

names-insert :
    (x : Entry) (entries : List Entry)
    → is_snapshot x ≡ true
    → map (λ e. e.name) (select is_snapshot (insert x entries))
      ≡ map (λ e. e.name) (select is_snapshot entries) ++ x.name ∷ []
unfolding select insert
names-insert x [] snap = rw snap refl
names-insert x (e ∷ entries) snap = elim (Bool-cases (is_snapshot e)) [
  | inl snapped ↦ rw snapped (rw (names-insert x entries snap) refl)
  | inr other ↦ rw other (names-insert x entries snap)
]

names-AllBefore :
    (name : String) (entries : List Entry)
    → IsNewest name entries
    → AllBefore name (map (λ e. e.name) (select is_snapshot entries))
unfolding select
names-AllBefore name [] newest = tt
names-AllBefore name (e ∷ entries) (before, newest) = elim (Bool-cases (is_snapshot e)) [
  | inl snapped ↦ rw snapped (before, names-AllBefore name entries newest)
  | inr other ↦ rw other (names-AllBefore name entries newest)
]

not_named :
    (name : String) (entries : List Entry)
    → IsNewest name entries
    → count (λ e. e.name == name) entries ≡ 0
not_named name entries newest =
    All-count_none _ entries
      (All-mono _ _ entries (λ e before. ground (arith, before.1, eq_iff e.name name)) newest)

module _ (name content : String) (entries : List Entry) (newest : IsNewest name entries) where
  abbrev fresh : Entry
  fresh = record { name = name; is_directory = false; content = content }

  abbrev wanted : Entry → Bool
  wanted e = not e.is_directory && (e.name == name)

  written : write_entry name content entries ≡ insert fresh entries
  unfolding write_entry
  written = rw (delete_none (λ e. e.name == name) entries (not_named name entries newest)) refl

  pruned-first :
      (retention : ℕ)
      → 0 < retention
      → is_snapshot_name name ≡ true
      → first wanted (prune retention (write_entry name content entries)) ≡ some fresh
  pruned-first retention kept snap = rw written (
      unfold prune in
      (rw in_order (
        prune_names-last retention name (sort comes_first (names entries)) (insert fresh entries)
          wanted kept (λ e h. ground arith) (apart)
        ∙ first-insert wanted fresh entries
            (count-zero_mono wanted (λ e. e.name == name) entries (λ e. ground arith)
              (not_named name entries newest))
            (ground (arith, eq_refl name)))))
    where
      names : List Entry → List String
      names es = map (λ e. e.name) (select is_snapshot es)

      in_order :
          snapshot_names (insert fresh entries) ≡ sort comes_first (names entries) ++ name ∷ []
      in_order =
          unfold snapshot_names in
          (rw (names-insert fresh entries snap)
            (sort-last name (names entries) (names-AllBefore name entries newest)))

      apart : All (λ n. n ≢ name) (sort comes_first (names entries))
      apart =
          All-sort _ comes_first (names entries)
            (All-mono _ _ (names entries) (λ n both. both.1) (names-AllBefore name entries newest))

restore-found :
    (workspace_id name : String) (s : Local) (e : Entry)
    → valid_workspace_id workspace_id ≡ true
    → valid_workspace_id name ≡ true
    → is_snapshot_name name ≡ true
    → first
        (λ x. not x.is_directory && (x.name == name))
        (directory_of (find workspace_id s.backups))
      ≡ some e
    → (restore workspace_id name s).1.states ≡ put workspace_id e.content s.states
unfolding restore
restore-found workspace_id name s e valid_id valid snap found =
    rw (valid_id, restore) (rw valid (rw snap (rw found refl)))

-- If some snapshots are retained and the name of a backup is a valid file name that ends as a
-- snapshot does and comes after the name of every entry in the workspace's directory of backups,
-- then restoring it after the backup brings back the state that was saved, whatever became of the
-- states in between.
pub backup-restore :
    (name workspace_id content : String) (s s' : Local) (states : List (String × String))
    → backup name workspace_id s ≡ (saved name, s')
    → find workspace_id s.states ≡ some content
    → 0 < s.retention
    → valid_workspace_id name ≡ true
    → is_snapshot_name name ≡ true
    → IsNewest name (directory_of (find workspace_id s.backups))
    → find workspace_id (restore workspace_id name (record s' { states = states })).1.states
      ≡ some content
backup-restore name workspace_id content s s' states h stored kept valid snap newest =
    rw
      (restore-found workspace_id name (record s' { states = states })
        (fresh name content entries newest) valid_id valid snap found)
      (find-put_self workspace_id content states)
  where
    entries : List Entry
    entries = directory_of (find workspace_id s.backups)

    valid_id : valid_workspace_id workspace_id ≡ true
    valid_id = unfold backup in (ground arith)

    backups_after :
        s'.backups
        ≡ put workspace_id (prune s.retention (write_entry name content entries)) s.backups
    backups_after = unfold backup in (ground (arith, stored))

    found :
        first
          (λ e. not e.is_directory && (e.name == name))
          (directory_of (find workspace_id s'.backups))
        ≡ some (fresh name content entries newest)
    found = rw backups_after (
        rw
          (find-put_self workspace_id (prune s.retention (write_entry name content entries))
            s.backups)
          (pruned-first name content entries newest s.retention kept snap))
