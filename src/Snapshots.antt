-- ===== src/Snapshots.antt =====
-- internal/provisioner/state/local.go: Terraform states on disk and their snapshots.
-- A directory is the list of its entries. The disk does not fail, so a temporary file that is renamed is
-- one write. Each ID names a directory of its own, which is not so for `.` and
-- `..`; a negative retention does not pass the configuration.
pub mod Restored
pub mod Pruned
pub mod Examples
use Prim.Native.String.{compare}
use Prim.Native.Nat.{Ordering}
use quickworks.Base.{
  ℕ, String, Bool, true, false, not, ◌&&◌, ◌||◌, Option, none, some, List, [], ◌∷◌, ◌==◌,
  if◌then◌else◌, ltb, nat_eq, length, map,
}
use quickworks.Base.Maps.{find, put}
use quickworks.Table.{select, first, delete, insert, sort}
use quickworks.Text.{bytes, same, contains}

pub record Entry : Type 0 where
  pub name : String
  pub is_directory : Bool
  pub content : String

-- The state file of each workspace, and its directory of snapshots.
pub record Local : Type 0 where
  pub retention : ℕ
  pub states : List (String × String)
  pub backups : List (String × List Entry)

-- NewLocal: a retention that is left out is 14.
unfoldable pub new_local : ℕ → List (String × String) → List (String × List Entry) → Local
new_local retention states backups = record {
  retention = if nat_eq retention 0 then 14 else retention;
  states = states;
  backups = backups;
}

-- validWorkspaceID; filepath.Base gives back any text that is not empty and has no slash.
unfoldable pub valid_workspace_id : String → Bool
valid_workspace_id value = not (value == "") && not (contains b'/' (bytes value))

-- strings.HasSuffix(s, suffix)
unfoldable pub has_suffix : List ℕ → List ℕ → Bool
has_suffix suffix [] = same suffix []
has_suffix suffix (c ∷ s) = same suffix (c ∷ s) || has_suffix suffix s

abbrev pub is_snapshot_name : String → Bool
is_snapshot_name name = has_suffix (bytes ".tfstate") (bytes name)

abbrev pub is_snapshot : Entry → Bool
is_snapshot e = not e.is_directory && is_snapshot_name e.name

-- sort.Strings
abbrev pub comes_first : String → String → Bool
comes_first a b = elim (compare a b) [ Ordering.gt ↦ false | _ ↦ true ]

-- The loop of prune over the sorted names.
unfoldable pub prune_names : ℕ → List String → List Entry → List Entry
prune_names retention [] entries = entries
prune_names retention (n ∷ ns) entries =
    let pruned = prune_names retention ns (delete (λ e. e.name == n) entries) in
    if ltb retention (length (n ∷ ns)) then pruned else entries

unfoldable pub snapshot_names : List Entry → List String
snapshot_names entries = sort comes_first (map (λ e. e.name) (select is_snapshot entries))

unfoldable pub prune : ℕ → List Entry → List Entry
prune retention entries = prune_names retention (snapshot_names entries) entries

-- The directory of a workspace, which MkdirAll makes where there is none.
abbrev pub directory_of : Option (List Entry) → List Entry
directory_of none = []
directory_of (some entries) = entries

-- A rename to a name replaces the file of that name.
unfoldable pub write_entry : String → String → List Entry → List Entry
write_entry name content entries =
    insert (record { name = name; is_directory = false; content = content })
      (delete (λ e. e.name == name) entries)

pub data Outcome : Type 0 where
  invalid_id nothing_saved invalid_name no_snapshot restored : Outcome
  saved : String → Outcome

-- Backup; `name` is the time of the backup and the suffix .tfstate.
unfoldable pub backup : String → String → Local → Outcome × Local
backup name workspace_id s =
    if not (valid_workspace_id workspace_id)
    then (invalid_id, s)
    else elim (find workspace_id s.states) [
      | none ↦ (nothing_saved, s)
      | some content ↦ (
        saved name,
        record s {
          backups =
              put workspace_id
                (prune s.retention
                  (write_entry name content (directory_of (find workspace_id s.backups))))
                s.backups;
        },
      )
    ]

-- Restore; a name is its own filepath.Base if it is not empty and has no slash.
unfoldable pub restore : String → String → Local → Outcome × Local
restore workspace_id snapshot s =
    if not (valid_workspace_id workspace_id)
    then (invalid_id, s)
    else (if not (valid_workspace_id snapshot && is_snapshot_name snapshot)
        then (invalid_name, s)
        else elim (first (λ e. not e.is_directory && (e.name == snapshot))
            (directory_of (find workspace_id s.backups))) [
              | none ↦ (no_snapshot, s)
              | some e ↦ (restored, record s { states = put workspace_id e.content s.states })
            ])
