-- ===== src/Snapshots/Examples.antt =====
-- A state that is backed up into a full directory, and its return.
use quickworks.Base.{◌≡◌, ◌≢◌, refl, String, false, some, [], ◌∷◌, arith, eq_iff}
use quickworks.Table.{delete, select, insert, insert_sorted, sort}
use quickworks.Text.{same, contains}
use quickworks.Base.Maps.{find, put}
use quickworks.Snapshots.{
  Entry, Local, valid_workspace_id, has_suffix, prune_names, snapshot_names, prune, write_entry,
  saved, backup, restore,
}
use quickworks.Snapshots.Restored.{IsNewest, backup-restore}

abbrev old_snapshot : Entry
old_snapshot = record { name = "20250101.tfstate"; is_directory = false; content = "old" }

abbrev new_snapshot : Entry
new_snapshot = record { name = "20250102.tfstate"; is_directory = false; content = "state" }

abbrev disk : Local
disk = record {
  retention = 1;
  states = ("w1", "state") ∷ [];
  backups = ("w1", old_snapshot ∷ []) ∷ [];
}

abbrev after : Local
after = record disk { backups = ("w1", new_snapshot ∷ []) ∷ [] }

backs_up : backup "20250102.tfstate" "w1" disk ≡ (saved "20250102.tfstate", after)
unfolding backup valid_workspace_id contains find prune snapshot_names prune_names write_entry
    select sort insert_sorted has_suffix same insert delete put
backs_up = refl

is_newest : IsNewest "20250102.tfstate" (old_snapshot ∷ [])
is_newest = ((refl, differs), tt)
  where
    differs : ◌≢◌ {A = String} "20250101.tfstate" "20250102.tfstate"
    differs = ground (arith, eq_iff "20250101.tfstate" "20250102.tfstate")

backup-restore_example :
    find "w1" (restore "w1" "20250102.tfstate" (record after { states = [] })).1.states
    ≡ some "state"
unfolding find valid_workspace_id contains has_suffix same
backup-restore_example =
    backup-restore "20250102.tfstate" "w1" "state" disk after [] backs_up refl (ground arith) refl
      refl is_newest
