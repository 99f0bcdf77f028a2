-- ===== src/Environment/Examples.antt =====
-- internal/agent/dotenv.go and supervisor.go: concrete files, environments and attempts.
use quickworks.Base.{ℕ, ◌≡◌, refl, true, false, none, some, List, [], ◌∷◌, ◌++◌}
use quickworks.Text.{bytes, same, contains}
use quickworks.Environment.{Variables, lookup}
use quickworks.Environment.Merge.{get, merge_environment}
use quickworks.Environment.Merged.{IsUnique, merge_environment-get}
use quickworks.Environment.Workbench.{WorkbenchConfig, Machine, Command, command_of}
use quickworks.Environment.Restart.{
  Attempt, child_exited, tick, started, exited, killed, run_child, run_with_restart,
  wait_for_health, run_with_restart-stuck,
}

abbrev values : Variables
values = (bytes "KEY", bytes "a b") ∷ (bytes "EMPTY", []) ∷ []

abbrev file : List ℕ
file = bytes "# keys\nKEY=1\n"

abbrev inherited : List (List ℕ)
inherited = bytes "KEY=0" ∷ bytes "PATH=/bin" ∷ []

merge_environment-get_example :
    IsUnique (merge_environment inherited values (bytes "PATH=/usr" ∷ []))
    × ((k : List ℕ)
        → get k (merge_environment inherited values (bytes "PATH=/usr" ∷ []))
          ≡ elim (lookup k values) [
            | none ↦ get k (inherited ++ bytes "PATH=/usr" ∷ [])
            | some v ↦ some v
          ])
unfolding contains lookup same
merge_environment-get_example =
    merge_environment-get inherited (bytes "PATH=/usr" ∷ []) values (refl, refl, (refl, refl, tt))

abbrev machine : Machine
machine = record {
  read_file = λ path. some file;
  lookup_user = λ name. some (record { uid = bytes "1000"; home_dir = bytes "/home/u" });
  lookup_group = λ name. some (bytes "1000");
  environ = inherited;
  owners_set = true;
  settings_written = true;
}

abbrev config : WorkbenchConfig
config = record {
  entrypoint = bytes "/w/bin";
  env_file = bytes "/w/env";
  byok_config_file = bytes "/w/byok";
  workspace_dir = bytes "/work";
  user = bytes "u";
  group = bytes "g";
  base_path = [];
}

abbrev made : Command
made =
    command_of machine config ((bytes "KEY", bytes "1") ∷ [])
      (record { uid = bytes "1000"; home_dir = bytes "/home/u" }) 1000 1000
      (bytes "/home/u/.quickworks")

-- A probe that fails once and a child that then ends, and one that never starts.
abbrev ends_early : Attempt
ends_early = record {
  starts = true;
  rounds =
      record { status = none; wake = tick }
      ∷ record { status = some 503; wake = child_exited }
      ∷ [];
  ready = true;
  is_done = false;
  is_done_later = false;
}

abbrev never_starts : Attempt
never_starts = record ends_early { starts = false }

run_with_restart-stuck_example :
    run_with_restart (never_starts ∷ ends_early ∷ never_starts ∷ [])
    ≡ run_with_restart (never_starts ∷ []) ++ started ∷ exited ∷ killed ∷ []
unfolding wait_for_health run_child
run_with_restart-stuck_example =
    run_with_restart-stuck (never_starts ∷ []) ends_early (never_starts ∷ []) refl refl refl
