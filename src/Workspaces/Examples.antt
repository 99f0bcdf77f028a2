-- ===== src/Workspaces/Examples.antt =====
-- One template, one owner and a workspace: what the service's theorems say there.
use quickworks.Base.{ℕ, ◌+◌, ◌*◌, ◌<◌, ◌≡◌, ◌≢◌, refl, String, none, [], ◌∷◌, arith, eq_iff, pos}
use quickworks.Results.{ok, err, key_reused}
use quickworks.Table.{count, first, select, update, insert}
use quickworks.Table
use quickworks.Database.{
  Workspace, Build, Database, SourceType, Desired, Observed, Status, Transition, insert_workspace,
  insert_build, build_conflicts,
}
use quickworks.Workspaces.{Service, limit, check_create_quota, check_start_quota}
use quickworks.Workspaces.Names.{pet_name}
use quickworks.Workspaces.Create.{
  Draw, Request, create_repository_idempotent, retry, create_idempotent_once, delete_expired_key,
  create_keyed, create_once, create_in_tx, source_is_valid, insert_key, new_workspace, first_build,
}
use quickworks.Workspaces.Transitions.{
  transition_to, begin_transition, next_build, max_sequence, mark,
}
use quickworks.Workspaces.Soundness.{IsSound}
use quickworks.Workspaces.Decided.{Decision, transition_to-decides}
use quickworks.Workspaces.Quotas.{WithinQuota, transition_to-WithinQuota}
use quickworks.Workspaces.Outcomes.{IsGood, create_repository_idempotent-IsGood}
use quickworks.Workspaces.Repeats.{create_twice, create_conflict}

abbrev pub vm_only : Service
vm_only = record {
  limits = ("vm", record { max_workspaces = pos 2; max_running_workspaces = pos 1 }) ∷ [];
}

abbrev pub idle_workspace : Workspace
idle_workspace = record {
  id = "calm-kind-orbit";
  owner_id = 7;
  display_name = none;
  source_type = SourceType.empty;
  repository_id = none;
  repository_full_name = none;
  template_name = "vm";
  desired_state = Desired.stopped;
  observed_state = Observed.stopped;
  state_key = "workspaces/calm-kind-orbit/terraform.tfstate";
  created_at = 10;
  updated_at = 10;
  last_access_at = 10;
  deleted_at = none;
}

abbrev past_build : Build
past_build = record {
  id = "b1";
  workspace_id = "calm-kind-orbit";
  sequence = 1;
  transition = Transition.stop;
  template_name = "vm";
  status = Status.succeeded;
  claimed_by = none;
  lease_id_hash = none;
  lease_expires_at = none;
  started_at = none;
  completed_at = none;
  error = none;
  created_at = 10;
}

abbrev pub small : Database
small = record {
  workspaces = idle_workspace ∷ [];
  builds = past_build ∷ [];
  idempotency_keys = [];
  provisioners = [];
  build_logs = [];
  scheduler_events = [];
  agents = [];
  agent_enrollments = [];
}

pub small-IsSound : IsSound small
unfolding count
small-IsSound = record {
  one_active = λ id. ground (arith, eq_iff "calm-kind-orbit" id);
  unique_builds = λ id. ground (arith, eq_iff "b1" id);
  unique_workspaces = λ id. ground (arith, eq_iff "calm-kind-orbit" id);
  references = λ id h. ground (arith, eq_iff "calm-kind-orbit" id);
}

pub small-WithinQuota : WithinQuota vm_only 7 "vm" small.workspaces
unfolding count
small-WithinQuota = record { total = λ p. ground arith; running = λ p. ground arith }

abbrev pub draw : ℕ → Draw
draw i = record { first_byte = 1; second_byte = 2; third_byte = 3; build_id = "b2"; now = 100 }

abbrev pub later : ℕ → Draw
later i = record { first_byte = 4; second_byte = 5; third_byte = 6; build_id = "b3"; now = 160 }

abbrev new_vm : Request
new_vm = record { owner_id = 7; name = "demo"; template_name = "vm"; repository = none }

abbrev start_build : Build
start_build = next_build Transition.start "b2" 100 idle_workspace small

abbrev pub started : Database
started = record small {
  workspaces = mark Transition.start 100 idle_workspace ∷ [];
  builds = past_build ∷ start_build ∷ [];
}

starts :
    transition_to vm_only Transition.start "b2" 100 7 "calm-kind-orbit" small
    ≡ ok (start_build, started)
unfolding transition_to first begin_transition check_start_quota count limit insert_build
    build_conflicts update insert next_build max_sequence
starts = refl

abbrev new_row : Workspace
new_row = new_workspace (draw 0) new_vm

abbrev new_build : Build
new_build = first_build (draw 0) new_vm

abbrev made : Database
made = record small {
  workspaces = idle_workspace ∷ new_row ∷ [];
  builds = past_build ∷ new_build ∷ [];
  idempotency_keys =
      record {
        owner_id = 7;
        key = "k";
        request_hash = "h";
        response_workspace_id = new_row.id;
        expires_at = 700;
      }
      ∷ [];
}

creates :
    create_repository_idempotent vm_only draw "k" "h" new_vm small ≡ ok ((new_row, new_build), made)
unfolding create_repository_idempotent retry create_idempotent_once delete_expired_key Table.delete
    select first create_keyed create_once check_create_quota limit count create_in_tx
    source_is_valid insert_workspace insert_build build_conflicts insert_key insert new_workspace
    first_build pet_name
creates = refl

create_repository_idempotent-IsGood_example : IsGood vm_only 7 "vm" made
create_repository_idempotent-IsGood_example =
    create_repository_idempotent-IsGood vm_only 7 "vm" draw "k" "h" new_vm small
      ((new_row, new_build), made) creates (small-IsSound, small-WithinQuota)

transition_to-WithinQuota_example : WithinQuota vm_only 7 "vm" started.workspaces
transition_to-WithinQuota_example =
    transition_to-WithinQuota vm_only Transition.start "b2" 100 7 "calm-kind-orbit" small
      start_build started 7 "vm" starts small-IsSound small-WithinQuota

transition_to-decides_example : Decision vm_only Transition.start "b2" 100 7 "calm-kind-orbit" small
unfolding count
transition_to-decides_example =
    transition_to-decides vm_only Transition.start "b2" 100 7 "calm-kind-orbit" small small-IsSound
      refl

key_is_named : ◌≢◌ {A = String} "k" ""
key_is_named = ground (arith, eq_iff "k" "")

hash_differs : ◌≢◌ {A = String} "h" "i"
hash_differs = ground (arith, eq_iff "h" "i")

pub in_time : (i : ℕ) → (later 0).now < (draw i).now + 10 * 60
in_time i = ground arith

create_twice_example :
    create_repository_idempotent vm_only later "k" "h" new_vm made ≡ ok ((new_row, new_build), made)
unfolding count
create_twice_example =
    create_twice vm_only draw later "k" "h" new_vm new_vm small new_row new_build made small-IsSound
      key_is_named refl creates refl in_time

create_conflict_example :
    create_repository_idempotent vm_only later "k" "i" new_vm made ≡ err key_reused
unfolding count
create_conflict_example =
    create_conflict vm_only draw later "k" "h" "i" new_vm new_vm small new_row new_build made
      small-IsSound key_is_named refl creates refl in_time hash_differs

abbrev ids : ℕ → String
ids i = "b9"
