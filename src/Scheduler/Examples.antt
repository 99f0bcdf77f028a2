-- ===== src/Scheduler/Examples.antt =====
-- One worker and two builds: what the scheduler's theorems say there.
use quickworks.Base.{◌≤◌, ◌≡◌, ◌≢◌, refl, String, none, some, List, [], ◌∷◌, arith, eq_iff}
use quickworks.Results.{err, lease_expired}
use quickworks.Table.{count, first, select, sort}
use quickworks.Database.{Build, Provisioner, Database, Status, Transition}
use quickworks.Scheduler.Labels.{labels_contain}
use quickworks.Scheduler.Claim.{Claim, claim_matching_build, claim_first, candidates, lease_build}
use quickworks.Scheduler.Leases.{Lease, complete_build, completed}
use quickworks.Scheduler.Slots.{IsTracked, load}
use quickworks.Scheduler.Claiming.{claim_matching_build-capacity}
use quickworks.Scheduler.Lifecycle.{complete_twice}

abbrev pub running_build : Build
running_build = record {
  id = "b1";
  workspace_id = "calm-kind-orbit";
  sequence = 1;
  transition = Transition.start;
  template_name = "vm";
  status = Status.running;
  claimed_by = some "worker";
  lease_id_hash = some "l1";
  lease_expires_at = some 220;
  started_at = some 100;
  completed_at = none;
  error = none;
  created_at = 90;
}

abbrev pub queued_build : Build
queued_build = record {
  id = "b2";
  workspace_id = "lunar-kind-river";
  sequence = 1;
  transition = Transition.stop;
  template_name = "vm";
  status = Status.queued;
  claimed_by = none;
  lease_id_hash = none;
  lease_expires_at = none;
  started_at = none;
  completed_at = none;
  error = none;
  created_at = 95;
}

abbrev pub worker_row : Provisioner
worker_row = record {
  worker_id = "worker";
  labels = [];
  capacity = 2;
  active_builds = 1;
  last_seen_at = 100;
  updated_at = 100;
}

abbrev pub busy : Database
busy = record {
  workspaces = [];
  builds = running_build ∷ queued_build ∷ [];
  idempotency_keys = [];
  provisioners = worker_row ∷ [];
  build_logs = [];
  scheduler_events = [];
  agents = [];
  agent_enrollments = [];
}

pub busy-IsTracked : IsTracked busy
unfolding count
busy-IsTracked = record {
  unique = λ id. ground (arith, eq_iff "b1" id, eq_iff "b2" id, distinct);
  counted = (refl, tt);
  registered = λ worker gone. ground (arith, eq_iff "worker" worker);
}
  where
    distinct : ◌≢◌ {A = String} "b1" "b2"
    distinct = ground (arith, eq_iff "b1" "b2")

abbrev pub second_claim : Claim
second_claim = record {
  worker_id = "worker";
  labels = [];
  capacity = 2;
  lease_hash = "l2";
  now = 150;
  until = 270;
}

abbrev no_labels : String → List String
no_labels name = []

abbrev first_lease : Lease
first_lease = record { build_id = "b1"; worker_id = "worker"; lease_hash = "l1"; now = 160 }

claim_matching_build-capacity_example :
    load (claim_matching_build no_labels second_claim busy).1.builds "worker" ≤ 2
unfolding claim_matching_build claim_first candidates sort select labels_contain first count
claim_matching_build-capacity_example =
    claim_matching_build-capacity no_labels second_claim busy
      (lease_build second_claim queued_build) busy-IsTracked refl

complete_twice_example :
    complete_build
      (record first_lease { now = 161 })
      ""
      (completed first_lease "" running_build busy)
    ≡ err lease_expired
unfolding complete_build first
complete_twice_example =
    complete_twice first_lease (record first_lease { now = 161 }) "" "" busy
      (completed first_lease "" running_build busy) refl refl
