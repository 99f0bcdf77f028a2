-- ===== src/Scheduler/Claim.antt =====
-- internal/server/router.go: registration, expireLeases and claimMatchingBuild.
use Prim.Native.String.{compare}
use Prim.Native.Nat.{Ordering}
use quickworks.Base.{
  ℕ, String, Bool, true, false, ◌&&◌, ◌||◌, Option, none, some, List, [], ◌∷◌, ◌==◌, if◌then◌else◌,
  ltb, leb, nat_eq,
}
use quickworks.Table.{count, select, first, update, insert, sort}
use quickworks.Database.{Build, Provisioner, Database, Observed, Status, is_running, is_queued}
use quickworks.Scheduler.{is_past, runs_for, release_slot, take_slot, observe}
use quickworks.Scheduler.Labels.{labels_contain}

-- A worker's claim: what it says of itself, the lease ID drawn for it and the times.
pub record Claim : Type 0 where
  pub worker_id : String
  pub labels : List String
  pub capacity : ℕ
  pub lease_hash : String
  pub now : ℕ
  pub until : ℕ

unfoldable pub new_provisioner : Claim → Provisioner
new_provisioner c = record {
  worker_id = c.worker_id;
  labels = c.labels;
  capacity = c.capacity;
  active_builds = 0;
  last_seen_at = c.now;
  updated_at = c.now;
}

-- INSERT INTO provisioners ... ON CONFLICT(worker_id) DO UPDATE
unfoldable pub register : Claim → Database → Database
register c db = record db {
  provisioners =
      if ltb 0 (count (λ p. p.worker_id == c.worker_id) db.provisioners)
      then update (λ p. p.worker_id == c.worker_id)
          (λ p. record p {
            labels = c.labels;
            capacity = c.capacity;
            last_seen_at = c.now;
            updated_at = c.now;
          })
          db.provisioners
      else insert (new_provisioner c) db.provisioners;
}

abbrev pub expiry_message : String
expiry_message = "provisioner lease expired; infrastructure reconciliation is required before retry"

unfoldable pub fail_expired : ℕ → Build → Build
fail_expired now b = record b {
  status = Status.failed;
  error = some expiry_message;
  completed_at = some now;
}

-- id = ? AND status = 'running'
abbrev pub still_running : Build → Build → Bool
still_running e b = (b.id == e.id) && is_running b.status

unfoldable pub release_claim : Option String → ℕ → List Provisioner → List Provisioner
release_claim none now ps = ps
release_claim (some worker) now ps = release_slot worker now ps

-- One round of expireLeases.
unfoldable pub expire_one : ℕ → Build → Database → Database
expire_one now e db =
    let builds' = update (still_running e) (fail_expired now) db.builds in
    if nat_eq (count (still_running e) db.builds) 1
    then record db {
      builds = builds';
      workspaces = observe e.workspace_id Observed.failed now db.workspaces;
      provisioners = release_claim e.claimed_by now db.provisioners;
    }
    else record db { builds = builds' }

unfoldable pub expire_each : ℕ → List Build → Database → Database
expire_each now [] db = db
expire_each now (e ∷ es) db = expire_each now es (expire_one now e db)

-- status = 'running' AND lease_expires_at <= ?
abbrev pub is_expired : ℕ → Build → Bool
is_expired now b = is_running b.status && is_past now b.lease_expires_at

unfoldable pub expire_leases : ℕ → Database → Database
expire_leases now db = expire_each now (select (is_expired now) db.builds) db

-- ORDER BY created_at, id
abbrev queued_before : Build → Build → Bool
queued_before a b =
    ltb a.created_at b.created_at
    || (nat_eq a.created_at b.created_at
        && elim (compare a.id b.id) [ Ordering.gt ↦ false | _ ↦ true ])

unfoldable pub candidates : Database → List Build
candidates db = sort queued_before (select (λ b. is_queued b.status) db.builds)

unfoldable pub lease_build : Claim → Build → Build
lease_build c b = record b {
  status = Status.running;
  claimed_by = some c.worker_id;
  lease_id_hash = some c.lease_hash;
  lease_expires_at = some c.until;
  started_at = some c.now;
}

-- id = ? AND status = 'queued'
abbrev pub still_queued : Build → Build → Bool
still_queued e b = (b.id == e.id) && is_queued b.status

unfoldable pub grant : Claim → Build → Database → Database
grant c e db = record db {
  builds = update (still_queued e) (lease_build c) db.builds;
  provisioners = take_slot c.worker_id c.now db.provisioners;
}

-- The loop over the candidates: the first whose template's labels the worker has is leased.
-- The source takes a row with an empty ID for none; the IDs of builds are random and not empty.
unfoldable pub claim_first :
    (String → List String) → Claim → List Build → Database → Option Build × Database
claim_first required c [] db = (none, db)
claim_first required c (e ∷ es) db =
    let rest = claim_first required c es db in
    if labels_contain c.labels (required e.template_name)
    then elim (first (still_queued e) db.builds) [
      | none ↦ rest
      | some b ↦ (some (lease_build c b), grant c e db)
    ]
    else rest

unfoldable pub claim_matching_build :
    (String → List String) → Claim → Database → Option Build × Database
claim_matching_build required c db =
    if leb c.capacity (count (runs_for c.worker_id) db.builds)
    then (none, db)
    else claim_first required c (candidates db) db
