-- ===== src/Scheduler/Leases.antt =====
-- internal/server/router.go: the lease actions renew, complete and logs.
use quickworks.Base.{
  ℕ, ◌+◌, ◌*◌, String, Bool, true, false, ◌&&◌, Option, none, some, List, [], ◌∷◌, ◌==◌,
  if◌then◌else◌, ltb, nat_eq,
}
use quickworks.Results.{Result, ok, err, lease_expired}
use quickworks.Table.{count, first, update, insert}
use quickworks.Database.{
  Build, BuildLog, Workspace, Database, Observed, Status, Transition, start, stop, delete,
  is_running, is_live,
}
use quickworks.Scheduler.{holds_lease, release_slot}

-- Who asks, about which build; the lease ID by its hash.
pub record Lease : Type 0 where
  pub build_id : String
  pub worker_id : String
  pub lease_hash : String
  pub now : ℕ

abbrev pub held : Lease → Build → Bool
held l = holds_lease l.build_id l.worker_id l.lease_hash l.now

-- UPDATE and the test of RowsAffected
unfoldable pub renew : Lease → Database → Result Database
renew l db =
    if nat_eq (count (held l) db.builds) 1
    then ok (record db {
      builds =
          update (held l) (λ b. record b { lease_expires_at = some (l.now + 2 * 60) }) db.builds;
    })
    else err lease_expired

abbrev pub nil_if_empty : String → Option String
nil_if_empty s = if s == "" then none else some s

abbrev pub settled : Transition → Observed
settled start = Observed.running
settled stop = Observed.stopped
settled delete = Observed.deleted

-- observed_state, by the build's outcome
abbrev pub outcome : Bool → Transition → Observed
outcome true t = settled t
outcome false t = Observed.failed

abbrev is_delete : Transition → Bool
is_delete delete = true
is_delete _ = false

unfoldable pub settle : Bool → Transition → ℕ → Workspace → Workspace
settle succeeded t now w = record w {
  observed_state = outcome succeeded t;
  updated_at = now;
  deleted_at = if succeeded && is_delete t then some now else w.deleted_at;
}

unfoldable pub finish : Bool → String → ℕ → Build → Build
finish succeeded error now b = record b {
  status = if succeeded then Status.succeeded else Status.failed;
  error = nil_if_empty error;
  completed_at = some now;
}

-- What completeBuild writes for the build that it found.
unfoldable pub completed : Lease → String → Build → Database → Database
completed l error b db =
    let succeeded = error == "" in
    record db {
      builds = update (λ x. x.id == l.build_id) (finish succeeded error l.now) db.builds;
      workspaces =
          update (λ w. (w.id == b.workspace_id) && is_live w) (settle succeeded b.transition l.now)
            db.workspaces;
      provisioners = release_slot l.worker_id l.now db.provisioners;
    }

-- completeBuild; a worker's error text makes the build failed.
unfoldable pub complete_build : Lease → String → Database → Result Database
complete_build l error db = elim (first (λ b. is_running b.status && held l b) db.builds) [
  | none ↦ err lease_expired
  | some b ↦ ok (completed l error b db)
]

-- COALESCE(MAX(sequence), 0) over the log of a build
unfoldable pub last_log : String → List BuildLog → ℕ
last_log id [] = 0
last_log id (e ∷ es) =
    let rest = last_log id es in
    if (e.build_id == id) && ltb rest e.sequence then e.sequence else rest

unfoldable pub append_log : Lease → String → String → Database → Result Database
append_log l level message db = elim (first (held l) db.builds) [
  | none ↦ err lease_expired
  | some b ↦ ok (record db {
    build_logs =
        insert
          (record {
            build_id = l.build_id;
            sequence = last_log l.build_id db.build_logs + 1;
            level = level;
            message = message;
          })
          db.build_logs;
  })
]
