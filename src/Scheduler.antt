-- ===== src/Scheduler.antt =====
-- internal/server/router.go: the provisioner's side of the control plane. Workers register, claim
-- queued builds under a lease, renew it, log, and complete; expired leases fail their builds.
pub mod Labels
pub mod Claim
pub mod Leases
pub mod Slots
pub mod Expiry
pub mod Claiming
pub mod Lifecycle
pub mod Examples
use quickworks.Base.{
  ℕ, ◌+◌, ◌-◌, String, Bool, true, false, ◌&&◌, Option, none, some, List, ◌==◌, if◌then◌else◌, ltb,
  leb,
}
use quickworks.Table.{update}
use quickworks.Database.{
  Build, Provisioner, Workspace, Database, Observed, Status, is_running, is_live,
}

-- column = ? of a nullable column
abbrev pub is_value : String → Option String → Bool
is_value s none = false
is_value s (some t) = t == s

-- lease_expires_at > ?
abbrev pub is_after : ℕ → Option ℕ → Bool
is_after now none = false
is_after now (some t) = ltb now t

-- lease_expires_at <= ?
abbrev pub is_past : ℕ → Option ℕ → Bool
is_past now none = false
is_past now (some t) = leb t now

-- status = 'running' AND claimed_by = ?
abbrev pub runs_for : String → Build → Bool
runs_for worker b = is_running b.status && is_value worker b.claimed_by

-- The WHERE clause of a lease request; the lease ID is compared by its hash.
abbrev pub holds_lease : String → String → String → ℕ → Build → Bool
holds_lease id worker lease_hash now b =
    (b.id == id)
    && (is_value worker b.claimed_by
        && (is_value lease_hash b.lease_id_hash && is_after now b.lease_expires_at))

-- active_builds = CASE WHEN active_builds > 0 THEN active_builds - 1 ELSE 0 END
unfoldable pub release_slot : String → ℕ → List Provisioner → List Provisioner
release_slot worker now =
    update (λ p. p.worker_id == worker)
      (λ p. record p { active_builds = p.active_builds - 1; updated_at = now })

unfoldable pub take_slot : String → ℕ → List Provisioner → List Provisioner
take_slot worker now =
    update (λ p. p.worker_id == worker)
      (λ p. record p { active_builds = p.active_builds + 1; last_seen_at = now; updated_at = now })

-- observed_state and updated_at of a workspace that is not deleted
unfoldable pub observe : String → Observed → ℕ → List Workspace → List Workspace
observe id state now =
    update (λ w. (w.id == id) && is_live w)
      (λ w. record w { observed_state = state; updated_at = now })
