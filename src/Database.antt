-- ===== src/Database.antt =====
-- The rows of the control plane's SQLite tables, and the inserts that check their constraints
-- (internal/server/workspace/service.go for the structs, internal/database/migration for the tables).
-- Times are seconds; a nullable column is an Option; `deleted_at` is gorm's soft delete.
use quickworks.Base.{
  ℕ, String, Bool, true, false, ◌&&◌, ◌||◌, Option, List, ◌==◌, if◌then◌else◌, ℤ, ltb, nat_eq,
  is_none,
}
use quickworks.Results.{Result, ok, err, duplicated_key}
use quickworks.Table.{count, insert}

pub data Transition : Type 0 where
  start stop delete : Transition

pub data SourceType : Type 0 where
  empty github : SourceType

pub data Desired : Type 0 where
  running stopped deleted : Desired

pub data Observed : Type 0 where
  pending starting running stopping stopped failed deleting deleted degraded : Observed

pub data Status : Type 0 where
  queued running succeeded failed : Status

pub record Workspace : Type 0 where
  pub id : String
  pub owner_id : ℕ
  pub display_name : Option String
  pub source_type : SourceType
  pub repository_id : Option ℤ
  pub repository_full_name : Option String
  pub template_name : String
  pub desired_state : Desired
  pub observed_state : Observed
  pub state_key : String
  pub created_at : ℕ
  pub updated_at : ℕ
  pub last_access_at : ℕ
  pub deleted_at : Option ℕ

pub record Build : Type 0 where
  pub id : String
  pub workspace_id : String
  pub sequence : ℕ
  pub transition : Transition
  pub template_name : String
  pub status : Status
  pub claimed_by : Option String
  pub lease_id_hash : Option String
  pub lease_expires_at : Option ℕ
  pub started_at : Option ℕ
  pub completed_at : Option ℕ
  pub error : Option String
  pub created_at : ℕ

pub record IdempotencyKey : Type 0 where
  pub owner_id : ℕ
  pub key : String
  pub request_hash : String
  pub response_workspace_id : String
  pub expires_at : ℕ

pub record Provisioner : Type 0 where
  pub worker_id : String
  pub labels : List String
  pub capacity : ℕ
  pub active_builds : ℕ
  pub last_seen_at : ℕ
  pub updated_at : ℕ

pub record BuildLog : Type 0 where
  pub build_id : String
  pub sequence : ℕ
  pub level : String
  pub message : String

pub data EventType : Type 0 where
  lease_empty build_claimed : EventType

pub record SchedulerEvent : Type 0 where
  pub worker_id : String
  pub event_type : EventType
  pub build_id : Option String
  pub workspace_id : Option String
  pub template_name : Option String

pub data AgentStatus : Type 0 where
  starting ready degraded drained : AgentStatus

pub record Agent : Type 0 where
  pub id : String
  pub workspace_id : String
  pub build_id : String
  pub public_key : List ℕ
  pub status : AgentStatus
  pub session_hash : Option String
  pub session_expires_at : Option ℕ
  pub last_heartbeat_at : Option ℕ
  pub connected_at : Option ℕ

pub record AgentEnrollment : Type 0 where
  pub id_hash : String
  pub workspace_id : String
  pub build_id : String
  pub agent_id : String
  pub expires_at : ℕ

pub record Database : Type 0 where
  pub workspaces : List Workspace
  pub builds : List Build
  pub idempotency_keys : List IdempotencyKey
  pub provisioners : List Provisioner
  pub build_logs : List BuildLog
  pub scheduler_events : List SchedulerEvent
  pub agents : List Agent
  pub agent_enrollments : List AgentEnrollment

-- gorm adds `deleted_at IS NULL` to every query on Workspace.
abbrev pub is_live : Workspace → Bool
is_live w = is_none w.deleted_at

abbrev pub is_desired_running : Desired → Bool
is_desired_running Desired.running = true
is_desired_running _ = false

-- status IN ('queued','running')
abbrev pub is_active : Status → Bool
is_active Status.queued = true
is_active Status.running = true
is_active _ = false

abbrev pub is_queued : Status → Bool
is_queued Status.queued = true
is_queued _ = false

abbrev pub is_running : Status → Bool
is_running Status.running = true
is_running _ = false

abbrev pub active_in : String → Build → Bool
active_in workspace_id b = (b.workspace_id == workspace_id) && is_active b.status

-- PRIMARY KEY(id) of workspaces.
unfoldable pub insert_workspace : Workspace → Database → Result Database
insert_workspace w db =
    if ltb 0 (count (λ x. x.id == w.id) db.workspaces)
    then err duplicated_key
    else ok (record db { workspaces = insert w db.workspaces })

-- A build breaks its primary key, UNIQUE(workspace_id, sequence) or one_active_build_per_workspace.
unfoldable pub build_conflicts : Build → List Build → Bool
build_conflicts b builds =
    ltb 0 (count (λ x. x.id == b.id) builds)
    || (ltb 0
          (count (λ x. (x.workspace_id == b.workspace_id) && nat_eq x.sequence b.sequence) builds)
        || (is_active b.status && ltb 0 (count (active_in b.workspace_id) builds)))

unfoldable pub insert_build : Build → Database → Result Database
unfolding build_conflicts
insert_build b db =
    if build_conflicts b db.builds
    then err duplicated_key
    else ok (record db { builds = insert b db.builds })
