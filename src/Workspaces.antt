-- ===== src/Workspaces.antt =====
-- internal/server/workspace/service.go: the service's policies and the quota checks of its
-- transactions. The operations stand in the modules below.
pub mod Names
pub mod Create
pub mod Transitions
pub mod Queries
pub mod Sequences
pub mod Soundness
pub mod Quotas
pub mod Creation
pub mod Idempotency
pub mod Repeats
pub mod Outcomes
pub mod IdleSweep
pub mod Spared
pub mod Decided
pub mod Examples
use quickworks.Base.{
  ℕ, String, Bool, ◌&&◌, List, [], ◌∷◌, ◌==◌, not, if◌then◌else◌, nat_eq, ℤ, pos, is_positive,
  is_zero, reaches,
}
use quickworks.Results.{Result, ok, refuse, workspace_quota, running_quota, ◌>>=◌, ◌>>◌}
use quickworks.Table.{count}
use quickworks.Database.{Workspace, Database, is_live, is_desired_running}

pub record Limits : Type 0 where
  pub max_workspaces : ℤ
  pub max_running_workspaces : ℤ

pub record Service : Type 0 where
  pub limits : List (String × Limits)

abbrev no_limits : Limits
no_limits = record { max_workspaces = pos 0; max_running_workspaces = pos 0 }

-- A missing key of a Go map reads as the zero value.
lookup_limits : String → List (String × Limits) → Limits
lookup_limits name [] = no_limits
lookup_limits name ((key, l) ∷ rest) = if key == name then l else lookup_limits name rest

unfoldable pub limit : Service → String → Limits
unfolding lookup_limits
limit s template_name = lookup_limits template_name s.limits

-- owner_id = ? AND template_name = ? AND deleted_at IS NULL
abbrev pub is_of : ℕ → String → Workspace → Bool
is_of owner_id template_name w =
    nat_eq w.owner_id owner_id && ((w.template_name == template_name) && is_live w)

-- ... AND desired_state = 'running'
abbrev pub is_running_of : ℕ → String → Workspace → Bool
is_running_of owner_id template_name w =
    is_of owner_id template_name w && is_desired_running w.desired_state

-- limit > 0 && count >= limit
abbrev pub is_full : ℕ → ℤ → Bool
is_full n l = is_positive l && reaches n l

unfoldable pub check_create_quota : Service → ℕ → String → Database → Result (Unit {0})
check_create_quota s owner_id template_name db = do
  let l = limit s template_name
  refuse (is_full (count (is_of owner_id template_name) db.workspaces) l.max_workspaces)
      workspace_quota
  refuse
      (is_full (count (is_running_of owner_id template_name) db.workspaces)
        l.max_running_workspaces)
      running_quota

unfoldable pub check_start_quota : Service → ℕ → String → String → Database → Result (Unit {0})
check_start_quota s owner_id workspace_id template_name db =
    let l = (limit s template_name).max_running_workspaces in
    if is_zero l
    then ok tt
    else refuse
        (reaches
          (count (λ w. not (w.id == workspace_id) && is_running_of owner_id template_name w)
            db.workspaces)
          l)
        running_quota
