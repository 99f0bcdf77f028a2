-- ===== src/AgentHub/Presence.antt =====
-- internal/server/agenthub/agenthub.go: Heartbeat, MarkReady, MarkStale and ActiveAgent.
use quickworks.Base.{
  ℕ, ◌+◌, String, Bool, true, false, ◌&&◌, Option, none, some, List, [], ◌∷◌, ◌==◌, map, not,
  if◌then◌else◌, ltb, leb, nat_eq,
}
use quickworks.Results.{Result, ok, err, agent_gone, no_ready_agent}
use quickworks.Table.{count, select, first, update, sort}
use quickworks.Database.{Agent, AgentStatus, Workspace, Database, Observed, is_desired_running}
use quickworks.AgentHub.{session_seconds}

abbrev pub is_degraded : Observed → Bool
is_degraded Observed.degraded = true
is_degraded _ = false

abbrev pub is_up : Observed → Bool
is_up Observed.running = true
is_up _ = false

-- observed_state IN ('starting', 'degraded')
abbrev awaits_agent : Observed → Bool
awaits_agent Observed.starting = true
awaits_agent Observed.degraded = true
awaits_agent _ = false

abbrev pub is_ready : AgentStatus → Bool
is_ready AgentStatus.ready = true
is_ready _ = false

abbrev pub is_starting : AgentStatus → Bool
is_starting AgentStatus.starting = true
is_starting _ = false

unfoldable pub set_observed : Observed → ℕ → Workspace → Workspace
set_observed state now w = record w { observed_state = state; updated_at = now }

-- UPDATE workspaces ... WHERE id = ? AND desired_state = 'running' AND observed_state ...
unfoldable pub move_wanted :
    (Observed → Bool) → Observed → String → ℕ → List Workspace → List Workspace
move_wanted from state id now =
    update (λ w. (w.id == id) && (is_desired_running w.desired_state && from w.observed_state))
      (set_observed state now)

unfoldable pub beat : ℕ → Agent → Agent
beat now a = record a {
  last_heartbeat_at = some now;
  session_expires_at = some (now + session_seconds);
}

unfoldable pub set_status : AgentStatus → Agent → Agent
set_status status a = record a { status = status }

unfoldable pub beaten : ℕ → String → Database → Database
beaten now agent_id db = record db { agents = update (λ a. a.id == agent_id) (beat now) db.agents }

unfoldable pub recovered : ℕ → String → String → Database → Database
recovered now agent_id workspace_id db = record db {
  agents = update (λ a. a.id == agent_id) (set_status AgentStatus.ready) db.agents;
  workspaces = move_wanted is_degraded Observed.running workspace_id now db.workspaces;
}

-- Heartbeat: a starting agent only extends its session, any other becomes ready again.
unfoldable pub heartbeat : ℕ → String → Database → Result Database
heartbeat now agent_id db = elim (first (λ a. a.id == agent_id) db.agents) [
  | none ↦ err agent_gone
  | some a ↦
      if (a.workspace_id == "")
      then err agent_gone
      else (if not (nat_eq (count (λ x. x.id == agent_id) db.agents) 1)
          then err agent_gone
          else (if is_starting a.status
              then ok (beaten now agent_id db)
              else ok (recovered now agent_id a.workspace_id (beaten now agent_id db))))
]

unfoldable pub ready_now : ℕ → Agent → Agent
ready_now now a = record a {
  status = AgentStatus.ready;
  last_heartbeat_at = some now;
  session_expires_at = some (now + session_seconds);
}

-- MarkReady
unfoldable pub mark_ready : ℕ → String → Database → Result Database
mark_ready now agent_id db = elim (first (λ a. a.id == agent_id) db.agents) [
  | none ↦ err agent_gone
  | some a ↦
      if not (nat_eq (count (λ x. x.id == agent_id) db.agents) 1)
      then err agent_gone
      else (if a.workspace_id == ""
          then err agent_gone
          else ok (record db {
            agents = update (λ x. x.id == agent_id) (ready_now now) db.agents;
            workspaces = move_wanted awaits_agent Observed.running a.workspace_id now db.workspaces;
          }))
]

-- status = 'ready' AND last_heartbeat_at < ?
abbrev pub is_late : ℕ → Option ℕ → Bool
is_late deadline none = false
is_late deadline (some t) = ltb t deadline

abbrev pub is_stale : ℕ → Agent → Bool
is_stale deadline a = is_ready a.status && is_late deadline a.last_heartbeat_at

-- The loop of MarkStale over the workspaces of the stale agents.
unfoldable pub degrade_each : ℕ → List String → List Workspace → List Workspace
degrade_each now [] ws = ws
degrade_each now (id ∷ ids) ws =
    degrade_each now ids (move_wanted is_up Observed.degraded id now ws)

-- MarkStale
unfoldable pub mark_stale : ℕ → ℕ → Database → Database
mark_stale now deadline db = record db {
  agents = update (is_stale deadline) (set_status AgentStatus.degraded) db.agents;
  workspaces =
      degrade_each now (map (λ a. a.workspace_id) (select (is_stale deadline) db.agents))
        db.workspaces;
}

-- last_heartbeat_at > now - 45 seconds, with the seconds on the other side
abbrev pub heard_lately : ℕ → Option ℕ → Bool
heard_lately now none = false
heard_lately now (some t) = ltb now (t + 45)

-- A ready agent of the workspace, heard of in the last 45 seconds.
abbrev pub is_active_agent : String → ℕ → Agent → Bool
is_active_agent workspace_id now a =
    (a.workspace_id == workspace_id) && (is_ready a.status && heard_lately now a.last_heartbeat_at)

-- connected_at DESC, where NULL comes last
abbrev pub connected_later : Option ℕ → Option ℕ → Bool
connected_later a none = true
connected_later none (some t) = false
connected_later (some s) (some t) = leb t s

unfoldable pub latest_id : List Agent → Result String
latest_id [] = err no_ready_agent
latest_id (a ∷ rest) = if a.id == "" then err no_ready_agent else ok a.id

-- ActiveAgent
unfoldable pub active_agent : ℕ → String → Database → Result String
unfolding latest_id
active_agent now workspace_id db = latest_id (
    sort (λ a b. connected_later a.connected_at b.connected_at)
      (select (is_active_agent workspace_id now) db.agents))
