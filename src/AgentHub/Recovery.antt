-- ===== src/AgentHub/Recovery.antt =====
-- internal/server/agenthub/agenthub.go: a late agent degrades its workspace and a heartbeat restores it.
use quickworks.Base.{
  ℕ, ◌+◌, ◌<◌, ◌≤◌, ◌≡◌, refl, String, Bool, true, false, ◌&&◌, ◌||◌, some, List, [], ◌∷◌, ◌==◌,
  arith, map, eq_iff, eq_refl, Bool-cases, inl, inr, ◌∙◌,
}
use quickworks.Results.{ok}
use quickworks.Table.{count, select, first, update, sort}
use quickworks.Table.Counts.{first_holds, count-update_same, count_mono, first-count}
use quickworks.Table.Keys.{count-zero_mono}
use quickworks.Table.Rows.{count-update_none}
use quickworks.Table.Changes.{
  changed, count-update_onto, first-update, select-update_none, count-sort, count-select,
}
use quickworks.Database.{Agent, AgentStatus, Workspace, Database, Observed, is_desired_running}
use quickworks.AgentHub.Presence.{
  is_degraded, is_up, is_ready, is_stale, set_observed, set_status, move_wanted, degrade_each,
  mark_stale, beaten, recovered, heartbeat, ready_now, mark_ready, is_active_agent, active_agent,
  latest_id, connected_later,
}

-- A workspace that is wanted running and observed running.
abbrev pub runs : String → Workspace → Bool
runs id w = (w.id == id) && (is_desired_running w.desired_state && is_up w.observed_state)

-- ... or degraded
abbrev serves : String → Workspace → Bool
serves id w =
    (w.id == id)
    && (is_desired_running w.desired_state
        && (is_up w.observed_state || is_degraded w.observed_state))

-- Degrading takes no workspace out of service.
degrade_each-serves :
    (now : ℕ) (ids : List String) (ws : List Workspace) (id : String)
    → count (serves id) (degrade_each now ids ws) ≡ count (serves id) ws
unfolding degrade_each
degrade_each-serves now [] ws id = refl
degrade_each-serves now (i ∷ ids) ws id =
    degrade_each-serves now ids (move_wanted is_up Observed.degraded i now ws) id
    ∙ unfold move_wanted set_observed in (count-update_onto _ _ _ _ ws (λ w. ground arith))

abbrev degraded_in : String → Workspace → Bool
degraded_in id w =
    (w.id == id) && (is_desired_running w.desired_state && is_degraded w.observed_state)

-- If an agent is ready, then after a sweep of late agents and a heartbeat of that agent that
-- succeeds, as many rows of its workspace are wanted and observed running as before the sweep, or
-- more.
pub mark_stale-heartbeat :
    (now deadline later : ℕ) (agent_id : String) (a : Agent) (db db' : Database)
    → first (λ x. x.id == agent_id) db.agents ≡ some a
    → is_ready a.status ≡ true
    → heartbeat later agent_id (mark_stale now deadline db) ≡ ok db'
    → count (runs a.workspace_id) db.workspaces ≤ count (runs a.workspace_id) db'.workspaces
unfolding mark_stale move_wanted
mark_stale-heartbeat now deadline later agent_id a db db' found ready h = rw restored (
    omega (
      arith,
      count_mono (runs a.workspace_id) (serves a.workspace_id) db.workspaces (λ w. ground arith),
      degrade_each-serves now late db.workspaces a.workspace_id,
      count-update_onto (runs a.workspace_id) (serves a.workspace_id) (degraded_in a.workspace_id)
          (set_observed Observed.running later) (mark_stale now deadline db).workspaces
          (λ w. unfold set_observed in (ground arith)),
    ))
  where
    late : List String
    late = map (λ x. x.workspace_id) (select (is_stale deadline) db.agents)

    found_late :
        first (λ x. x.id == agent_id) (mark_stale now deadline db).agents
        ≡ some (changed (is_stale deadline) (set_status AgentStatus.degraded) a)
    found_late =
        unfold mark_stale set_status in
        (first-update (λ x. x.id == agent_id) (is_stale deadline) _ db.agents a (λ x. ground arith)
          found)

    restored :
        db'.workspaces
        ≡ move_wanted is_degraded Observed.running a.workspace_id later
            (mark_stale now deadline db).workspaces
    restored = unfold heartbeat recovered beaten set_status in (ground (arith, found_late))

-- No agent of the workspace is late: the workspace stays agents it is.
degrade_each-other :
    (now : ℕ) (agents : List Agent) (deadline : ℕ) (ws : List Workspace) (id : String)
    → count (λ a. (a.workspace_id == id) && is_stale deadline a) agents ≡ 0
    → select
        (λ w. w.id == id)
        (degrade_each now (map (λ a. a.workspace_id) (select (is_stale deadline) agents)) ws)
      ≡ select (λ w. w.id == id) ws
unfolding degrade_each count select
degrade_each-other now [] deadline ws id none_late = refl
degrade_each-other now (a ∷ agents) deadline ws id none_late =
    elim (Bool-cases (is_stale deadline a)) [
      | inl late ↦ rw late (
          degrade_each-other now agents deadline
            (move_wanted is_up Observed.degraded a.workspace_id now ws) id (ground arith)
          ∙ other (ground arith))
      | inr fresh ↦ rw fresh (degrade_each-other now agents deadline ws id (ground arith))
    ]
  where
    other :
        (a.workspace_id == id) ≡ false
        → select (λ w. w.id == id) (move_wanted is_up Observed.degraded a.workspace_id now ws)
          ≡ select (λ w. w.id == id) ws
    other apart =
        unfold move_wanted set_observed in
        (select-update_none (λ w. w.id == id) _ _ ws (λ w. refl)
          (λ w same.
            ground (arith, eq_iff w.id id, eq_iff w.id a.workspace_id, eq_iff a.workspace_id id)))

-- If no late agent belongs to a workspace, the sweep of late agents leaves the workspace's rows as
-- they are; and after the sweep no ready agent is late.
pub mark_stale-others :
    (now deadline : ℕ) (db : Database) (id : String)
    → count (λ a. (a.workspace_id == id) && is_stale deadline a) db.agents ≡ 0
    → (select (λ w. w.id == id) (mark_stale now deadline db).workspaces
        ≡ select (λ w. w.id == id) db.workspaces)
      × (count (is_stale deadline) (mark_stale now deadline db).agents ≡ 0)
unfolding mark_stale set_status
mark_stale-others now deadline db id none_late = (
  degrade_each-other now db.agents deadline db.workspaces id none_late,
  count-update_none _ _ _ db.agents (λ a late. ground arith) (λ a fresh. fresh),
)

latest_id-found :
    (agents : List Agent)
    → 0 < count (λ x. true) agents
    → count (λ x. x.id == "") agents ≡ 0
    → (id : String) × (latest_id agents ≡ ok id) × (0 < count (λ x. x.id == id) agents)
unfolding latest_id count
latest_id-found [] some_agent named = absurd (omega arith)
latest_id-found (a ∷ agents) some_agent named = (a.id, ground arith, ground (arith, eq_refl a.id))

-- If agent IDs are not empty, then within 45 seconds after an agent was marked ready its workspace
-- has an active agent, and the one that is answered is in the table, ready, and heard of in the
-- last 45 seconds.
pub mark_ready-active :
    (now later : ℕ) (agent_id : String) (a : Agent) (db db' : Database)
    → first (λ x. x.id == agent_id) db.agents ≡ some a
    → mark_ready now agent_id db ≡ ok db'
    → count (λ x. x.id == "") db.agents ≡ 0
    → later < now + 45
    → (id : String) × (active_agent later a.workspace_id db' ≡ ok id)
      × (0 < count (λ x. is_active_agent a.workspace_id later x && (x.id == id)) db'.agents)
mark_ready-active now later agent_id a db db' found h named early =
    let (id, answer, present) = latest_id-found shown some_agent all_named in
    (id, unfold active_agent in answer, rw (counted (λ x. x.id == id)) at present)
  where
    active : Agent → Bool
    active = is_active_agent a.workspace_id later

    shown : List Agent
    shown = sort (λ x y. connected_later x.connected_at y.connected_at) (select active db'.agents)

    counted : (q : Agent → Bool) → count q shown ≡ count (λ x. active x && q x) db'.agents
    counted q = count-sort q _ (select active db'.agents) ∙ count-select q active db'.agents

    agents_after : db'.agents ≡ update (λ x. x.id == agent_id) (ready_now now) db.agents
    agents_after = unfold mark_ready in (ground arith)

    same_id :
        (x : Agent)
        → ((changed (λ y. y.id == agent_id) (ready_now now) x).id == agent_id) ≡ (x.id == agent_id)
    same_id x = unfold ready_now in (ground arith)

    found_after : first (λ x. x.id == agent_id) db'.agents ≡ some (ready_now now a)
    found_after =
        let matching : (a.id == agent_id) ≡ true =
          first_holds (λ x. x.id == agent_id) db.agents a found in
        rw agents_after (
          rw matching at (
            first-update (λ x. x.id == agent_id) (λ x. x.id == agent_id) (ready_now now) db.agents a
              same_id found))

    some_agent : 0 < count (λ x. true) shown
    some_agent = rw (counted (λ x. true)) (
        first-count (λ x. x.id == agent_id) _ db'.agents _ found_after
          (unfold ready_now in (ground (arith, eq_refl a.workspace_id))))

    all_named : count (λ x. x.id == "") shown ≡ 0
    all_named = rw (counted (λ x. x.id == "")) (
        count-zero_mono _ (λ x. x.id == "") db'.agents (λ x. ground arith)
          (rw agents_after (
            unfold ready_now in
            (count-update_same (λ x. x.id == "") _ _ db.agents (λ x. refl) ∙ named))))
