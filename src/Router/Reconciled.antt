-- ===== src/Router/Reconciled.antt =====
-- internal/server/router.go: what a round of Reconcile does to agents that are late, and whom it leaves alone.
use quickworks.Base.{
  ℕ, ◌-◌, ◌≡◌, refl, sym, ap, ◌∙◌, String, Bool, false, not, ◌&&◌, Option, none, some, List, ◌==◌,
  ltb, leb, arith, Bool-cases, inl, inr,
}
use quickworks.Table.{count, select}
use quickworks.Table.Keys.{count-zero_mono}
use quickworks.Table.Changes.{count-select}
use quickworks.Database.{Agent, Database}
use quickworks.Workspaces.{Service}
use quickworks.Workspaces.Spared.{stop_idle-IsSpared}
use quickworks.AgentHub.Presence.{is_ready, is_late, is_stale, mark_stale}
use quickworks.AgentHub.Recovery.{mark_stale-others}
use quickworks.Router.Pages.{reconcile}

-- Not heard of since the deadline, though once it was.
abbrev pub is_unheard : ℕ → Option ℕ → Bool
is_unheard deadline none = false
is_unheard deadline (some t) = not (leb deadline t)

late_unheard : (deadline : ℕ) (t : Option ℕ) → is_late deadline t ≡ is_unheard deadline t
late_unheard deadline none = refl
late_unheard deadline (some t) = ground arith

-- The rows of the workspace that MarkStale leaves are old where those before it were.
old_after :
    (now deadline before : ℕ) (b : Bool) (db : Database) (id : String)
    → count (λ a. (a.workspace_id == id) && is_stale deadline a) db.agents ≡ 0
    → count (λ w. (w.id == id) && (b && ltb w.last_access_at before)) db.workspaces ≡ 0
    → count
        (λ w. (w.id == id) && (b && ltb w.last_access_at before))
        (mark_stale now deadline db).workspaces
      ≡ 0
old_after now deadline before b db id heard young =
    sym (count-select (λ w. b && ltb w.last_access_at before) (λ w. w.id == id) _)
    ∙ ap (count (λ w. b && ltb w.last_access_at before))
        (mark_stale-others now deadline db id heard).0
    ∙ count-select (λ w. b && ltb w.last_access_at before) (λ w. w.id == id) db.workspaces
    ∙ young

none_stale :
    (deadline : ℕ) (agents : List Agent)
    → count (is_stale deadline) agents ≡ 0
    → count (λ a. is_ready a.status && is_unheard deadline a.last_heartbeat_at) agents ≡ 0
none_stale deadline agents =
    count-zero_mono (λ a. is_ready a.status && is_unheard deadline a.last_heartbeat_at)
      (is_stale deadline) agents (λ a h. ground (arith, late_unheard deadline a.last_heartbeat_at))

all_heard :
    (deadline : ℕ) (id : String) (agents : List Agent)
    → count
        (λ a.
          (a.workspace_id == id) && (is_ready a.status && is_unheard deadline a.last_heartbeat_at))
        agents
      ≡ 0
    → count (λ a. (a.workspace_id == id) && is_stale deadline a) agents ≡ 0
all_heard deadline id agents =
    count-zero_mono (λ a. (a.workspace_id == id) && is_stale deadline a)
      (λ a.
        (a.workspace_id == id) && (is_ready a.status && is_unheard deadline a.last_heartbeat_at))
      agents (λ a h. ground (arith, late_unheard deadline a.last_heartbeat_at))

builds_kept :
    (now deadline : ℕ) (db : Database) (id : String)
    → select (λ b. b.workspace_id == id) (mark_stale now deadline db).builds
      ≡ select (λ b. b.workspace_id == id) db.builds
unfolding mark_stale
builds_kept now deadline db id = refl

-- If no ready agent of a workspace is unheard for 45 seconds and none of the workspace's rows was
-- last used before the deadline of the automatic stops, or there are no such stops, then a round of
-- Reconcile leaves the rows and the builds of that workspace as they are; and after the round no
-- agent that was unheard for 45 seconds is ready.
pub reconcile-spares :
    (s : Service) (ids : ℕ → String) (now auto_stop_after : ℕ) (db : Database) (id : String)
    → count
        (λ a.
          (a.workspace_id == id)
          && (is_ready a.status && is_unheard (now - 45) a.last_heartbeat_at))
        db.agents
      ≡ 0
    → count
        (λ w.
          (w.id == id) && (ltb 0 auto_stop_after && ltb w.last_access_at (now - auto_stop_after)))
        db.workspaces
      ≡ 0
    → (select (λ w. w.id == id) (reconcile s ids now auto_stop_after db).workspaces
        ≡ select (λ w. w.id == id) db.workspaces)
      × (select (λ b. b.workspace_id == id) (reconcile s ids now auto_stop_after db).builds
          ≡ select (λ b. b.workspace_id == id) db.builds)
      × (count
            (λ a. is_ready a.status && is_unheard (now - 45) a.last_heartbeat_at)
            (reconcile s ids now auto_stop_after db).agents
          ≡ 0)
unfolding reconcile
reconcile-spares s ids now auto_stop_after db id heard young =
    let fresh = mark_stale now (now - 45) db in
    let in_time = all_heard (now - 45) id db.agents heard in
    let (rows, agents) = mark_stale-others now (now - 45) db id in_time in
    let young' =
      old_after now (now - 45) (now - auto_stop_after) (ltb 0 auto_stop_after) db id in_time
        young in
    elim (Bool-cases (ltb 0 auto_stop_after)) [
      | inr never ↦
          rw never
            (rows, builds_kept now (now - 45) db id, none_stale (now - 45) fresh.agents agents)
      | inl sweeps ↦
          let spared =
            stop_idle-IsSpared s ids now (now - auto_stop_after) fresh id (rw sweeps at young') in
          rw sweeps (
            spared.rows ∙ rows,
            spared.builds ∙ builds_kept now (now - 45) db id,
            rw spared.agents (none_stale (now - 45) fresh.agents agents),
          )
    ]
