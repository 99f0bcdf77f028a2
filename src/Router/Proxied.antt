-- ===== src/Router/Proxied.antt =====
-- internal/server/router.go: whom the workbench is proxied to, and what navigation keeps.
use Prim.Native.String
use mathlib.Core.Path.{subst}
use quickworks.Base.{
  ℕ, ◌+◌, ◌*◌, ◌<◌, ◌≡◌, ◌≢◌, refl, String, true, ◌&&◌, none, some, List, [], ◌∷◌, ◌==◌, arith,
  eq_refl, Bool-cases, Option-cases, inl, inr,
}
use quickworks.Results.{ok, Result-cases}
use quickworks.Table.{count, select, first, sort}
use quickworks.Table.Counts.{first_holds}
use quickworks.Table.Changes.{count-sort, count-select}
use quickworks.Database.{Workspace, Build, Agent, Database, Observed}
use quickworks.Workspaces.{Service}
use quickworks.Workspaces.Create.{Draw, Request, create_idempotent, has_key}
use quickworks.Workspaces.Transitions.{owned_by, touch}
use quickworks.Workspaces.Queries.{get}
use quickworks.Workspaces.Soundness.{IsSound}
use quickworks.Workspaces.Repeats.{create_twice}
use quickworks.AgentHub.Presence.{
  is_ready, heard_lately, is_active_agent, connected_later, latest_id, active_agent,
}
use quickworks.Router.{strip}
use quickworks.Router.Pages
use quickworks.Router.Joined.{strip-append}
use quickworks.Router.Browser.{Catalog, template, workbench_of}
use quickworks.Router.Pages.{
  proxied, is_stopped, open_workbench, workbench, Headers, is_top_level_navigation, redirected,
  create_from_navigation, reconcile, upstream_path, status_of_builds,
}

latest_id-listed :
    (agents : List Agent) (id : String)
    → latest_id agents ≡ ok id
    → 0 < count (λ a. a.id == id) agents
unfolding latest_id count
latest_id-listed [] id h = cc
latest_id-listed (a ∷ agents) id h = elim (Bool-cases (a.id == "")) [
  | inl blank ↦ absurd (ground arith)
  | inr named ↦ let e : a.id ≡ id = ground arith in ground (arith, e, eq_refl id)
]

active_agent-active :
    (now : ℕ) (workspace_id : String) (db : Database) (id : String)
    → active_agent now workspace_id db ≡ ok id
    → 0 < count (λ a. is_active_agent workspace_id now a && (a.id == id)) db.agents
unfolding active_agent
active_agent-active now workspace_id db id h = omega (
  arith,
  latest_id-listed
      (sort (λ a b. connected_later a.connected_at b.connected_at)
        (select (is_active_agent workspace_id now) db.agents))
      id h,
  count-sort (λ a. a.id == id) (λ a b. connected_later a.connected_at b.connected_at)
      (select (is_active_agent workspace_id now) db.agents),
  count-select (λ a. a.id == id) (is_active_agent workspace_id now) db.agents,
)

touch-agents :
    (now owner_id : ℕ) (id : String) (db db' : Database)
    → touch now owner_id id db ≡ ok db'
    → db'.agents ≡ db.agents
unfolding touch
touch-agents now owner_id id db db' h = ground arith

get-first :
    (owner_id : ℕ) (id : String) (db : Database) (w : Workspace)
    → get owner_id id db ≡ ok w
    → first (owned_by owner_id id) db.workspaces ≡ some w
unfolding get
get-first owner_id id db w h = elim (Option-cases (first (owned_by owner_id id) db.workspaces)) [
  | inl gone ↦ absurd (ground arith)
  | inr (x, found) ↦ ground arith
]

open_workbench-proxied :
    (now user_id : ℕ) (path : String) (w : Workspace) (db db' : Database)
    (agent_id upstream : String)
    → open_workbench now user_id path w db ≡ (proxied agent_id upstream, db')
    → (upstream ≡ upstream_path w.id path)
      × (0 < count (λ a. is_active_agent w.id now a && (a.id == agent_id)) db.agents)
unfolding open_workbench status_of_builds
open_workbench-proxied now user_id path w db db' agent_id upstream h =
    elim (Result-cases (touch now user_id w.id db)) [
      | inr (e, failed) ↦ absurd (ground arith)
      | inl (touched, t) ↦ elim (Result-cases (active_agent now w.id touched)) [
        | inr (e, failed) ↦ absurd (ground arith)
        | inl (a, found) ↦ (
          ground arith,
          subst (λ agents. 0 < count (λ x. is_active_agent w.id now x && (x.id == agent_id)) agents)
              (touch-agents now user_id w.id db touched t)
              (active_agent-active now w.id touched agent_id (ground arith)),
        )
      ]
    ]

running_of : (o : Observed) → Pages.is_up o ≡ true → o ≡ Observed.running
running_of Observed.running h = refl
running_of _ h = absurd (ground arith)

-- A workbench request that is proxied to an agent is for the row that the owner has under that ID
-- in the table of workspaces and that is not deleted; that row is observed running, and the request
-- goes, with the path below the workspace's own, to a ready agent of that workspace that was heard
-- of in the last 45 seconds.
pub workbench-proxied :
    (now user_id : ℕ) (id path : String) (db db' : Database) (agent_id upstream : String)
    → workbench now user_id id path db ≡ (proxied agent_id upstream, db')
    → (w : Workspace) × (first (owned_by user_id id) db.workspaces ≡ some w)
      × (owned_by user_id id w ≡ true)
      × (w.observed_state ≡ Observed.running)
      × (upstream ≡ upstream_path w.id path)
      × (0
          < count
              (λ a.
                ((a.workspace_id == w.id)
                  && (is_ready a.status && heard_lately now a.last_heartbeat_at))
                && (a.id == agent_id))
              db.agents)
unfolding workbench status_of_builds
workbench-proxied now user_id id path db db' agent_id upstream h =
    elim (Result-cases (get user_id id db)) [
      | inr (e, missing) ↦ absurd (ground arith)
      | inl (w, found) ↦ elim (Bool-cases (is_stopped w.observed_state)) [
        | inl stopped ↦ absurd (ground arith)
        | inr alive ↦ elim (Bool-cases (Pages.is_up w.observed_state)) [
          | inr down ↦ absurd (ground arith)
          | inl up ↦
              let (path_is, active) =
                open_workbench-proxied now user_id path w db db' agent_id upstream (ground arith) in
              let is_row = get-first user_id id db w found in
              (
                w,
                is_row,
                first_holds (owned_by user_id id) db.workspaces w is_row,
                running_of w.observed_state up,
                path_is,
                active,
              )
        ]
      ]
    ]

navigation_key : (csrf : String) → String.◌++◌ "navigation:" csrf ≢ ""
unfolding strip
navigation_key csrf e = let stripped = rw e at (strip-append "navigation:" csrf) in cc

abbrev empty_request : ℕ → String → Request
empty_request user_id t = record {
  owner_id = user_id;
  name = "";
  template_name = t;
  repository = none;
}

create_idempotent_twice :
    (s : Service) (draws draws' : ℕ → Draw) (key request_hash t : String) (user_id : ℕ)
    (db : Database) (w : Workspace) (b : Build) (db' : Database)
    → IsSound db
    → key ≢ ""
    → count (has_key user_id key) db.idempotency_keys ≡ 0
    → create_idempotent s draws key request_hash (empty_request user_id t) db ≡ ok ((w, b), db')
    → ((i : ℕ) → (draws' 0).now < (draws i).now + 10 * 60)
    → create_idempotent s draws' key request_hash (empty_request user_id t) db' ≡ ok ((w, b), db')
unfolding create_idempotent
create_idempotent_twice s draws draws' key request_hash t user_id db w b db' sound named unused h
      early =
    create_twice s draws draws' key request_hash (empty_request user_id t) (empty_request user_id t)
      db w b db' sound named unused h refl early

-- From sound tables in which the browser's navigation key is unused: when a navigation has created
-- a workspace and redirected to it, a second top-level navigation of the same browser for the same
-- template, within ten minutes, is redirected to the same place and leaves the database as it is.
pub navigate_twice :
    (s : Service) (catalog : Catalog) (draws draws' : ℕ → Draw) (user_id : ℕ)
    (headers headers' : Headers) (csrf name target : String) (db db' : Database)
    → IsSound db
    → count (has_key user_id (String.◌++◌ "navigation:" csrf)) db.idempotency_keys ≡ 0
    → create_from_navigation s catalog draws user_id headers csrf name db ≡ (redirected target, db')
    → is_top_level_navigation headers' ≡ true
    → ((i : ℕ) → (draws' 0).now < (draws i).now + 10 * 60)
    → create_from_navigation s catalog draws' user_id headers' csrf name db'
      ≡ (redirected target, db')
unfolding create_from_navigation
navigate_twice s catalog draws draws' user_id headers headers' csrf name target db db' sound unused
      h again early =
    elim (Option-cases (template catalog name)) [
      | inl unknown ↦ absurd (ground arith)
      | inr (t, known) ↦ elim (Bool-cases (is_top_level_navigation headers)) [
        | inr other ↦ absurd (ground arith)
        | inl top ↦
            elim (Result-cases (
              create_idempotent s draws (String.◌++◌ "navigation:" csrf)
                (String.◌++◌ "empty-navigation:" t)
                (record { owner_id = user_id; name = ""; template_name = t; repository = none })
                db)) [
                  | inr (e, failed) ↦ absurd (ground arith)
                  | inl (((w, b), made), created) ↦
                      let made_is : made ≡ db' = ground arith in
                      let target_is : workbench_of w.id ≡ target = ground arith in
                      let twice =
                        create_idempotent_twice s draws draws' _ _ t user_id db w b db' sound
                          (navigation_key csrf) unused (rw made_is at created) early in
                      rw (again, known, twice, target_is) refl
                ]
      ]
    ]
