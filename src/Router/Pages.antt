-- ===== src/Router/Pages.antt =====
-- internal/server/router.go: the workbench and the other pages of a signed-in user, up to what is shown,
-- and the periodic Reconcile. Header values are lists of bytes.
use Prim.Native.String
use quickworks.Base.{
  ℕ, ◌+◌, ◌-◌, String, Bool, true, false, not, ◌&&◌, ◌||◌, Option, none, some, List, [], ◌∷◌, ◌++◌,
  ◌==◌, if◌then◌else◌, map, ltb,
}
use quickworks.Results.{ok, err}
use quickworks.Text.{bytes, same, to_lower, contains_text}
use quickworks.Database.{Workspace, Build, Provisioner, Database, Observed}
use quickworks.Scheduler.Labels.{labels_contain}
use quickworks.Workspaces.{Service}
use quickworks.Workspaces.Create.{Draw, create_idempotent}
use quickworks.Workspaces.Transitions.{touch, stop_idle}
use quickworks.Workspaces.Queries.{get, builds_of}
use quickworks.AgentHub.Presence.{active_agent, mark_stale}
use quickworks.Router.{trim_prefix}
use quickworks.Router.Browser.{Catalog, template, workbench_of}

abbrev pub is_stopped : Observed → Bool
is_stopped Observed.stopped = true
is_stopped _ = false

abbrev pub is_up : Observed → Bool
is_up Observed.running = true
is_up _ = false

pub data Page : Type 0 where
  not_found_page : Page
  status_page : Option Build → Page
  failed : ℕ → Page
  proxied : String → String → Page

abbrev pub first_of : List Build → Option Build
first_of [] = none
first_of (b ∷ builds) = some b

-- The status page with the last build of the workspace.
unfoldable pub status_of_builds : ℕ → String → Database → Page
status_of_builds user_id id db = elim (builds_of user_id id db) [
  | err e ↦ failed 500
  | ok builds ↦ status_page (first_of builds)
]

-- proxy.Rewrite: the path that the workbench is asked for.
unfoldable pub upstream_path : String → String → String
upstream_path id path =
    let rest = trim_prefix (String.◌++◌ "/w/" id) path in if rest == "" then "/" else rest

-- workbench, once the workspace is known to run
unfoldable pub open_workbench : ℕ → ℕ → String → Workspace → Database → Page × Database
open_workbench now user_id path w db = elim (touch now user_id w.id db) [
  | err e ↦ (failed 500, db)
  | ok db' ↦ elim (active_agent now w.id db') [
    | err e ↦ (status_of_builds user_id w.id db', db')
    | ok agent_id ↦ (proxied agent_id (upstream_path w.id path), db')
  ]
]

-- workbench
unfoldable pub workbench : ℕ → ℕ → String → String → Database → Page × Database
workbench now user_id id path db = elim (get user_id id db) [
  | err e ↦ (not_found_page, db)
  | ok w ↦
      if is_stopped w.observed_state
      then (status_page none, db)
      else (if not (is_up w.observed_state)
          then (status_of_builds user_id w.id db, db)
          else open_workbench now user_id path w db)
]

-- readiness
unfoldable pub readiness : ℕ → ℕ → String → Database → Option (Observed × Bool)
readiness now user_id id db = elim (get user_id id db) [
  | err e ↦ none
  | ok w ↦ some (w.observed_state, elim (active_agent now w.id db) [ err e ↦ false | ok a ↦ true ])
]

pub record Headers : Type 0 where
  pub accept : List ℕ
  pub sec_fetch_mode : List ℕ
  pub sec_fetch_dest : List ℕ
  pub sec_fetch_site : List ℕ
  pub purpose : List ℕ
  pub sec_purpose : List ℕ

-- isTopLevelNavigation
unfoldable pub is_top_level_navigation : Headers → Bool
is_top_level_navigation h =
    contains_text (bytes "text/html") h.accept
    && same h.sec_fetch_mode (bytes "navigate")
    && same h.sec_fetch_dest (bytes "document")
    && (same h.sec_fetch_site (bytes "none") || same h.sec_fetch_site (bytes "same-origin"))
    && not (contains_text (bytes "prefetch") (map to_lower (h.purpose ++ b' ' ∷ h.sec_purpose)))

pub data Navigated : Type 0 where
  refused : ℕ → Navigated
  redirected : String → Navigated

-- createFromNavigation; `csrf` is the browser's CSRF token, `name` the query's template.
unfoldable pub create_from_navigation :
    Service → Catalog → (ℕ → Draw) → ℕ → Headers → String → String → Database → Navigated × Database
create_from_navigation s catalog draws user_id headers csrf name db =
    if not (is_top_level_navigation headers)
    then (refused 403, db)
    else elim (template catalog name) [
      | none ↦ (refused 400, db)
      | some template_name ↦
          elim (create_idempotent s draws (String.◌++◌ "navigation:" csrf)
            (String.◌++◌ "empty-navigation:" template_name)
            (record {
              owner_id = user_id;
              name = "";
              template_name = template_name;
              repository = none;
            })
            db) [
              | err e ↦ (refused 503, db)
              | ok ((w, b), db') ↦ (redirected (workbench_of w.id), db')
            ]
    ]

pub record Availability : Type 0 where
  pub name : String
  pub is_default : Bool
  pub required_labels : List String
  pub matching_workers : ℕ
  pub available_workers : ℕ
  pub available_slots : ℕ

-- LastSeenAt.After(now - 90 seconds), with the seconds on the other side
abbrev pub is_healthy : ℕ → Provisioner → Bool
is_healthy now p = ltb now (p.last_seen_at + 90)

-- One provisioner counted for a template; its labels decode, since a claim encoded them.
unfoldable pub count_worker : ℕ → List String → Provisioner → Availability → Availability
count_worker now required p item =
    if not (labels_contain p.labels required)
    then item
    else (if is_healthy now p && ltb p.active_builds p.capacity
        then record item {
          matching_workers = item.matching_workers + 1;
          available_workers = item.available_workers + 1;
          available_slots = item.available_slots + (p.capacity - p.active_builds);
        }
        else record item { matching_workers = item.matching_workers + 1 })

unfoldable pub count_workers : ℕ → List String → List Provisioner → Availability → Availability
count_workers now required [] item = item
count_workers now required (p ∷ ps) item =
    count_workers now required ps (count_worker now required p item)

-- templateAvailability, in the order of the catalog before it is sorted by name
unfoldable pub template_availability :
    ℕ → Catalog → (String → List String) → Database → List Availability
template_availability now catalog required db =
    map
      (λ name. count_workers now (required name) db.provisioners (record {
        name = name;
        is_default = name == catalog.default_template;
        required_labels = required name;
        matching_workers = 0;
        available_workers = 0;
        available_slots = 0;
      }))
      catalog.names

-- One round of Reconcile; `auto_stop_after` is 0 for never. Errors are dropped.
unfoldable pub reconcile : Service → (ℕ → String) → ℕ → ℕ → Database → Database
reconcile s ids now auto_stop_after db =
    let fresh = mark_stale now (now - 45) db in
    if ltb 0 auto_stop_after then (stop_idle s ids now (now - auto_stop_after) fresh).1 else fresh
