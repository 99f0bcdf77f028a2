-- ===== src/Router/Visits.antt =====
-- The visits of an agent and of a browser: what the theorems on them say there.
use Prim.Native.String
use quickworks.Base.{
  ℕ, ◌-◌, ◌<◌, ◌≡◌, refl, String, ◌&&◌, ◌==◌, Option, true, false, some, List, [], ◌∷◌, arith,
}
use quickworks.Base.Maps.{find}
use quickworks.Table.{count, first, select, update, sort, insert}
use quickworks.Table
use quickworks.Database.{Workspace, Database, Observed}
use quickworks.Workspaces.{limit, check_create_quota}
use quickworks.Workspaces.Names.{pet_name, matches_id_pattern}
use quickworks.Workspaces.Create.{
  create_repository_idempotent, create_idempotent, retry, create_idempotent_once,
  delete_expired_key, create_keyed, create_once, create_in_tx, source_is_valid, insert_key,
  new_workspace, first_build,
}
use quickworks.Database.{insert_workspace, insert_build, build_conflicts}
use quickworks.Workspaces.Transitions.{owned_by, touch, mark}
use quickworks.Workspaces.Queries.{get, builds_of}
use quickworks.Workspaces.Examples.{
  vm_only, idle_workspace, small, small-IsSound, draw, later, in_time,
}
use quickworks.AgentHub.{register, open_session, new_agent, registration_of}
use quickworks.AgentHub.Presence.{
  is_ready, heard_lately, is_active_agent, latest_id, active_agent, set_observed, ready_now,
}
use quickworks.AgentHub.Examples.{
  plain, enrolled, zero_key, registration, opened, serving, session_named,
}
use quickworks.Auth.Credentials.{
  Vault, CloneCredential, no_credential, github_credential, clone_row, github_token, decrypted,
  revealed, consume_clone_credential,
}
use quickworks.Auth.Examples.{open_box, with_token, url_named}
use quickworks.Connections.Registry.{TcpHub, tcp_connect, dial_context}
use quickworks.Router.Browser.{Catalog, template, workbench_of}
use quickworks.Router.Machines.{
  EnrollInput, owner_of, answer_registered, enroll, agent_connect, ping,
}
use quickworks.Router
use quickworks.Router.Machines
use quickworks.Text.{bytes, same, has_prefix, split, contains_text}
use quickworks.Router.Joined.{enroll-connects, enroll_again}
use quickworks.Router.Pages.{
  proxied, workbench, open_workbench, status_of_builds, upstream_path, Headers,
  is_top_level_navigation, redirected, create_from_navigation, reconcile,
}
use quickworks.Router.Proxied.{workbench-proxied, navigate_twice}
use quickworks.Router.Reconciled.{is_unheard, reconcile-spares}

abbrev pub decode : String → Option (List ℕ)
decode key = some zero_key

abbrev pub vault : Vault
vault = record with_token {
  clone_credentials =
      clone_row open_box (8 ∷ []) 110 "c1" "calm-kind-orbit" "b2" 7 "https://github.com/o/r" "gh"
      ∷ [];
}

abbrev pub enroll_input : EnrollInput
enroll_input = record { enrollment_token = "token"; public_key = "key" }

abbrev pub clone : CloneCredential
clone = record { repository_url = "https://github.com/o/r"; token = "gh" }

abbrev pub spent : Vault
spent = (consume_clone_credential open_box 110 "calm-kind-orbit" "b2" vault).1

pub enrolls :
    enroll plain decode open_box "session" 110 (some enroll_input) enrolled vault
    ≡ (Machines.enrolled registration clone "gh", opened, spent)
unfolding enroll register first update registration_of new_agent answer_registered owner_of
    consume_clone_credential count revealed decrypted clone_row github_token github_credential mark
enrolls = refl

abbrev hub : TcpHub
hub = record { is_closed = λ n. false; sessions = [] }

enroll-connects_example :
    (agent_connect plain 200 "a1" (String.◌++◌ "Bearer " "session") (some 3) opened hub
      ≡ (true, ping 200 "a1" opened, tcp_connect "a1" 3 hub))
    × (dial_context "a1" (tcp_connect "a1" 3 hub) ≡ some 3)
unfolding count new_agent find
enroll-connects_example =
    enroll-connects plain decode open_box "session" 110 200 3 (some enroll_input) enrolled opened
      vault spent registration clone "gh" hub enrolls session_named refl (ground arith) refl
      (ground arith)

abbrev pub again : Database
again = record opened {
  agents =
      open_session zero_key "again" 500
        (open_session zero_key "session" 110 (new_agent "a1" "calm-kind-orbit" "b2"))
      ∷ [];
}

abbrev pub twice_spent : Vault
twice_spent = (consume_clone_credential open_box 500 "calm-kind-orbit" "b2" spent).1

pub enrolls_again : enroll plain decode open_box "again" 500 (some enroll_input) opened spent ≡ (
  Machines.enrolled (record registration { session = "again" }) no_credential "gh",
  again,
  twice_spent,
)
unfolding enroll register first update registration_of new_agent answer_registered owner_of
    consume_clone_credential count revealed decrypted clone_row github_token github_credential
    open_session Table.delete select mark
enrolls_again = refl

enroll_again_example : enroll plain decode open_box "again" 500 (some enroll_input) opened spent ≡ (
  Machines.enrolled (record registration { session = "again" }) no_credential "gh",
  again,
  twice_spent,
)
enroll_again_example =
    enroll_again plain decode open_box "session" "again" 110 500 (some enroll_input)
      (some enroll_input) enrolled opened again vault spent twice_spent registration
      (record registration { session = "again" }) clone no_credential "gh" "gh" enrolls url_named
      enrolls_again refl refl

active_now : workbench 130 7 "calm-kind-orbit" "/w/calm-kind-orbit/files" serving ≡ (
  proxied "a1" "/files",
  (workbench 130 7 "calm-kind-orbit" "/w/calm-kind-orbit/files" serving).1,
)
unfolding workbench open_workbench get touch active_agent first update sort insert select latest_id
    upstream_path Router.trim_prefix Router.strip open_session new_agent ready_now is_active_agent
    mark set_observed matches_id_pattern split count status_of_builds builds_of
active_now = refl

workbench-proxied_example :
    (w : Workspace) × (first (owned_by 7 "calm-kind-orbit") serving.workspaces ≡ some w)
    × (owned_by 7 "calm-kind-orbit" w ≡ true)
    × (w.observed_state ≡ Observed.running)
    × ("/files" ≡ upstream_path w.id "/w/calm-kind-orbit/files")
    × (0
        < count
            (λ a.
              ((a.workspace_id == w.id)
                && (is_ready a.status && heard_lately 130 a.last_heartbeat_at))
              && (a.id == "a1"))
            serving.agents)
workbench-proxied_example =
    workbench-proxied 130 7 "calm-kind-orbit" "/w/calm-kind-orbit/files" serving
      (workbench 130 7 "calm-kind-orbit" "/w/calm-kind-orbit/files" serving).1 "a1" "/files"
      active_now

-- Two idle workspaces' rows, of which the second was used lately.
abbrev pair : Database
pair = record small {
  workspaces =
      idle_workspace
      ∷ record idle_workspace { id = "brave-soft-river"; last_access_at = 7900 }
      ∷ [];
}

reconcile-spares_example :
    (select
        (λ w. w.id == "brave-soft-river")
        (reconcile vm_only (λ i. "b3") 8000 3600 pair).workspaces
      ≡ select (λ w. w.id == "brave-soft-river") pair.workspaces)
    × (select
          (λ b. b.workspace_id == "brave-soft-river")
          (reconcile vm_only (λ i. "b3") 8000 3600 pair).builds
        ≡ select (λ b. b.workspace_id == "brave-soft-river") pair.builds)
    × (count
          (λ a. is_ready a.status && is_unheard (8000 - 45) a.last_heartbeat_at)
          (reconcile vm_only (λ i. "b3") 8000 3600 pair).agents
        ≡ 0)
unfolding count
reconcile-spares_example =
    reconcile-spares vm_only (λ i. "b3") 8000 3600 pair "brave-soft-river" refl refl

abbrev catalog : Catalog
catalog = record { default_template = "vm"; names = "vm" ∷ [] }

abbrev browser : Headers
browser = record {
  accept = bytes "text/html";
  sec_fetch_mode = bytes "navigate";
  sec_fetch_dest = bytes "document";
  sec_fetch_site = bytes "none";
  purpose = [];
  sec_purpose = [];
}

abbrev visited : Database
visited = (create_from_navigation vm_only catalog draw 7 browser "csrf" "" small).1

visits :
    create_from_navigation vm_only catalog draw 7 browser "csrf" "" small
    ≡ (redirected (workbench_of (pet_name 1 2 3)), visited)
unfolding create_from_navigation is_top_level_navigation contains_text bytes same has_prefix
    template create_idempotent create_repository_idempotent retry create_idempotent_once
    delete_expired_key Table.delete select first create_keyed create_once check_create_quota limit
    count create_in_tx source_is_valid insert_workspace insert_build build_conflicts insert_key
    insert new_workspace first_build pet_name
visits = refl

top_level : is_top_level_navigation browser ≡ true
unfolding is_top_level_navigation contains_text bytes same has_prefix
top_level = refl

navigate_twice_example :
    create_from_navigation vm_only catalog later 7 browser "csrf" "" visited
    ≡ (redirected (workbench_of (pet_name 1 2 3)), visited)
unfolding count
navigate_twice_example =
    navigate_twice vm_only catalog draw later 7 browser browser "csrf" ""
      (workbench_of (pet_name 1 2 3)) small visited small-IsSound refl visits top_level in_time
