-- ===== src/Startup.antt =====
-- internal/agent/enroll.go, internal/agent/clone.go and RunAgent of internal/app/agent.go: how an agent gets
-- from its enrollment to a supervised Workbench. What the calls of the machine come to is a Vm; the
-- control URL is part of `post`, which sends a request.
use Prim.Native.String
use quickworks.Base.{
  ℕ, String, Bool, true, false, not, ◌&&◌, ◌||◌, Option, none, some, List, [], ◌∷◌, ◌++◌, ◌==◌,
  if◌then◌else◌, nat_eq, is_some, map,
}
use quickworks.Router.{strip}
use quickworks.Router.Machines.{EnrollInput}
pub mod Prepared
pub mod Restarted
pub mod Examples

pub record EnrollmentResponse : Type 0 where
  pub workspace_id : String
  pub build_id : String
  pub agent_id : String
  pub session : String
  pub workbench_version : String
  pub workbench_bundle_url : String
  pub workbench_bundle_sha : String
  pub workbench_entrypoint : String
  pub workbench_byok_config : String
  pub workbench_environment : String
  pub repository_url : String
  pub clone_token : String
  pub github_token : String

-- A response, if there is one: its status, and its body if that decodes.
pub data HttpReply : Type 0 where
  unsent : HttpReply
  received : ℕ → Option EnrollmentResponse → HttpReply

abbrev pub is_complete : EnrollmentResponse → Bool
is_complete r = not (
    (r.agent_id == "")
    || ((r.session == "")
        || ((r.workbench_bundle_url == "")
            || ((r.workbench_bundle_sha == "")
                || ((r.workbench_entrypoint == "") || (r.github_token == ""))))))

abbrev pub accepted_response : HttpReply → Option EnrollmentResponse
accepted_response unsent = none
accepted_response (received status none) = none
accepted_response (received status (some r)) =
    if nat_eq status 201 && is_complete r then some r else none

-- Enroll, with the base64 of the public key
unfoldable pub enroll_with :
    (String → EnrollInput → HttpReply) → String → String → Option EnrollmentResponse
enroll_with post token public_key =
    accepted_response
      (post "/api/agent/enroll" (record { enrollment_token = token; public_key = public_key }))

pub data Effect : Type 0 where
  -- A run of git: its arguments, QUICKWORKS_GIT_TOKEN and its standard input.
  ran_git : List String → String → String → Effect
  changed_owner : String → Effect
  secured : String → Effect
  wrote : String → String → Effect
  tunnelled : String → String → Effect
  supervised : String → String → Effect

-- A step of the start: whether the next one follows, and what it has done.
abbrev pub Step : Type 0
Step = Bool × List Effect

abbrev pub check : Bool → Step
check b = (b, [])

abbrev pub act : Bool → Effect → Step
act b e = (b, e ∷ [])

unfoldable pub and_then : Step → Step → Step
and_then (true, done) (b, more) = (b, done ++ more)
and_then (false, done) s = (false, done)

-- Where the workspace is and whose.
pub record Place : Type 0 where
  pub workspace_dir : String
  pub user : String
  pub group : String

pub record Vm : Type 0 where
  -- The base64 of the public key of LoadOrCreateIdentity.
  pub public_key : Option String
  -- The workspace: whether it has .git, can be made, and its entries.
  pub has_git : Bool
  pub makes_workspace : Bool
  pub entries : Option (List String)
  -- Whether the askpass file is made, written, closed and made executable.
  pub has_askpass : Bool
  -- Whether a run of git ends well.
  pub git : List String → Bool
  -- Whether the user and the group are known and have numbers, and the user's home.
  pub home : Option String
  pub has_group : Bool
  -- The walk through the workspace, with the success of each visit.
  pub walk : List (String × Bool)
  -- Whether a file is given its owner and mode, and whether one is written.
  pub secures : String → Bool
  pub makes_configuration : Bool
  pub writes : String → Bool
  pub install : String → String → String → Option String
  pub has_executable : Bool

abbrev pub starts_with : String → String → Bool
starts_with prefix s = is_some (strip prefix s)

abbrev pub has_no_entries : Option (List String) → Bool
has_no_entries (some []) = true
has_no_entries (some (x ∷ xs)) = false
has_no_entries none = false

abbrev pub clone_arguments : String → String → List String
clone_arguments url dir = "clone" ∷ "--filter=blob:none" ∷ url ∷ dir ∷ []

-- The part of CloneRepository that a workspace without .git gets to.
unfoldable pub clone_into : Vm → String → String → String → Step
clone_into m url token dir =
    and_then (check (m.makes_workspace && (has_no_entries m.entries && m.has_askpass)))
      (act (m.git (clone_arguments url dir)) (ran_git (clone_arguments url dir) token ""))

-- CloneRepository
unfoldable pub clone_repository : Vm → String → String → String → Step
clone_repository m url token dir =
    let rest = if m.has_git then check true else clone_into m url token dir in
    and_then
      (check (starts_with "https://github.com/" url && (not (token == "") && starts_with "/" dir)))
      rest

-- The walk of SetWorkspaceOwnership
unfoldable pub change_owners : List (String × Bool) → Step
change_owners [] = check true
change_owners ((name, b) ∷ rest) =
    if b then and_then (act true (changed_owner name)) (change_owners rest) else check false

-- SetWorkspaceOwnership
unfoldable pub set_workspace_ownership : Vm → Place → Step
set_workspace_ownership m p =
    and_then
      (check (
        (starts_with "/" p.workspace_dir && (not (p.user == "") && not (p.group == "")))
        && (is_some m.home && m.has_group)))
      (change_owners m.walk)

abbrev pub run_git : Vm → List String → String → Step
run_git m arguments input = act (m.git arguments) (ran_git arguments "" input)

abbrev pub credential_of : String → String
credential_of token =
    String.◌++◌ "protocol=https\nhost=github.com\nusername=x-access-token\npassword="
      (String.◌++◌ token "\n\n")

abbrev pub secure : Vm → String → Step
secure m name = (m.secures name, if m.secures name then secured name ∷ [] else [])

-- ConfigureGitHubCredential
unfoldable pub configure_github_credential : Vm → String → String → Step
configure_github_credential m token user =
    and_then (check (not ((token == "") || (user == "")) && is_some m.home)) (
      and_then (run_git m ("config" ∷ "--global" ∷ "credential.helper" ∷ "store" ∷ []) "") (
        and_then (run_git m ("config" ∷ "--global" ∷ "credential.useHttpPath" ∷ "true" ∷ []) "") (
          and_then (run_git m ("credential" ∷ "approve" ∷ []) (credential_of token))
            (and_then (secure m ".gitconfig") (secure m ".git-credentials")))))

abbrev pub write : Vm → String → String → Step
write m name text = (m.writes name, if m.writes name then wrote name text ∷ [] else [])

-- RunAgent, with the entrypoint of an installed bundle
unfoldable pub supervise : Vm → EnrollmentResponse → Option String → Step
supervise m r none = check false
supervise m r (some entrypoint) = and_then (check m.has_executable) (
  true,
  tunnelled r.agent_id r.session
      ∷ supervised entrypoint (String.◌++◌ "/w/" (String.◌++◌ r.workspace_id "/"))
      ∷ [],
)

-- RunAgent, from the configuration's files to the supervisor
unfoldable pub start_workbench : Vm → EnrollmentResponse → Step
start_workbench m r = and_then (check m.makes_configuration) (
    and_then (write m "/etc/quickworks/workbench/byok.json" r.workbench_byok_config) (
      and_then (write m "/etc/quickworks/workbench/workbench.env" r.workbench_environment) (
        supervise m r
          (m.install r.workbench_bundle_url r.workbench_bundle_sha r.workbench_entrypoint))))

-- RunAgent: an enrollment that names no repository leaves nothing to clone.
abbrev pub clone_named : Vm → Place → EnrollmentResponse → Step
clone_named m p r =
    if r.repository_url == ""
    then check true
    else clone_repository m r.repository_url r.clone_token p.workspace_dir

-- RunAgent, once the agent is enrolled
unfoldable pub prepare : Vm → Place → EnrollmentResponse → Step
prepare m p r = and_then (clone_named m p r) (
    and_then (set_workspace_ownership m p)
      (and_then (configure_github_credential m r.github_token p.user) (start_workbench m r)))

-- environmentOrDefault
unfoldable pub environment_or_default : (String → String) → String → String → String
environment_or_default getenv name fallback =
    let value = getenv name in if value == "" then fallback else value

abbrev pub place_of : (String → String) → Place
place_of getenv = record {
  workspace_dir = environment_or_default getenv "QUICKWORKS_WORKSPACE_DIR" "/workspace";
  user = environment_or_default getenv "QUICKWORKS_WORKBENCH_USER" "workspace";
  group = environment_or_default getenv "QUICKWORKS_WORKBENCH_GROUP" "workspace";
}

-- RunAgent, up to the supervisor
unfoldable pub run_agent : (String → String) → (String → EnrollInput → HttpReply) → Vm → Step
run_agent getenv post m =
    let token = getenv "QUICKWORKS_AGENT_ENROLLMENT_TOKEN" in
    if (getenv "QUICKWORKS_AGENT_CONTROL_URL" == "")
      || ((token == "") || (getenv "QUICKWORKS_AGENT_STATE_DIR" == ""))
    then check false
    else elim m.public_key [
      | none ↦ check false
      | some public_key ↦ elim (enroll_with post token public_key) [
        | none ↦ check false
        | some r ↦ prepare m (place_of getenv) r
      ]
    ]
