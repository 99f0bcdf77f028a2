-- ===== src/Startup/Restarted.antt =====
-- internal/app/agent.go and internal/server/router.go: what is left to clone when an agent starts again.
use quickworks.Base.{
  ℕ, ◌≡◌, ◌≢◌, refl, ap, String, Bool, true, false, ◌||◌, Option, none, some, List, [], ◌∷◌, ◌==◌,
  arith, Bool-cases, inl, inr,
}
use quickworks.Table.{count}
use quickworks.Database.{Database}
use quickworks.AgentHub.{Registration}
use quickworks.Auth.Credentials.{Box, Vault, CloneCredential, no_credential}
use quickworks.Router.Machines.{EnrollInput, EnrollAnswer, refused, enrolled, enroll}
use quickworks.Router.Joined.{enroll_again}
use quickworks.Startup.{
  EnrollmentResponse, HttpReply, received, is_complete, enroll_with, Effect, ran_git, changed_owner,
  secured, wrote, tunnelled, supervised, Step, check, act, and_then, Place, Vm, change_owners,
  set_workspace_ownership, secure, write, configure_github_credential, supervise, start_workbench,
  clone_named, prepare, place_of, run_agent,
}

-- r.workbenchConfig
pub record WorkbenchSettings : Type 0 where
  pub version : String
  pub bundle_url : String
  pub bundle_sha : String
  pub entrypoint : String
  pub byok_config : String
  pub environment : String

-- What enroll writes for an enrollment.
abbrev pub response_of :
    WorkbenchSettings → Registration → CloneCredential → String → EnrollmentResponse
response_of settings r clone token = record {
  workspace_id = r.workspace_id;
  build_id = r.build_id;
  agent_id = r.agent_id;
  session = r.session;
  workbench_version = settings.version;
  workbench_bundle_url = settings.bundle_url;
  workbench_bundle_sha = settings.bundle_sha;
  workbench_entrypoint = settings.entrypoint;
  workbench_byok_config = settings.byok_config;
  workbench_environment = settings.environment;
  repository_url = clone.repository_url;
  clone_token = clone.token;
  github_token = token;
}

abbrev pub reply_of : WorkbenchSettings → EnrollAnswer → HttpReply
reply_of settings (refused status) = received status none
reply_of settings (enrolled r clone token) =
    received 201 (some (response_of settings r clone token))

abbrev pub is_clone : Effect → Bool
is_clone (ran_git [] token input) = false
is_clone (ran_git (name ∷ arguments) token input) = name == "clone"
is_clone (changed_owner name) = false
is_clone (secured name) = false
is_clone (wrote name text) = false
is_clone (tunnelled agent_id session) = false
is_clone (supervised entrypoint base) = false

count-and_then :
    (f : Effect → Bool) (s t : Step)
    → count f s.1 ≡ 0
    → count f t.1 ≡ 0
    → count f (and_then s t).1 ≡ 0
unfolding and_then count
count-and_then f (true, []) (b, more) none_before none_after = none_after
count-and_then f (true, e ∷ done) (b, more) none_before none_after =
    ground (arith, count-and_then f (true, done) (b, more))
count-and_then f (false, done) t none_before none_after = none_before

change_owners-count : (walk : List (String × Bool)) → count is_clone (change_owners walk).1 ≡ 0
unfolding change_owners count
change_owners-count [] = refl
change_owners-count ((name, true) ∷ rest) =
    count-and_then is_clone (act true (changed_owner name)) (change_owners rest) refl
      (change_owners-count rest)
change_owners-count ((name, false) ∷ rest) = refl

secure-count : (m : Vm) (name : String) → count is_clone (secure m name).1 ≡ 0
unfolding count
secure-count m name = ground arith

write-count : (m : Vm) (name text : String) → count is_clone (write m name text).1 ≡ 0
unfolding count
write-count m name text = ground arith

configure-count :
    (m : Vm) (token user : String) → count is_clone (configure_github_credential m token user).1 ≡ 0
unfolding configure_github_credential count
configure-count m token user = count-and_then is_clone _ _ refl (
    count-and_then is_clone _ _ refl (
      count-and_then is_clone _ _ refl (
        count-and_then is_clone _ _ refl
          (count-and_then is_clone _ _ (secure-count m _) (secure-count m _)))))

supervise-count :
    (m : Vm) (r : EnrollmentResponse) (bundle : Option String)
    → count is_clone (supervise m r bundle).1 ≡ 0
unfolding supervise count
supervise-count m r none = refl
supervise-count m r (some entrypoint) = count-and_then is_clone _ _ refl refl

start_workbench-count :
    (m : Vm) (r : EnrollmentResponse) → count is_clone (start_workbench m r).1 ≡ 0
unfolding start_workbench count
start_workbench-count m r = count-and_then is_clone _ _ refl (
    count-and_then is_clone _ _ (write-count m _ _)
      (count-and_then is_clone _ _ (write-count m _ _) (supervise-count m r _)))

prepare-count :
    (m : Vm) (p : Place) (r : EnrollmentResponse)
    → r.repository_url ≡ ""
    → count is_clone (prepare m p r).1 ≡ 0
unfolding prepare set_workspace_ownership count
prepare-count m p r blank =
    let nothing : clone_named m p r ≡ check true = rw blank refl in
    count-and_then is_clone _ _ (rw nothing refl) (
      count-and_then is_clone _ _ (count-and_then is_clone _ _ refl (change_owners-count m.walk))
        (count-and_then is_clone _ _ (configure-count m _ _) (start_workbench-count m r)))

run_agent-count :
    (getenv : String → String) (post : String → EnrollInput → HttpReply) (m : Vm)
    (public_key : String) (r : EnrollmentResponse)
    → r.repository_url ≡ ""
    → m.public_key ≡ some public_key
    → post "/api/agent/enroll" (record {
      enrollment_token = getenv "QUICKWORKS_AGENT_ENROLLMENT_TOKEN";
      public_key = public_key;
    })
      ≡ received 201 (some r)
    → count is_clone (run_agent getenv post m).1 ≡ 0
unfolding count run_agent enroll_with
run_agent-count getenv post m public_key r blank keyed replied =
    elim (Bool-cases (
      (getenv "QUICKWORKS_AGENT_CONTROL_URL" == "")
      || ((getenv "QUICKWORKS_AGENT_ENROLLMENT_TOKEN" == "")
          || (getenv "QUICKWORKS_AGENT_STATE_DIR" == "")))) [
            | inl unset ↦ rw unset refl
            | inr set ↦
                rw (set, keyed, replied)
                  (elim (Bool-cases (is_complete r)) [
                    | inl complete ↦ rw complete (prepare-count m (place_of getenv) r blank)
                    | inr partial ↦ rw partial refl
                  ])
          ]

module _ (hash : String → String) (decode : String → Option (List ℕ)) (box : Box)
    (settings : WorkbenchSettings) (getenv : String → String) where
  -- When an enrollment was answered with a clone credential and an agent starts again, with a
  -- server that answers its enrollment for the same workspace and build, then that start runs no
  -- git clone, whatever became of the first one.
  pub run_agent-no_clone :
      (session again : String) (now later : ℕ) (input : Option EnrollInput) (public_key : String)
      (db db' db'' : Database) (v v' v'' : Vault) (r r' : Registration)
      (clone clone' : CloneCredential) (token token' : String)
      (post : String → EnrollInput → HttpReply) (m : Vm)
      → enroll hash decode box session now input db v ≡ (enrolled r clone token, db', v')
      → clone.repository_url ≢ ""
      → ((path : String) (input' : EnrollInput)
          → post path input'
            ≡ reply_of settings (enroll hash decode box again later (some input') db' v').0)
      → m.public_key ≡ some public_key
      → enroll hash decode box again later
          (some (record {
            enrollment_token = getenv "QUICKWORKS_AGENT_ENROLLMENT_TOKEN";
            public_key = public_key;
          }))
          db'
          v'
        ≡ (enrolled r' clone' token', db'', v'')
      → r'.workspace_id ≡ r.workspace_id
      → r'.build_id ≡ r.build_id
      → count is_clone (run_agent getenv post m).1 ≡ 0
  unfolding run_agent enroll_with count
  run_agent-no_clone session again now later input public_key db db' db'' v v' v'' r r' clone clone'
        token token' post m first_time named posts keyed second_time same_workspace same_build =
      let anew =
        enroll_again hash decode box session again now later input _ db db' db'' v v' v'' r r' clone
          clone' token token' first_time named second_time same_workspace same_build in
      run_agent-count getenv post m public_key (response_of settings r' no_credential token') refl
        keyed (rw (posts _ _, ap (λ p. p.0) anew) refl)
