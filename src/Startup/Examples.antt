-- ===== src/Startup/Examples.antt =====
-- An agent that starts with an empty workspace, and one that starts again after its clone has failed.
use quickworks.Base.{◌≡◌, refl, String, true, false, some, [], ◌∷◌, ◌==◌, if◌then◌else◌}
use quickworks.Table.{count}
use quickworks.AgentHub.Examples.{plain, registration, opened, enrolled}
use quickworks.Auth.Credentials.{no_credential}
use quickworks.Auth.Examples.{open_box, url_named}
use quickworks.Router.{strip}
use quickworks.Router.Machines.{EnrollInput, enroll}
use quickworks.Router.Visits.{
  decode, vault, enroll_input, clone, spent, again, twice_spent, enrolls, enrolls_again,
}
use quickworks.Startup.{
  EnrollmentResponse, HttpReply, received, is_complete, enroll_with, and_then, Vm, clone_into,
  clone_repository, change_owners, set_workspace_ownership, configure_github_credential, supervise,
  start_workbench, prepare, environment_or_default, place_of, run_agent,
}
use quickworks.Startup.Prepared.{IsStarted, run_agent-IsStarted}
use quickworks.Startup.Restarted.{
  WorkbenchSettings, response_of, reply_of, is_clone, run_agent-no_clone,
}

abbrev getenv : String → String
getenv name =
    if name == "QUICKWORKS_AGENT_ENROLLMENT_TOKEN"
    then "token"
    else (if (name == "QUICKWORKS_AGENT_CONTROL_URL")
        then "https://quick.works"
        else (if name == "QUICKWORKS_AGENT_STATE_DIR" then "/var/lib/quickworks" else ""))

abbrev settings : WorkbenchSettings
settings = record {
  version = "1.0.0";
  bundle_url = "https://quick.works/workbench.tar.gz";
  bundle_sha = "00";
  entrypoint = "bin/workbench";
  byok_config = "{}";
  environment = "";
}

abbrev machine : Vm
machine = record {
  public_key = some "key";
  has_git = false;
  makes_workspace = true;
  entries = some [];
  has_askpass = true;
  git = λ arguments. true;
  home = some "/home/workspace";
  has_group = true;
  walk = ("/workspace", true) ∷ [];
  secures = λ name. true;
  makes_configuration = true;
  writes = λ name. true;
  install = λ url sha entrypoint. some "/opt/workbench";
  has_executable = true;
}

abbrev response : EnrollmentResponse
response = response_of settings registration clone "gh"

abbrev post_first : String → EnrollInput → HttpReply
post_first address input = received 201 (some response)

starts : (run_agent getenv post_first machine).0 ≡ true
unfolding run_agent enroll_with prepare and_then clone_repository clone_into set_workspace_ownership
    change_owners configure_github_credential start_workbench supervise environment_or_default strip
starts = refl

run_agent-IsStarted_example :
    (public_key : String) × (r : EnrollmentResponse) × (machine.public_key ≡ some public_key)
    × (post_first "/api/agent/enroll" (record {
      enrollment_token = getenv "QUICKWORKS_AGENT_ENROLLMENT_TOKEN";
      public_key = public_key;
    })
        ≡ received 201 (some r))
    × (is_complete r ≡ true)
    × IsStarted machine (place_of getenv) r (run_agent getenv post_first machine).1
run_agent-IsStarted_example = run_agent-IsStarted getenv post_first machine starts

abbrev post_again : String → EnrollInput → HttpReply
post_again address input =
    reply_of settings (enroll plain decode open_box "again" 500 (some input) opened spent).0

run_agent-no_clone_example : count is_clone (run_agent getenv post_again machine).1 ≡ 0
run_agent-no_clone_example =
    run_agent-no_clone plain decode open_box settings getenv "session" "again" 110 500
      (some enroll_input) "key" enrolled opened again vault spent twice_spent registration
      (record registration { session = "again" }) clone no_credential "gh" "gh" post_again machine
      enrolls url_named (λ address input. refl) refl enrolls_again refl refl

-- The second start supervises a Workbench all the same.
starts_again_test : (run_agent getenv post_again machine).0 ≡ true
unfolding run_agent enroll_with prepare and_then set_workspace_ownership change_owners
    configure_github_credential start_workbench supervise environment_or_default strip
starts_again_test = rw (enroll_with, enrolls_again) refl
