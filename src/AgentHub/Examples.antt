-- ===== src/AgentHub/Examples.antt =====
-- One agent from its enrollment to a missed heartbeat and back.
use quickworks.Base.{ℕ, ◌≡◌, ◌≢◌, refl, String, List, [], ◌∷◌, arith, eq_iff}
use quickworks.Results.{ok}
use quickworks.Table.{count, first, update, insert}
use quickworks.Database.{Agent, Observed, Transition, Database}
use quickworks.AgentHub.{
  Registration, create_enrollment, register, authenticate_session, agent_conflicts, new_agent,
  open_session, registration_of,
}
use quickworks.AgentHub.Presence.{set_observed, ready_now}
use quickworks.AgentHub.Sessions.{enrollment_of, register_replaces}
use quickworks.Workspaces.Transitions.{mark}
use quickworks.Workspaces.Examples.{started, idle_workspace}

abbrev pub plain : String → String
plain s = s

abbrev pub zero_key : List ℕ
zero_key =
    0 ∷ 0 ∷ 0 ∷ 0 ∷ 0 ∷ 0 ∷ 0 ∷ 0 ∷ 0 ∷ 0 ∷ 0 ∷ 0 ∷ 0 ∷ 0 ∷ 0 ∷ 0 ∷ 0 ∷ 0 ∷ 0 ∷ 0 ∷ 0 ∷ 0 ∷ 0 ∷ 0
    ∷ 0 ∷ 0 ∷ 0 ∷ 0 ∷ 0 ∷ 0 ∷ 0 ∷ 0 ∷ []

abbrev pub enrolled : Database
enrolled = record started {
  agents = new_agent "a1" "calm-kind-orbit" "b2" ∷ [];
  agent_enrollments = enrollment_of plain "a1" "token" 1000 "calm-kind-orbit" "b2" ∷ [];
}

enrolls :
    create_enrollment plain "a1" "token" 1000 "calm-kind-orbit" "b2" started
    ≡ ok (record { agent_id = "a1"; token = "token" }, enrolled)
unfolding create_enrollment agent_conflicts count insert
enrolls = refl

abbrev pub registration : Registration
registration = record {
  workspace_id = "calm-kind-orbit";
  build_id = "b2";
  agent_id = "a1";
  session = "session";
}

abbrev pub opened : Database
opened = record enrolled {
  agents = open_session zero_key "session" 110 (new_agent "a1" "calm-kind-orbit" "b2") ∷ [];
}

registers : register plain "session" 110 "token" zero_key enrolled ≡ ok (registration, opened)
unfolding register first update registration_of new_agent
registers = refl

named : ◌≢◌ {A = String} "a1" ""
named = ground (arith, eq_iff "a1" "")

pub session_named : ◌≢◌ {A = String} "session" ""
session_named = ground (arith, eq_iff "session" "")

hashes_differ : ◌≢◌ {A = String} "old" "session"
hashes_differ = ground (arith, eq_iff "old" "session")

register_replaces_example : authenticate_session plain 200 "a1" "old" opened ≢ ok tt
register_replaces_example =
    register_replaces plain "session" 110 "token" zero_key enrolled registration opened 200 "old"
      registers hashes_differ

abbrev opened_agent : Agent
opened_agent = open_session zero_key "session" 110 (new_agent "a1" "calm-kind-orbit" "b2")

abbrev ready_agent : Agent
ready_agent = ready_now 120 opened_agent

abbrev pub serving : Database
serving = record opened {
  agents = ready_agent ∷ [];
  workspaces = set_observed Observed.running 120 (mark Transition.start 100 idle_workspace) ∷ [];
}
