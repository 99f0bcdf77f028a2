-- ===== src/AgentHub.antt =====
-- internal/server/agenthub/agenthub.go: enrollment, sessions, heartbeats and readiness of agents.
-- `hash` stands for the hex SHA-256 of hash(); random IDs, secrets and times are arguments.
pub mod Presence
pub mod Sessions
pub mod Recovery
pub mod Examples
use quickworks.Base.{
  ℕ, ◌+◌, ◌*◌, String, Bool, true, false, ◌&&◌, ◌||◌, not, Option, none, some, List, ◌==◌,
  if◌then◌else◌, ltb, leb, nat_eq, length,
}
use quickworks.Results.{
  Result, ok, err, refuse, duplicated_key, public_key_invalid, enrollment_invalid, session_missing,
  session_invalid, ◌>>=◌, ◌>>◌,
}
use quickworks.Table.{count, first, update, insert}
use quickworks.Database.{Agent, AgentEnrollment, AgentStatus, Database}
use quickworks.Scheduler.{is_value, is_after}

pub record Enrolled : Type 0 where
  pub agent_id : String
  pub token : String

pub record Registration : Type 0 where
  pub workspace_id : String
  pub build_id : String
  pub agent_id : String
  pub session : String

abbrev pub session_seconds : ℕ
session_seconds = 15 * 60

-- The primary key and UNIQUE(workspace_id, build_id) of workspace_agents.
unfoldable pub agent_conflicts : Agent → List Agent → Bool
agent_conflicts a agents =
    ltb 0 (count (λ x. x.id == a.id) agents)
    || ltb 0 (count (λ x. (x.workspace_id == a.workspace_id) && (x.build_id == a.build_id)) agents)

unfoldable pub new_agent : String → String → String → Agent
new_agent agent_id workspace_id build_id = record {
  id = agent_id;
  workspace_id = workspace_id;
  build_id = build_id;
  public_key = List.[];
  status = AgentStatus.starting;
  session_hash = none;
  session_expires_at = none;
  last_heartbeat_at = none;
  connected_at = none;
}

-- CreateEnrollment; `next_year` is what AddDate(1, 0, 0) makes of the time.
unfoldable pub create_enrollment :
    (String → String)
    → String
    → String
    → ℕ
    → String
    → String
    → Database
    → Result (Enrolled × Database)
create_enrollment hash agent_id token next_year workspace_id build_id db = do
  let agent = new_agent agent_id workspace_id build_id
  refuse (agent_conflicts agent db.agents) duplicated_key
  refuse (ltb 0 (count (λ e. e.id_hash == hash token) db.agent_enrollments)) duplicated_key
  ok (
    record { agent_id = agent_id; token = token },
    record db {
      agents = insert agent db.agents;
      agent_enrollments =
          insert
            (record {
              id_hash = hash token;
              workspace_id = workspace_id;
              build_id = build_id;
              agent_id = agent_id;
              expires_at = next_year;
            })
            db.agent_enrollments;
    },
  )

-- id_hash = ? AND expires_at > ?
abbrev pub redeems : String → ℕ → AgentEnrollment → Bool
redeems id_hash now e = (e.id_hash == id_hash) && ltb now e.expires_at

unfoldable pub open_session : List ℕ → String → ℕ → Agent → Agent
open_session public_key session_hash now a = record a {
  public_key = public_key;
  status = AgentStatus.starting;
  session_hash = some session_hash;
  session_expires_at = some (now + session_seconds);
  last_heartbeat_at = some now;
  connected_at = some now;
}

unfoldable pub registration_of : AgentEnrollment → String → Registration
registration_of e session = record {
  workspace_id = e.workspace_id;
  build_id = e.build_id;
  agent_id = e.agent_id;
  session = session;
}

-- Register; `session` is the secret drawn for it.
unfoldable pub register :
    (String → String) → String → ℕ → String → List ℕ → Database → Result (Registration × Database)
register hash session now token public_key db =
    if not (nat_eq (length public_key) 32)
    then err public_key_invalid
    else elim (first (redeems (hash token) now) db.agent_enrollments) [
      | none ↦ err enrollment_invalid
      | some e ↦
          if e.agent_id == ""
          then err enrollment_invalid
          else ok (
            registration_of e session,
            record db {
              agents =
                  update (λ a. a.id == e.agent_id) (open_session public_key (hash session) now)
                    db.agents;
            },
          )
    ]

-- status IN ('starting', 'ready', 'degraded')
abbrev pub may_connect : AgentStatus → Bool
may_connect AgentStatus.drained = false
may_connect _ = true

abbrev pub has_session : String → String → ℕ → Agent → Bool
has_session agent_id session_hash now a =
    (a.id == agent_id)
    && (is_value session_hash a.session_hash
        && (is_after now a.session_expires_at && may_connect a.status))

-- AuthenticateSession
unfoldable pub authenticate_session :
    (String → String) → ℕ → String → String → Database → Result (Unit {0})
authenticate_session hash now agent_id session db =
    if (agent_id == "") || (session == "")
    then err session_missing
    else refuse (not (nat_eq (count (has_session agent_id (hash session) now) db.agents) 1))
        session_invalid
