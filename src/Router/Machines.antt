-- ===== src/Router/Machines.antt =====
-- internal/server/router.go: enroll and agentConnect, the requests of the agent in a started VM.
-- `decode` stands for base64; the settings of the workbench that enroll also sends are fixed.
use quickworks.Base.{
  ℕ, String, Bool, true, false, ◌&&◌, Option, none, some, List, [], ◌∷◌, ◌==◌, if◌then◌else◌,
  nat_eq,
}
use quickworks.Results.{Result, ok, err}
use quickworks.Table.{first}
use quickworks.Database.{Database, is_live}
use quickworks.AgentHub.{Registration, register, authenticate_session}
use quickworks.AgentHub.Presence.{heartbeat}
use quickworks.Auth.Credentials.{
  Box, Vault, CloneCredential, github_token, consume_clone_credential,
}
use quickworks.Connections.Registry.{TcpHub, tcp_connect, tcp_disconnect}
use quickworks.Router.{trim_prefix}

pub record EnrollInput : Type 0 where
  pub enrollment_token : String
  pub public_key : String

pub data EnrollAnswer : Type 0 where
  refused : ℕ → EnrollAnswer
  enrolled : Registration → CloneCredential → String → EnrollAnswer

-- SELECT owner_id FROM workspaces WHERE id = ? AND deleted_at IS NULL; an owner 0 is none.
unfoldable pub owner_of : String → Database → Option ℕ
owner_of workspace_id db = elim (first (λ w. (w.id == workspace_id) && is_live w) db.workspaces) [
  | none ↦ none
  | some w ↦ if nat_eq w.owner_id 0 then none else some w.owner_id
]

-- What follows a registration that succeeded.
unfoldable pub answer_registered :
    Box
    → ℕ
    → Registration
    → Database
    → Result CloneCredential × Vault
    → EnrollAnswer × Database × Vault
answer_registered box now r db (err e, v) = (refused 500, db, v)
answer_registered box now r db (ok clone, v) = elim (owner_of r.workspace_id db) [
  | none ↦ (refused 500, db, v)
  | some owner ↦ elim (github_token box owner v) [
    | err e ↦ (refused 401, db, v)
    | ok token ↦ (enrolled r clone token, db, v)
  ]
]

module _ (hash : String → String) (decode : String → Option (List ℕ)) (box : Box) where
  -- enroll
  unfoldable pub enroll :
      String → ℕ → Option EnrollInput → Database → Vault → EnrollAnswer × Database × Vault
  enroll session now none db v = (refused 400, db, v)
  enroll session now (some input) db v = elim (decode input.public_key) [
    | none ↦ (refused 400, db, v)
    | some public_key ↦ elim (register hash session now input.enrollment_token public_key db) [
      | err e ↦ (refused 401, db, v)
      | ok (r, db') ↦
          answer_registered box now r db'
            (consume_clone_credential box now r.workspace_id r.build_id v)
    ]
  ]

abbrev pub or_same : Result Database → Database → Database
or_same (ok db') db = db'
or_same (err e) db = db

-- A heartbeat whose error is dropped.
unfoldable pub ping : ℕ → String → Database → Database
ping now agent_id db = or_same (heartbeat now agent_id db) db

-- agentConnect up to its loop: whether the agent is let in, and the state after its first heartbeat.
-- `session` is the yamux session, if the WebSocket and yamux accept one.
unfoldable pub agent_connect :
    (String → String)
    → ℕ
    → String
    → String
    → Option ℕ
    → Database
    → TcpHub
    → Bool × Database × TcpHub
agent_connect hash now agent_id authorization session db hub =
    elim (authenticate_session hash now agent_id (trim_prefix "Bearer " authorization) db) [
      | err e ↦ (false, db, hub)
      | ok u ↦ elim session [
        | none ↦ (true, db, hub)
        | some n ↦ (true, ping now agent_id db, tcp_connect agent_id n hub)
      ]
    ]

-- Its loop: a heartbeat at each tick, and the end of the session.
unfoldable pub agent_loop : String → ℕ → List ℕ → Database → TcpHub → Database × TcpHub
agent_loop agent_id session [] db hub = (db, tcp_disconnect agent_id session hub)
agent_loop agent_id session (now ∷ ticks) db hub =
    agent_loop agent_id session ticks (ping now agent_id db) hub
