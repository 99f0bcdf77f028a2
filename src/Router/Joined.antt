-- ===== src/Router/Joined.antt =====
-- internal/server/router.go: from an enrollment to a tunnel, and the clone credential on the way.
use Prim.Native.String
use text.Mathlib.TextLemmas.{nil-append, cons-append}
use quickworks.Base.{
  ℕ, ◌+◌, ◌<◌, ◌≡◌, ◌≢◌, ap, refl, String, true, false, Option, none, some, List, ◌==◌, arith,
  Option-cases, inl, inr,
}
use quickworks.Base.Maps.{find, find-put_self}
use quickworks.Results.{Result, ok, err, Result-cases}
use quickworks.Table.{count}
use quickworks.Database.{Database}
use quickworks.AgentHub.{Registration, register, session_seconds}
use quickworks.AgentHub.Sessions.{register_authenticates}
use quickworks.Auth.Credentials.{
  Box, Vault, CloneCredential, no_credential, github_token, consume_clone_credential,
}
use quickworks.Auth.Consumed.{consume_once}
use quickworks.Connections.Registry.{TcpHub, tcp_connect, dial_context}
use quickworks.Router.{trim_prefix, strip}
use quickworks.Router.Machines.{
  EnrollInput, enrolled, owner_of, answer_registered, enroll, agent_connect, ping,
}

pub strip-append : (p s : String) → strip p (String.◌++◌ p s) ≡ some s
unfolding strip
strip-append String.[] s = rw (nil-append s) refl
strip-append (String.◌∷◌ c p) s = rw (cons-append c p s) (ground (arith, strip-append p s))

trim_prefix-append : (p s : String) → trim_prefix p (String.◌++◌ p s) ≡ s
unfolding trim_prefix
trim_prefix-append p s = rw (strip-append p s, trim_prefix) refl

dials :
    (agent_id : String) (n : ℕ) (hub : TcpHub)
    → hub.is_closed n ≡ false
    → find agent_id hub.sessions ≢ some n
    → dial_context agent_id (tcp_connect agent_id n hub) ≡ some n
unfolding tcp_connect dial_context
dials agent_id n hub live fresh = ground (arith, find-put_self agent_id n hub.sessions)

module _ (hash : String → String) (decode : String → Option (List ℕ)) (box : Box) where
  -- The parts of an enrollment that was answered with 201.
  record Joined (session : String) (now : ℕ) (db : Database) (v : Vault) (r : Registration)
      (clone : CloneCredential) (token : String) (db' : Database) (v' : Vault) : Type 0 where
    input : EnrollInput
    public_key : List ℕ
    registered : register hash session now input.enrollment_token public_key db ≡ ok (r, db')
    consumed : consume_clone_credential box now r.workspace_id r.build_id v ≡ (ok clone, v')

  answered :
      (now : ℕ) (r r' : Registration) (db db' : Database) (c : Result CloneCredential × Vault)
      (clone : CloneCredential) (token : String) (v' : Vault)
      → answer_registered box now r db c ≡ (enrolled r' clone token, db', v')
      → (r ≡ r') × (db ≡ db') × (c ≡ (ok clone, v'))
  unfolding answer_registered
  answered now r r' db db' (err e, v) clone token v' h = absurd (ground arith)
  answered now r r' db db' (ok c, v) clone token v' h =
      elim (Option-cases (owner_of r.workspace_id db)) [
        | inl nobody ↦ absurd (ground arith)
        | inr (owner, found) ↦ elim (Result-cases (github_token box owner v)) [
          | inl (t, known) ↦ ground arith
          | inr (e, unknown) ↦ absurd (ground arith)
        ]
      ]

  enroll-Joined :
      (session : String) (now : ℕ) (input : Option EnrollInput) (db db' : Database) (v v' : Vault)
      (r : Registration) (clone : CloneCredential) (token : String)
      → enroll hash decode box session now input db v ≡ (enrolled r clone token, db', v')
      → Joined session now db v r clone token db' v'
  unfolding enroll
  enroll-Joined session now none db db' v v' r clone token h = absurd (ground arith)
  enroll-Joined session now (some input) db db' v v' r clone token h =
      elim (Option-cases (decode input.public_key)) [
        | inl bad ↦ absurd (ground arith)
        | inr (public_key, decoded) ↦
            elim (Result-cases (register hash session now input.enrollment_token public_key db)) [
              | inr (e, refusal) ↦ absurd (ground arith)
              | inl ((r', db''), accepted) ↦
                  let (same_r, same_db, consumed) =
                    answered now r' r db'' db'
                      (consume_clone_credential box now r'.workspace_id r'.build_id v) clone token
                      v' (ground arith) in
                  record {
                    input = input;
                    public_key = public_key;
                    registered = rw (accepted, same_r, same_db) refl;
                    consumed = rw same_r at consumed;
                  }
            ]
      ]

  -- After an enrollment answered with 201 under a non-empty session, of an agent whose ID is
  -- unique, the agent connects with that session before it runs out, as long as its yamux session
  -- is live and new, and the hub then dials it through that session.
  pub enroll-connects :
      (session : String) (now later n : ℕ) (input : Option EnrollInput) (db db' : Database)
      (v v' : Vault) (r : Registration) (clone : CloneCredential) (token : String) (hub : TcpHub)
      → enroll hash decode box session now input db v ≡ (enrolled r clone token, db', v')
      → session ≢ ""
      → count (λ a. a.id == r.agent_id) db.agents ≡ 1
      → later < now + session_seconds
      → hub.is_closed n ≡ false
      → find r.agent_id hub.sessions ≢ some n
      → agent_connect hash later r.agent_id (String.◌++◌ "Bearer " session) (some n) db' hub
          ≡ (true, ping later r.agent_id db', tcp_connect r.agent_id n hub)
        × (dial_context r.agent_id (tcp_connect r.agent_id n hub) ≡ some n)
  unfolding agent_connect
  enroll-connects session now later n input db db' v v' r clone token hub h secret one early live
        fresh =
      let joined = enroll-Joined session now input db db' v v' r clone token h in
      (
        rw (trim_prefix-append "Bearer " session, agent_connect)
            (rw
              (register_authenticates hash session now joined.input.enrollment_token
                joined.public_key db r db' later joined.registered secret one early)
              refl),
        dials r.agent_id n hub live fresh,
      )

  -- When an enrollment was answered with a clone credential, a later enrollment that is answered
  -- for the same workspace and build, of any agent, is answered without a repository and token to
  -- clone.
  pub enroll_again :
      (session again : String) (now later : ℕ) (input input' : Option EnrollInput)
      (db db' db'' : Database) (v v' v'' : Vault) (r r' : Registration)
      (clone clone' : CloneCredential) (token token' : String)
      → enroll hash decode box session now input db v ≡ (enrolled r clone token, db', v')
      → clone.repository_url ≢ ""
      → enroll hash decode box again later input' db' v' ≡ (enrolled r' clone' token', db'', v'')
      → r'.workspace_id ≡ r.workspace_id
      → r'.build_id ≡ r.build_id
      → enroll hash decode box again later input' db' v'
        ≡ (enrolled r' no_credential token', db'', v'')
  enroll_again session again now later input input' db db' db'' v v' v'' r r' clone clone' token
        token' h named h' same_workspace same_build =
      let joined = enroll-Joined session now input db db' v v' r clone token h in
      let joined' = enroll-Joined again later input' db' db'' v' v'' r' clone' token' h' in
      let once : (consume_clone_credential box later r.workspace_id r.build_id v').0
          ≡ ok no_credential =
        rw (ap (λ p. p.1) joined.consumed) at (
          consume_once box now later r.workspace_id r.build_id v clone
            (ap (λ p. p.0) joined.consumed) named) in
      let twice : (consume_clone_credential box later r.workspace_id r.build_id v').0 ≡ ok clone' =
        rw (same_workspace, same_build) at (ap (λ p. p.0) joined'.consumed) in
      let blank : clone' ≡ no_credential = cc in rw blank at h'
