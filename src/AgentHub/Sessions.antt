-- ===== src/AgentHub/Sessions.antt =====
-- internal/server/agenthub/agenthub.go: what an enrollment and a registration lead to.
use mathlib.Core.Path.{subst}
use quickworks.Base.{
  ℕ, ◌+◌, ◌<◌, ◌≡◌, ◌≢◌, refl, String, some, List, ◌==◌, arith, length, eq_iff, eq_refl,
  Option-cases, inl, inr,
}
use quickworks.Results.{ok}
use quickworks.Table.{count, first, update, insert}
use quickworks.Table.Keys.{first-insert, count-zero_mono}
use quickworks.Table.Rows.{count-update_none}
use quickworks.Table.Changes.{count-update_onto}
use quickworks.Database.{AgentEnrollment, Database}
use quickworks.AgentHub.{
  Enrolled, Registration, session_seconds, create_enrollment, redeems, open_session,
  registration_of, register, has_session, authenticate_session,
}

-- What a registration that succeeds has found and done.
record Registered (hash : String → String) (session : String) (now : ℕ) (token : String)
    (public_key : List ℕ) (db : Database) (r : Registration) (db' : Database) (e : AgentEnrollment)
    : Type 0 where
  pub found : first (redeems (hash token) now) db.agent_enrollments ≡ some e
  pub named : e.agent_id ≢ ""
  pub answer : r ≡ registration_of e session
  pub after : db' ≡ record db {
    agents =
        update (λ a. a.id == e.agent_id) (open_session public_key (hash session) now) db.agents;
  }

registered :
    (hash : String → String) (session : String) (now : ℕ) (token : String) (public_key : List ℕ)
    (db : Database) (r : Registration) (db' : Database)
    → register hash session now token public_key db ≡ ok (r, db')
    → (e : AgentEnrollment) × Registered hash session now token public_key db r db' e
unfolding register
registered hash session now token public_key db r db' h =
    elim (Option-cases (first (redeems (hash token) now) db.agent_enrollments)) [
      | inl absent ↦ absurd (ground arith)
      | inr (e, found) ↦ (
        e,
        record {
          found = found;
          named = ground (arith, eq_iff e.agent_id "");
          answer = ground arith;
          after = ground arith;
        },
      )
    ]

module _ (hash : String → String) (session : String) (now : ℕ) (token : String)
    (public_key : List ℕ) (db : Database) (r : Registration) (db' : Database) where
  session_counts :
      (id : String) (later : ℕ)
      → later < now + session_seconds
      → count
          (has_session id (hash session) later)
          (update (λ a. a.id == id) (open_session public_key (hash session) now) db.agents)
        ≡ count (λ a. a.id == id) db.agents
  unfolding open_session
  session_counts id later early =
      count-update_onto _ _ _ _ db.agents (λ a. ground (arith, eq_refl (hash session)))

  old_counts :
      (id : String) (later : ℕ) (old : String)
      → hash old ≢ hash session
      → count
          (has_session id (hash old) later)
          (update (λ a. a.id == id) (open_session public_key (hash session) now) db.agents)
        ≡ 0
  unfolding open_session
  old_counts id later old differs =
      count-update_none _ _ _ db.agents (λ a same. ground (arith, eq_iff (hash session) (hash old)))
        (λ a other. ground arith)

  -- If a registration succeeds, the session that it draws is not empty and the agent has exactly
  -- one row, then the session authenticates the agent at any time within fifteen minutes.
  pub register_authenticates :
      (later : ℕ)
      → register hash session now token public_key db ≡ ok (r, db')
      → session ≢ ""
      → count (λ a. a.id == r.agent_id) db.agents ≡ 1
      → later < now + session_seconds
      → authenticate_session hash later r.agent_id session db' ≡ ok tt
  unfolding authenticate_session open_session registration_of
  register_authenticates later h secret one early =
      let (e, done) = registered hash session now token public_key db r db' h in
      rw (done.after, done.answer)
        (ground (
          arith,
          session_counts e.agent_id later early,
          eq_iff e.agent_id "",
          eq_iff session "",
          done.named,
          subst (λ x. count (λ a. a.id == x.agent_id) db.agents ≡ 1) done.answer one,
        ))

  -- A registration that succeeds ends the agent's earlier sessions: a secret with another hash than
  -- the new session's does not authenticate the agent any more.
  pub register_replaces :
      (later : ℕ) (old : String)
      → register hash session now token public_key db ≡ ok (r, db')
      → hash old ≢ hash session
      → authenticate_session hash later r.agent_id old db' ≢ ok tt
  unfolding authenticate_session open_session registration_of
  register_replaces later old h differs =
      let (e, done) = registered hash session now token public_key db r db' h in
      rw (done.after, done.answer) (ground (arith, old_counts e.agent_id later old differs))

-- What a registration needs: a key of 32 bytes and an enrollment under the token that has not run out.
register_succeeds :
    (hash : String → String) (session : String) (now : ℕ) (token : String) (public_key : List ℕ)
    (db : Database) (e : AgentEnrollment)
    → length public_key ≡ 32
    → first (redeems (hash token) now) db.agent_enrollments ≡ some e
    → e.agent_id ≢ ""
    → (db' : Database) × (register hash session now token public_key db
        ≡ ok (registration_of e session, db'))
      × (db'.agent_enrollments ≡ db.agent_enrollments)
register_succeeds hash session now token public_key db e sized found named = (
  record db {
    agents =
        update (λ a. a.id == e.agent_id) (open_session public_key (hash session) now) db.agents;
  },
  unfold register in (ground (arith, eq_iff e.agent_id "")),
  refl,
)

abbrev pub enrollment_of :
    (String → String) → String → String → ℕ → String → String → AgentEnrollment
enrollment_of hash agent_id token next_year workspace_id build_id = record {
  id_hash = hash token;
  workspace_id = workspace_id;
  build_id = build_id;
  agent_id = agent_id;
  expires_at = next_year;
}

enrollment_found :
    (hash : String → String) (agent_id token : String) (next_year : ℕ)
    (workspace_id build_id : String) (db : Database) (r : Enrolled) (db' : Database) (now : ℕ)
    → create_enrollment hash agent_id token next_year workspace_id build_id db ≡ ok (r, db')
    → now < next_year
    → first (redeems (hash token) now) db'.agent_enrollments
      ≡ some (enrollment_of hash agent_id token next_year workspace_id build_id)
enrollment_found hash agent_id token next_year workspace_id build_id db r db' now h early =
    rw inserted (
      first-insert (redeems (hash token) now) _ db.agent_enrollments
        (count-zero_mono _ (λ e. e.id_hash == hash token) db.agent_enrollments (λ e. ground arith)
          unused)
        (ground (arith, eq_refl (hash token))))
  where
    unused : count (λ e. e.id_hash == hash token) db.agent_enrollments ≡ 0
    unused = unfold create_enrollment in (ground arith)

    inserted :
        db'.agent_enrollments
        ≡ insert
            (enrollment_of hash agent_id token next_year workspace_id build_id)
            db.agent_enrollments
    inserted = unfold create_enrollment in (ground arith)

-- A token that an enrollment was created for registers a 32-byte key at any time before the
-- enrollment runs out, and registers again, at any such time, afterwards: both answers name the
-- workspace, the build and the agent, each with its own session.
pub enrolled_registers :
    (hash : String → String) (agent_id token : String) (next_year : ℕ)
    (workspace_id build_id : String) (db : Database) (r : Enrolled) (db' : Database)
    (session again : String) (now later : ℕ) (public_key : List ℕ)
    → create_enrollment hash agent_id token next_year workspace_id build_id db ≡ ok (r, db')
    → agent_id ≢ ""
    → length public_key ≡ 32
    → now < next_year
    → later < next_year
    → (once : Database) × (twice : Database) × (register hash session now token public_key db'
        ≡ ok (
          record {
            workspace_id = workspace_id;
            build_id = build_id;
            agent_id = agent_id;
            session = session;
          },
          once,
        ))
      × (register hash again later token public_key once
          ≡ ok (
            record {
              workspace_id = workspace_id;
              build_id = build_id;
              agent_id = agent_id;
              session = again;
            },
            twice,
          ))
enrolled_registers hash agent_id token next_year workspace_id build_id db r db' session again now
      later public_key h named sized early early' =
    let e : AgentEnrollment = enrollment_of hash agent_id token next_year workspace_id build_id in
    let (once, e1, same) =
      register_succeeds hash session now token public_key db' e sized (found now early) named in
    let (twice, e2, kept) =
      register_succeeds hash again later token public_key once e sized
        (rw same (found later early')) named in
    (once, twice, unfold registration_of in e1, unfold registration_of in e2)
  where
    found :
        (at_time : ℕ)
        → at_time < next_year
        → first (redeems (hash token) at_time) db'.agent_enrollments
          ≡ some (enrollment_of hash agent_id token next_year workspace_id build_id)
    found at_time valid =
        enrollment_found hash agent_id token next_year workspace_id build_id db r db' at_time h
          valid
