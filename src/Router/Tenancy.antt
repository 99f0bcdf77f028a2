-- ===== src/Router/Tenancy.antt =====
-- What the handlers of a signed-in user keep of everyone's tables, and of another user's workspace.
use quickworks.Base.{
  ℕ, ◌≡◌, refl, String, Bool, Option, none, some, List, arith, Bool-cases, Option-cases, inl, inr,
  ◌==◌,
}
use quickworks.Results.{ok, Result-cases}
use quickworks.Table.{count}
use quickworks.Table.Counts.{first-none}
use quickworks.Database.{Build, Database, Transition}
use quickworks.Workspaces.{Service}
use quickworks.Workspaces.Create.{Created, Request, create_repository_idempotent}
use quickworks.Workspaces.Transitions.{parse_transition, owned_by, transition_to, transition}
use quickworks.Workspaces.Outcomes.{IsGood, create_repository_idempotent-IsGood}
use quickworks.Workspaces.Soundness.{transition_to-IsSound}
use quickworks.Workspaces.Quotas.{transition_to-WithinQuota}
use quickworks.Auth.Credentials.{Box, Vault}
use quickworks.Router.Browser.{
  Catalog, CreateInput, Found, CreateDraw, refused, template, resolve_repository, request_text,
  after_create, create_from, create_workspace, change_state,
}

module _ (s : Service) (catalog : Catalog) (box : Box) (hash : String → String) (nul : String)
    (fetch : ℕ → List ℕ → List ℕ → Option Found) (d : CreateDraw) (user_id : ℕ) where
  -- Storing the clone credential leaves the tables of workspaces and builds as they are.
  after_create-same :
      (json : Bool) (found : Option Found) (c : Created) (v : Vault)
      → (after_create s catalog box hash nul fetch d user_id json found c v).1 ≡ c.1
  unfolding after_create
  after_create-same json none ((w, b), db) v = refl
  after_create-same json (some found) ((w, b), db) v = ground arith

  request : Option Found → String → CreateInput → Request
  request found template_name input = record {
    owner_id = user_id;
    name = input.name;
    template_name = template_name;
    repository = elim found [ none ↦ none | some f ↦ some f.repository ];
  }

  create_from-IsGood :
      (json : Bool) (key : String) (input : CreateInput) (template_name : String)
      (found : Option Found) (db : Database) (v : Vault) (owner : ℕ) (template : String)
      → IsGood s owner template db
      → IsGood s owner template
          (create_from s catalog box hash nul fetch d user_id json key input template_name found db
            v).1
  unfolding create_from request
  create_from-IsGood json key input template_name found db v owner template good =
      elim (Result-cases (
        create_repository_idempotent s d.attempts key (hash (request_text nul input template_name))
          (request found template_name input) db)) [
            | inl (c, made) ↦
                rw (made, create_from)
                  (rw (after_create-same json found c v) (
                    create_repository_idempotent-IsGood s owner template d.attempts key _
                      (request found template_name input) db c made good))
            | inr (e, failed) ↦ rw (failed, create_from) good
          ]

  -- If the tables are sound and an owner is within the quotas of a template, both hold after any
  -- creation request of any user, whatever it holds and however it is answered, the clone
  -- credential included.
  pub create_workspace-IsGood :
      (json : Bool) (key : String) (input : Option CreateInput) (db : Database) (v : Vault)
      (owner : ℕ) (name : String)
      → IsGood s owner name db
      → IsGood s owner name
          (create_workspace s catalog box hash nul fetch d user_id json key input db v).1
  unfolding create_workspace
  create_workspace-IsGood json key none db v owner name good = good
  create_workspace-IsGood json key (some input) db v owner name good =
      elim (Option-cases (template catalog input.template)) [
        | inl unknown ↦ rw (unknown, create_workspace) good
        | inr (t, known) ↦
            rw (known, create_workspace)
              (elim (Bool-cases (input.repository == "")) [
                | inl plain ↦
                    rw plain (create_from-IsGood json key input t none db v owner name good)
                | inr named ↦
                    rw named
                      (elim (Option-cases (resolve_repository fetch user_id input.repository)) [
                        | inl missing ↦ rw missing good
                        | inr (f, found) ↦
                            rw found
                              (create_from-IsGood json key input t (some f) db v owner name good)
                      ])
              ])
      ]

transition-IsGood :
    (s : Service) (kind build_id : String) (now user_id : ℕ) (id : String) (db : Database)
    (b : Build) (db' : Database) (owner : ℕ) (name : String)
    → transition s kind build_id now user_id id db ≡ ok (b, db')
    → IsGood s owner name db
    → IsGood s owner name db'
transition-IsGood s kind build_id now user_id id db b db' owner name moved (sound, within) =
    elim (Option-cases (parse_transition kind)) [
      | inl unknown ↦ absurd (unfold transition in (ground arith))
      | inr (t, known) ↦
          let went : transition_to s t build_id now user_id id db ≡ ok (b, db') =
            unfold transition in (ground arith) in
          (
            transition_to-IsSound s t build_id now user_id id db b db' went sound,
            transition_to-WithinQuota s t build_id now user_id id db b db' owner name went sound
                within,
          )
    ]

-- If the tables are sound and an owner is within the quotas of a template, both hold after any
-- start, stop or delete request of any user, however it is answered.
pub change_state-IsGood :
    (s : Service) (kind build_id : String) (now user_id : ℕ) (html back : Bool) (id : String)
    (db : Database) (owner : ℕ) (name : String)
    → IsGood s owner name db
    → IsGood s owner name (change_state s kind build_id now user_id html back id db).1
unfolding change_state
change_state-IsGood s kind build_id now user_id html back id db owner name good =
    elim (Result-cases (transition s kind build_id now user_id id db)) [
      | inl ((b, db'), moved) ↦
          rw (moved, change_state)
            (transition-IsGood s kind build_id now user_id id db b db' owner name moved good)
      | inr (e, failed) ↦ rw (failed, change_state) good
    ]

-- A start, stop or delete request for a workspace that is not a live one of the user is answered
-- with 404 and changes nothing.
pub change_state-foreign :
    (s : Service) (kind build_id : String) (now user_id : ℕ) (html back : Bool) (id : String)
    (db : Database) (t : Transition)
    → parse_transition kind ≡ some t
    → count (owned_by user_id id) db.workspaces ≡ 0
    → change_state s kind build_id now user_id html back id db ≡ (refused 404, db)
unfolding change_state transition transition_to
change_state-foreign s kind build_id now user_id html back id db t known foreign =
    ground (arith, first-none (owned_by user_id id) db.workspaces foreign)
