-- ===== src/Router/Browser.antt =====
-- internal/server/router.go: the handlers create, transition, builds and logs of a signed-in user.
-- `fetch` stands for the look-up of a repository at GitHub; JSON and form decoding is done before.
use Prim.Native.String
use quickworks.Base.{
  ℕ, String, Bool, ◌&&◌, Option, none, some, List, [], ◌∷◌, ◌==◌, if◌then◌else◌, any, leb, ltb,
}
use quickworks.Results.{Error, ok, err, not_found}
use quickworks.Table.{select, sort}
use quickworks.Text.{bytes, split}
use quickworks.Database.{Workspace, Build, BuildLog, Database}
use quickworks.Workspaces.{Service}
use quickworks.Workspaces.Create.{Repository, Draw, Created, create_repository_idempotent}
use quickworks.Workspaces.Transitions.{transition}
use quickworks.Workspaces.Queries.{builds_of, owns_build}
use quickworks.Auth.Credentials.{Box, Vault, create_clone_credential}

pub record Catalog : Type 0 where
  pub default_template : String
  pub names : List String

pub record CreateInput : Type 0 where
  pub name : String
  pub template : String
  pub repository : String

-- What GitHub knows of a repository.
pub record Found : Type 0 where
  pub repository : Repository
  pub clone_url : String

pub data Answer : Type 0 where
  refused : ℕ → Answer
  see_other : String → Answer
  accepted : Workspace → Build → Answer
  accepted_build : Build → Answer
  listed : List Build → Answer

-- `template`
unfoldable pub template : Catalog → String → Option String
template c name =
    if name == ""
    then some c.default_template
    else (if any (λ n. n == name) c.names then some name else none)

-- resolveRepository, of the parts of strings.Split(value, "/")
unfoldable pub resolve_parts :
    (ℕ → List ℕ → List ℕ → Option Found) → ℕ → List (List ℕ) → Option Found
resolve_parts fetch user_id ([] ∷ name ∷ []) = none
resolve_parts fetch user_id (owner ∷ [] ∷ []) = none
resolve_parts fetch user_id (owner ∷ name ∷ []) = fetch user_id owner name
resolve_parts fetch user_id _ = none

unfoldable pub resolve_repository : (ℕ → List ℕ → List ℕ → Option Found) → ℕ → String → Option Found
resolve_repository fetch user_id value = resolve_parts fetch user_id (split b'/' (bytes value))

-- The text that the request hash is taken of; `nul` is the byte 0 between its parts.
unfoldable pub request_text : String → CreateInput → String → String
request_text nul input template_name =
    String.◌++◌ input.name
      (String.◌++◌ nul (String.◌++◌ template_name (String.◌++◌ nul input.repository)))

abbrev pub workbench_of : String → String
workbench_of id = String.◌++◌ "/w/" (String.◌++◌ id "/")

-- The random values of a creation, its nonce and the ID of the clone credential.
pub record CreateDraw : Type 0 where
  pub attempts : ℕ → Draw
  pub nonce : List ℕ
  pub now : ℕ
  pub credential_id : String

abbrev pub answer_created : Bool → Workspace → Build → Answer
answer_created json w b = if json then accepted w b else see_other (workbench_of w.id)

module _ (s : Service) (catalog : Catalog) (box : Box) (hash : String → String) (nul : String)
    (fetch : ℕ → List ℕ → List ℕ → Option Found) (d : CreateDraw) (user_id : ℕ) where
  -- After a creation that succeeded: the clone credential, and the answer.
  unfoldable pub after_create : Bool → Option Found → Created → Vault → Answer × Database × Vault
  after_create json none ((w, b), db) v = (answer_created json w b, db, v)
  after_create json (some found) ((w, b), db) v =
      if found.clone_url == ""
      then (answer_created json w b, db, v)
      else elim (create_clone_credential box d.nonce d.now d.credential_id w.id b.id user_id
          found.clone_url v) [
            | err e ↦ (refused 500, db, v)
            | ok v' ↦ (answer_created json w b, db, v')
          ]

  unfoldable pub create_from :
      Bool
      → String
      → CreateInput
      → String
      → Option Found
      → Database
      → Vault
      → Answer × Database × Vault
  create_from json key input template_name found db v =
      elim (create_repository_idempotent s d.attempts key
        (hash (request_text nul input template_name))
        (record {
          owner_id = user_id;
          name = input.name;
          template_name = template_name;
          repository = elim found [ none ↦ none | some f ↦ some f.repository ];
        })
        db) [ err e ↦ (refused 409, db, v) | ok created ↦ after_create json found created v ]

  -- create; `json` tells the two content types apart, a body that does not decode is none.
  unfoldable pub create_workspace :
      Bool → String → Option CreateInput → Database → Vault → Answer × Database × Vault
  create_workspace json key none db v = (refused 400, db, v)
  create_workspace json key (some input) db v = elim (template catalog input.template) [
    | none ↦ (refused 400, db, v)
    | some template_name ↦
        if input.repository == ""
        then create_from json key input template_name none db v
        else elim (resolve_repository fetch user_id input.repository) [
          | none ↦ (refused 422, db, v)
          | some found ↦ create_from json key input template_name (some found) db v
        ]
  ]

-- 404 for gorm.ErrRecordNotFound, and another status for any other error
abbrev pub status_of : ℕ → Error → ℕ
status_of other not_found = 404
status_of other _ = other

-- transition; `html` tells whether the client accepts a page, `back` whether it came from the workbench.
unfoldable pub answer_transition : Bool → Bool → String → Build → Answer
answer_transition html back id b =
    if html then (if back then see_other (workbench_of id) else see_other "/") else accepted_build b

unfoldable pub change_state :
    Service → String → String → ℕ → ℕ → Bool → Bool → String → Database → Answer × Database
change_state s kind build_id now user_id html back id db =
    elim (transition s kind build_id now user_id id db) [
      | ok (b, db') ↦ (answer_transition html back id b, db')
      | err e ↦ (refused (status_of 409 e), db)
    ]

-- builds
unfoldable pub list_builds : ℕ → String → Database → Answer
list_builds user_id id db = elim (builds_of user_id id db) [
  | ok builds ↦ listed builds
  | err e ↦ refused (status_of 500 e)
]

-- One round of the loop of `logs`: the entries behind `sequence`, in order; none without ownership.
unfoldable pub next_logs : ℕ → String → ℕ → Database → Option (List BuildLog)
next_logs user_id build_id sequence db =
    if owns_build user_id build_id db
    then some (
        sort (λ a b. leb a.sequence b.sequence)
          (select (λ e. (e.build_id == build_id) && ltb sequence e.sequence) db.build_logs))
    else none
