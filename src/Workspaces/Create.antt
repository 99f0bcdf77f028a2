-- ===== src/Workspaces/Create.antt =====
-- internal/server/workspace/service.go: Create, CreateIdempotent and CreateRepositoryIdempotent.
-- A transaction that fails leaves the database as it was, so only a success carries a new one.
use Prim.Native.String
use quickworks.Base.{
  ℕ, zero, suc, ◌+◌, ◌*◌, String, Bool, true, ◌&&◌, Option, none, some, List, ◌==◌, not,
  if◌then◌else◌, ltb, nat_eq, ℤ, is_positive,
}
use quickworks.Results.{
  Error, Result, ok, err, refuse, is_duplicated_key, repository_invalid, not_found, key_reused,
  display_name_too_long, name_space_exhausted, key_too_long, retry_limit, duplicated_key, ◌>>=◌,
  ◌>>◌,
}
use quickworks.Table.{count, select, first, insert}
use quickworks.Table
use quickworks.Database.{
  Workspace, Build, IdempotencyKey, Database, SourceType, Desired, Observed, Status, Transition,
  is_live, insert_workspace, insert_build,
}
use quickworks.Workspaces.{Service, check_create_quota}
use quickworks.Workspaces.Names.{pet_name}

pub record Repository : Type 0 where
  pub id : ℤ
  pub full_name : String

-- What one attempt takes from outside: the bytes of the name, the build's ID, the time.
pub record Draw : Type 0 where
  pub first_byte : ℕ
  pub second_byte : ℕ
  pub third_byte : ℕ
  pub build_id : String
  pub now : ℕ

-- What a client asks for.
pub record Request : Type 0 where
  pub owner_id : ℕ
  pub name : String
  pub template_name : String
  pub repository : Option Repository

abbrev pub Created : Type 0
Created = (Workspace × Build) × Database

abbrev pub drawn_id : Draw → String
drawn_id d = pet_name d.first_byte d.second_byte d.third_byte

display_name : String → Option String
display_name name = if name == "" then none else some name

unfoldable pub source_is_valid : Option Repository → Bool
source_is_valid none = true
source_is_valid (some r) = is_positive r.id && not (r.full_name == "")

source_type : Option Repository → SourceType
source_type none = SourceType.empty
source_type (some r) = SourceType.github

unfoldable pub new_workspace : Draw → Request → Workspace
unfolding display_name source_type
new_workspace d r = record {
  id = drawn_id d;
  owner_id = r.owner_id;
  display_name = display_name r.name;
  source_type = source_type r.repository;
  repository_id = elim r.repository [ none ↦ none | some repository ↦ some repository.id ];
  repository_full_name = elim r.repository [
    | none ↦ none
    | some repository ↦ some repository.full_name
  ];
  template_name = r.template_name;
  desired_state = Desired.running;
  observed_state = Observed.pending;
  state_key = String.◌++◌ "workspaces/" (String.◌++◌ (drawn_id d) "/terraform.tfstate");
  created_at = d.now;
  updated_at = d.now;
  last_access_at = d.now;
  deleted_at = none;
}

unfoldable pub first_build : Draw → Request → Build
first_build d r = record {
  id = d.build_id;
  workspace_id = drawn_id d;
  sequence = 1;
  transition = Transition.start;
  template_name = r.template_name;
  status = Status.queued;
  claimed_by = none;
  lease_id_hash = none;
  lease_expires_at = none;
  started_at = none;
  completed_at = none;
  error = none;
  created_at = d.now;
}

unfoldable pub create_in_tx : Draw → Request → Database → Result Created
create_in_tx d r db = do
  refuse (not (source_is_valid r.repository)) repository_invalid
  with_workspace ← insert_workspace (new_workspace d r) db
  with_build ← insert_build (first_build d r) with_workspace
  ok ((new_workspace d r, first_build d r), with_build)

-- One transaction of `create`.
unfoldable pub create_once : Service → Draw → Request → Database → Result Created
create_once s d r db = do check_create_quota s r.owner_id r.template_name db; create_in_tx d r db

-- `for range attempts`: only a duplicated key is tried again, on the next draw.
unfoldable pub retry : ℕ → Error → (ℕ → Result Created) → ℕ → Result Created
retry zero exhausted attempt i = err exhausted
retry (suc n) exhausted attempt i =
    let again = retry n exhausted attempt (suc i) in
    elim (attempt i) [
      | ok created ↦ ok created
      | err e ↦ if is_duplicated_key e then again else err e
    ]

abbrev pub max_attempts : ℕ
max_attempts = 20

unfoldable pub create : Service → (ℕ → Draw) → Request → Database → Result Created
create s draws r db =
    if ltb 120 (String.len r.name)
    then err display_name_too_long
    else retry max_attempts name_space_exhausted (λ i. create_once s (draws i) r db) 0

-- owner_id = ? AND key = ?
abbrev pub has_key : ℕ → String → IdempotencyKey → Bool
has_key owner_id key k = nat_eq k.owner_id owner_id && (k.key == key)

abbrev pub is_current : ℕ → IdempotencyKey → Bool
is_current now k = ltb now k.expires_at

-- PRIMARY KEY(owner_id, key)
unfoldable pub insert_key : IdempotencyKey → Database → Result Database
insert_key k db =
    if ltb 0 (count (has_key k.owner_id k.key) db.idempotency_keys)
    then err duplicated_key
    else ok (record db { idempotency_keys = insert k db.idempotency_keys })

unfoldable pub delete_expired_key : ℕ → String → ℕ → Database → Database
delete_expired_key owner_id key now db = record db {
  idempotency_keys =
      Table.delete (λ k. has_key owner_id key k && not (is_current now k)) db.idempotency_keys;
}

-- The smallest sequence of the workspace's builds: ORDER BY sequence ASC, then the first row.
unfoldable pub first_build_of : String → List Build → Option Build
first_build_of id builds =
    first
      (λ b.
        (b.workspace_id == id)
        && nat_eq 0 (count (λ c. (c.workspace_id == id) && ltb c.sequence b.sequence) builds))
      builds

or_not_found {ℓ} : {A : Type ℓ} → Option A → Result A
or_not_found none = err not_found
or_not_found (some a) = ok a

-- The answer that a repeated request gets.
unfoldable pub replay : IdempotencyKey → String → ℕ → Database → Result Created
unfolding or_not_found
replay existing request_hash owner_id db = do
  refuse (not (existing.request_hash == request_hash)) key_reused
  w ← or_not_found (
      first
        (λ w. (w.id == existing.response_workspace_id) && (nat_eq w.owner_id owner_id && is_live w))
        db.workspaces)
  b ← or_not_found (first_build_of w.id db.builds)
  ok ((w, b), db)

-- A first request: create, and keep the answer for ten minutes.
unfoldable pub create_keyed : Service → Draw → String → String → Request → Database → Result Created
unfolding insert_key
create_keyed s d key request_hash r db = do
  created ← create_once s d r db
  let stored : IdempotencyKey = record {
    owner_id = r.owner_id;
    key = key;
    request_hash = request_hash;
    response_workspace_id = created.0.0.id;
    expires_at = d.now + 10 * 60;
  }
  with_key ← insert_key stored created.1
  ok (created.0, with_key)

-- One transaction of CreateRepositoryIdempotent.
unfoldable pub create_idempotent_once :
    Service → Draw → String → String → Request → Database → Result Created
create_idempotent_once s d key request_hash r db =
    let db' = delete_expired_key r.owner_id key d.now db in
    elim (first (λ k. has_key r.owner_id key k && is_current d.now k) db'.idempotency_keys) [
      | none ↦ create_keyed s d key request_hash r db'
      | some existing ↦
          if existing.response_workspace_id == ""
          then create_keyed s d key request_hash r db'
          else replay existing request_hash r.owner_id db'
    ]

unfoldable pub create_repository_idempotent :
    Service → (ℕ → Draw) → String → String → Request → Database → Result Created
create_repository_idempotent s draws key request_hash r db =
    if key == ""
    then create s draws r db
    else (if ltb 200 (String.len key)
        then err key_too_long
        else retry max_attempts retry_limit
            (λ i. create_idempotent_once s (draws i) key request_hash r db) 0)

-- CreateIdempotent: no repository.
unfoldable pub create_idempotent :
    Service → (ℕ → Draw) → String → String → Request → Database → Result Created
create_idempotent s draws key request_hash r db =
    create_repository_idempotent s draws key request_hash (record r { repository = none }) db
