-- ===== src/Workspaces/Outcomes.antt =====
-- Every successful creation request, with or without a key, keeps the tables and the quotas.
use quickworks.Base.{ℕ, ◌≡◌, String, Bool, ◌&&◌, ◌==◌, arith, Bool-cases, Option-cases, inl, inr}
use quickworks.Results.{ok, retry_limit, name_space_exhausted}
use quickworks.Table.{first}
use quickworks.Database.{Workspace, Build, IdempotencyKey, Database}
use quickworks.Workspaces.{Service}
use quickworks.Workspaces.Create.{
  Draw, Request, Created, max_attempts, has_key, is_current, delete_expired_key, replay,
  create_once, create_keyed, create, create_idempotent_once, create_repository_idempotent,
}
use quickworks.Workspaces.Soundness.{IsSound}
use quickworks.Workspaces.Quotas.{WithinQuota}
use quickworks.Workspaces.Creation.{Made, create_once-Made, Made-IsSound, Made-WithinQuota}
use quickworks.Workspaces.Idempotency.{create_keyed-Keyed}
use quickworks.Workspaces.Repeats.{retry-eq-ok}

module _ (s : Service) (owner : ℕ) (template : String) where
  -- The tables are sound and the owner is within the template's quota.
  abbrev pub IsGood : Database → Type 0
  IsGood db = IsSound db × WithinQuota s owner template db.workspaces

  Made-IsGood :
      (d : Draw) (r : Request) (db : Database) (w : Workspace) (b : Build) (db' : Database)
      → Made s d r db w b db'
      → IsGood db
      → IsGood db'
  Made-IsGood d r db w b db' made (sound, within) = (
    Made-IsSound s d r db w b db' made sound,
    Made-WithinQuota s d r db w b db' owner template made within,
  )

  keyed-IsGood :
      (d : Draw) (key request_hash : String) (r : Request) (db : Database) (c : Created)
      → create_keyed s d key request_hash r db ≡ ok c
      → IsGood db
      → IsGood c.1
  keyed-IsGood d key request_hash r db ((w, b), db') h good =
      let keyed = create_keyed-Keyed s d key request_hash r db w b db' h in
      rw keyed.after (Made-IsGood d r db w b keyed.created keyed.made good)

  replay-IsGood :
      (existing : IdempotencyKey) (request_hash : String) (owner_id : ℕ) (db : Database)
      (c : Created)
      → replay existing request_hash owner_id db ≡ ok c
      → IsGood db
      → IsGood c.1
  replay-IsGood existing request_hash owner_id db c h good = rw (unchanged h) good
    where
      unchanged : replay existing request_hash owner_id db ≡ ok c → c.1 ≡ db
      unchanged h = unfold replay in (ground arith)

  once-IsGood :
      (d : Draw) (key request_hash : String) (r : Request) (db : Database) (c : Created)
      → create_idempotent_once s d key request_hash r db ≡ ok c
      → IsGood db
      → IsGood c.1
  unfolding create_idempotent_once delete_expired_key
  once-IsGood d key request_hash r db c h good =
      elim (Option-cases (first current remaining.idempotency_keys)) [
        | inl absent ↦
            keyed-IsGood d key request_hash r remaining c (rw (absent, create_idempotent_once) at h)
              good
        | inr (existing, found) ↦ elim (Bool-cases (existing.response_workspace_id == "")) [
          | inl blank ↦
              keyed-IsGood d key request_hash r remaining c
                (rw blank at (rw (found, create_idempotent_once) at h)) good
          | inr named ↦
              replay-IsGood existing request_hash r.owner_id remaining c
                (rw named at (rw (found, create_idempotent_once) at h)) good
        ]
      ]
    where
      remaining : Database
      remaining = delete_expired_key r.owner_id key d.now db

      current : IdempotencyKey → Bool
      current k = has_key r.owner_id key k && is_current d.now k

  plain-IsGood :
      (draws : ℕ → Draw) (r : Request) (db : Database) (c : Created)
      → create s draws r db ≡ ok c
      → IsGood db
      → IsGood c.1
  unfolding create
  plain-IsGood draws r db ((w, b), db') h good =
      let (i, e) =
        retry-eq-ok max_attempts name_space_exhausted (λ i. create_once s (draws i) r db) 0
          ((w, b), db') (ground arith) in
      Made-IsGood (draws i) r db w b db' (create_once-Made s (draws i) r db w b db' e) good

  -- From sound tables in which an owner is within the quotas of a template, a creation request of
  -- anyone that succeeds, new or repeated, with or without a key and in any of its attempts, leaves
  -- the tables sound and that owner within the quotas of that template.
  pub create_repository_idempotent-IsGood :
      (draws : ℕ → Draw) (key request_hash : String) (r : Request) (db : Database) (c : Created)
      → create_repository_idempotent s draws key request_hash r db ≡ ok c
      → IsGood db
      → IsGood c.1
  unfolding create_repository_idempotent
  create_repository_idempotent-IsGood draws key request_hash r db c h good =
      elim (Bool-cases (key == "")) [
        | inl blank ↦ plain-IsGood draws r db c (rw blank at h) good
        | inr named ↦
            let (i, e) =
              retry-eq-ok max_attempts retry_limit
                (λ i. create_idempotent_once s (draws i) key request_hash r db) 0 c
                (ground arith) in
            once-IsGood (draws i) key request_hash r db c e good
      ]
