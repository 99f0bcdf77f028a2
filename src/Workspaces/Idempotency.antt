-- ===== src/Workspaces/Idempotency.antt =====
-- A repeated creation request gets the first answer and creates nothing.
use mathlib.Core.Path.{subst₂}
use quickworks.Base.{
  ℕ, ◌+◌, ◌*◌, ◌<◌, ◌≡◌, ◌≢◌, refl, String, false, ◌&&◌, some, ◌==◌, arith, ltb, nat_eq, eq_iff,
  eq_refl, not,
}
use quickworks.Results.{ok, err, key_reused, >>=-first}
use quickworks.Table.{count, first, insert}
use quickworks.Table.Counts.{count-insert, count_mono}
use quickworks.Table.Keys.{first-insert, delete_none, count-zero_mono}
use quickworks.Database.{Workspace, Build, IdempotencyKey, Database, is_live}
use quickworks.Workspaces.{Service}
use quickworks.Workspaces.Create.{
  Draw, Request, drawn_id, new_workspace, first_build, has_key, is_current, insert_key,
  delete_expired_key, first_build_of, replay, create_once, create_keyed, create_idempotent_once,
}
use quickworks.Workspaces.Soundness.{IsSound}
use quickworks.Workspaces.Creation.{Made, create_once-Made}

-- The record of a first answer.
pub stored_key : Draw → String → String → Request → IdempotencyKey
stored_key d key request_hash r = record {
  owner_id = r.owner_id;
  key = key;
  request_hash = request_hash;
  response_workspace_id = drawn_id d;
  expires_at = d.now + 10 * 60;
}

pub record Keyed (s : Service) (d : Draw) (key request_hash : String) (r : Request) (db : Database)
    (w : Workspace) (b : Build) (db' : Database) : Type 0 where
  pub created : Database
  pub made : Made s d r db w b created
  pub unused : count (has_key r.owner_id key) db.idempotency_keys ≡ 0
  pub after : db' ≡ record created {
    idempotency_keys = insert (stored_key d key request_hash r) db.idempotency_keys;
  }

keyed_rest :
    (s : Service) (d : Draw) (key request_hash : String) (r : Request) (db : Database)
    (w w' : Workspace) (b b' : Build) (db' created : Database)
    → create_once s d r db ≡ ok ((w', b'), created)
    → create_keyed s d key request_hash r db ≡ ok ((w, b), db')
    → Made s d r db w' b' created
    → (w' ≡ w)
      × (b' ≡ b)
      × (count (has_key r.owner_id key) db.idempotency_keys ≡ 0)
      × (db' ≡ record created {
        idempotency_keys = insert (stored_key d key request_hash r) db.idempotency_keys;
      })
unfolding create_keyed insert_key stored_key new_workspace
keyed_rest s d key request_hash r db w w' b b' db' created e h made = ground arith

pub create_keyed-Keyed :
    (s : Service) (d : Draw) (key request_hash : String) (r : Request) (db : Database)
    (w : Workspace) (b : Build) (db' : Database)
    → create_keyed s d key request_hash r db ≡ ok ((w, b), db')
    → Keyed s d key request_hash r db w b db'
unfolding create_keyed
create_keyed-Keyed s d key request_hash r db w b db' h =
    let (((w', b'), created), e) = >>=-first (create_once s d r db) _ h in
    let made = create_once-Made s d r db w' b' created e in
    let (same_w, same_b, unused, after) =
      keyed_rest s d key request_hash r db w w' b b' db' created e h made in
    record {
      created = created;
      made = subst₂ (λ x y. Made s d r db x y created) same_w same_b made;
      unused = unused;
      after = after;
    }

new-id : (d : Draw) (r : Request) → (new_workspace d r).id ≡ drawn_id d
unfolding new_workspace
new-id d r = refl

stored-named :
    (d : Draw) (key request_hash : String) (r : Request)
    → drawn_id d ≢ ""
    → ((stored_key d key request_hash r).response_workspace_id == "") ≡ false
unfolding stored_key
stored-named d key request_hash r named = ground (arith, eq_iff (drawn_id d) "")

module _ (s : Service) (d : Draw) (key request_hash : String) (r : Request) (db : Database)
    (w : Workspace) (b : Build) (db' : Database) (keyed : Keyed s d key request_hash r db w b db')
    (sound : IsSound db) (now : ℕ) (early : now < d.now + 10 * 60) where
  expired_none :
      count (λ k. has_key r.owner_id key k && not (is_current now k)) db'.idempotency_keys ≡ 0
  unfolding stored_key
  expired_none = ground (
    arith,
    keyed.after,
    keyed.unused,
    count-insert (λ k. has_key r.owner_id key k && not (is_current now k))
        (stored_key d key request_hash r) db.idempotency_keys,
    count_mono (λ k. has_key r.owner_id key k && not (is_current now k)) (has_key r.owner_id key)
        db.idempotency_keys (λ k. ground arith),
  )

  nothing_expires : delete_expired_key r.owner_id key now db' ≡ db'
  unfolding delete_expired_key
  nothing_expires = ground (
    arith,
    delete_none (λ k. has_key r.owner_id key k && not (is_current now k)) db'.idempotency_keys
        expired_none,
  )

  key_found :
      first (λ k. has_key r.owner_id key k && is_current now k) db'.idempotency_keys
      ≡ some (stored_key d key request_hash r)
  unfolding stored_key
  key_found = ground (
    arith,
    keyed.after,
    eq_refl key,
    first-insert (λ k. has_key r.owner_id key k && is_current now k)
        (stored_key d key request_hash r) db.idempotency_keys
        (count-zero_mono _ (has_key r.owner_id key) db.idempotency_keys (λ k. ground arith)
          keyed.unused),
  )

  workspace_found :
      first
        (λ x. (x.id == drawn_id d) && (nat_eq x.owner_id r.owner_id && is_live x))
        db'.workspaces
      ≡ some w
  unfolding new_workspace
  workspace_found = ground (
    arith,
    keyed.after,
    keyed.made,
    eq_refl (drawn_id d),
    first-insert (λ x. (x.id == drawn_id d) && (nat_eq x.owner_id r.owner_id && is_live x))
        (new_workspace d r) db.workspaces
        (count-zero_mono _ (λ x. x.id == drawn_id d) db.workspaces (λ x. ground arith)
          keyed.made.free),
  )

  no_builds : count (λ x. x.workspace_id == drawn_id d) db.builds ≡ 0
  no_builds = ground (arith, sound.references (drawn_id d), keyed.made.free)

  none_smaller :
      count
        (λ c. (c.workspace_id == drawn_id d) && ltb c.sequence 1)
        (insert (first_build d r) db.builds)
      ≡ 0
  unfolding first_build
  none_smaller = ground (
    arith,
    count-insert (λ c. (c.workspace_id == drawn_id d) && ltb c.sequence 1) (first_build d r)
        db.builds,
    count-zero_mono (λ c. (c.workspace_id == drawn_id d) && ltb c.sequence 1)
        (λ x. x.workspace_id == drawn_id d) db.builds (λ x. ground arith) no_builds,
  )

  build_found :
      first_build_of (drawn_id d) (insert (first_build d r) db.builds) ≡ some (first_build d r)
  unfolding first_build_of first_build
  build_found =
      first-insert
        (λ x.
          (x.workspace_id == drawn_id d)
          && nat_eq 0 (
              count (λ c. (c.workspace_id == drawn_id d) && ltb c.sequence x.sequence)
                (insert (first_build d r) db.builds)))
        (first_build d r) db.builds
        (count-zero_mono _ (λ x. x.workspace_id == drawn_id d) db.builds (λ x. ground arith)
          no_builds)
        (ground (arith, eq_refl (drawn_id d), none_smaller))

  build_found' : first_build_of (drawn_id d) db'.builds ≡ some b
  build_found' = ground (arith, build_found, keyed.after, keyed.made)

  pub replayed :
      replay (stored_key d key request_hash r) request_hash r.owner_id db' ≡ ok ((w, b), db')
  unfolding replay stored_key
  replayed =
      rw (workspace_found, replay)
        (ground (arith, eq_refl request_hash, keyed.made, build_found', new-id d r))

  pub refused :
      (other : String)
      → request_hash ≢ other
      → replay (stored_key d key request_hash r) other r.owner_id db' ≡ err key_reused
  unfolding replay stored_key
  refused other differs = ground (arith, eq_iff request_hash other)

  -- The next request of this owner under this key goes to the stored answer.
  pub dispatched :
      (d' : Draw) (r' : Request) (other : String)
      → d'.now ≡ now
      → r'.owner_id ≡ r.owner_id
      → drawn_id d ≢ ""
      → create_idempotent_once s d' key other r' db'
        ≡ replay (stored_key d key request_hash r) other r.owner_id db'
  unfolding create_idempotent_once
  dispatched d' r' other same_time same_owner named =
      rw (same_time, same_owner, nothing_expires, create_idempotent_once)
        (rw (key_found, create_idempotent_once)
          (rw (same_time, same_owner, nothing_expires, stored-named d key request_hash r named)))
