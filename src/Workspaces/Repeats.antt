-- ===== src/Workspaces/Repeats.antt =====
-- CreateRepositoryIdempotent, called again with a key that it has answered.
use Prim.Native.String
use text.Mathlib.TextLemmas.{append-eq-nil_iff}
use quickworks.Base.{
  ◌∙◌, ℕ, zero, suc, ◌+◌, ◌*◌, ◌<◌, ◌≡◌, ◌≢◌, refl, String, false, ◌&&◌, none, arith, ltb, eq_iff,
  inl, inr, not,
}
use quickworks.Results.{
  Error, Result, Result-cases, ok, err, duplicated_key, key_reused, retry_limit,
}
use quickworks.Table.{count, first}
use quickworks.Table.Counts.{first-none}
use quickworks.Table.Keys.{delete_none, count-zero_mono}
use quickworks.Database.{Workspace, Build, Database}
use quickworks.Workspaces.{Service}
use quickworks.Workspaces.Names.{pet_name}
use quickworks.Workspaces.Create.{
  Draw, Request, Created, retry, max_attempts, has_key, is_current, delete_expired_key,
  create_keyed, create_idempotent_once, create_repository_idempotent,
}
use quickworks.Workspaces.Soundness.{IsSound}
use quickworks.Workspaces.Idempotency.{Keyed, create_keyed-Keyed, replayed, refused, dispatched}

pub retry-eq-ok :
    (n : ℕ) (e : Error) (attempt : ℕ → Result Created) (i : ℕ) (c : Created)
    → retry n e attempt i ≡ ok c
    → (j : ℕ) × (attempt j ≡ ok c)
unfolding retry
retry-eq-ok zero e attempt i c h = absurd (ground arith)
retry-eq-ok (suc n) e attempt i c h = elim (Result-cases (attempt i)) [
  | inl (c', p) ↦ (i, ground arith)
  | inr (e', p) ↦ retry-eq-ok n e attempt (suc i) c (ground arith)
]

pub retry_first :
    (n : ℕ) (e : Error) (attempt : ℕ → Result Created) (i : ℕ) (m : Result Created)
    → attempt i ≡ m
    → m ≢ err duplicated_key
    → retry (suc n) e attempt i ≡ m
unfolding retry
retry_first n e attempt i (ok c) p h = ground arith
retry_first n e attempt i (err e') p h = ground arith

dash-ne-nil : ◌≢◌ {A = String} "-" ""
dash-ne-nil e = ground (arith, eq_iff "-" "")

-- No name that petName draws is empty.
pub pet_name-ne-nil : (a b n : ℕ) → pet_name a b n ≢ ""
unfolding pet_name
pet_name-ne-nil a b n e = dash-ne-nil (append-eq-nil_iff.0 (append-eq-nil_iff.0 e).1).0

-- A key without a row: the request creates.
first_request :
    (s : Service) (d : Draw) (key request_hash : String) (r : Request) (db : Database)
    → count (has_key r.owner_id key) db.idempotency_keys ≡ 0
    → create_idempotent_once s d key request_hash r db ≡ create_keyed s d key request_hash r db
unfolding create_idempotent_once
first_request s d key request_hash r db unused =
    rw (no_expired, create_idempotent_once)
      (rw (no_current, create_idempotent_once) (rw no_expired))
  where
    no_expired : delete_expired_key r.owner_id key d.now db ≡ db
    no_expired =
        unfold delete_expired_key in
        (ground (
          arith,
          delete_none (λ k. has_key r.owner_id key k && not (is_current d.now k))
              db.idempotency_keys
              (count-zero_mono _ (has_key r.owner_id key) db.idempotency_keys (λ k. ground arith)
                unused),
        ))

    no_current :
        first (λ k. has_key r.owner_id key k && is_current d.now k) db.idempotency_keys ≡ none
    no_current =
        first-none _ db.idempotency_keys (
          count-zero_mono _ (has_key r.owner_id key) db.idempotency_keys (λ k. ground arith) unused)

abbrev attempts : Service → (ℕ → Draw) → String → String → Request → Database → ℕ → Result Created
attempts s draws key request_hash r db i = create_idempotent_once s (draws i) key request_hash r db

-- A first request that succeeded stored its answer in one of its attempts.
answered :
    (s : Service) (draws : ℕ → Draw) (key request_hash : String) (r : Request) (db : Database)
    (w : Workspace) (b : Build) (db' : Database)
    → key ≢ ""
    → count (has_key r.owner_id key) db.idempotency_keys ≡ 0
    → create_repository_idempotent s draws key request_hash r db ≡ ok ((w, b), db')
    → (i : ℕ) × Keyed s (draws i) key request_hash r db w b db' × (ltb 200 (String.len key) ≡ false)
unfolding create_repository_idempotent
answered s draws key request_hash r db w b db' named unused h =
    let short : ltb 200 (String.len key) ≡ false = ground (arith, eq_iff key "") in
    let tried : retry max_attempts retry_limit (attempts s draws key request_hash r db) 0
        ≡ ok ((w, b), db') =
      ground (arith, eq_iff key "") in
    let (i, e) = retry-eq-ok max_attempts retry_limit _ 0 ((w, b), db') tried in
    (
      i,
      create_keyed-Keyed s (draws i) key request_hash r db w b db'
          (rw (first_request s (draws i) key request_hash r db unused) at e),
      short,
    )

-- From sound tables without an entry under a non-empty key: if a creation request under the key
-- succeeds, then for ten minutes a request of the same owner under the same key and request hash
-- gets the same workspace and build, and the database stays as it is.
pub create_twice :
    (s : Service) (draws draws' : ℕ → Draw) (key request_hash : String) (r r' : Request)
    (db : Database) (w : Workspace) (b : Build) (db' : Database)
    → IsSound db
    → key ≢ ""
    → count (has_key r.owner_id key) db.idempotency_keys ≡ 0
    → create_repository_idempotent s draws key request_hash r db ≡ ok ((w, b), db')
    → r'.owner_id ≡ r.owner_id
    → ((i : ℕ) → (draws' 0).now < (draws i).now + 10 * 60)
    → create_repository_idempotent s draws' key request_hash r' db' ≡ ok ((w, b), db')
unfolding create_repository_idempotent
create_twice s draws draws' key request_hash r r' db w b db' sound named unused h owner early =
    let (i, keyed, short) = answered s draws key request_hash r db w b db' named unused h in
    let again : create_idempotent_once s (draws' 0) key request_hash r' db' ≡ ok ((w, b), db') =
      dispatched s (draws i) key request_hash r db w b db' keyed sound (draws' 0).now (early i)
        (draws' 0) r' request_hash refl owner (pet_name-ne-nil _ _ _)
      ∙ replayed s (draws i) key request_hash r db w b db' keyed sound (draws' 0).now (early i) in
    ground (
      arith,
      eq_iff key "",
      retry_first 19 retry_limit (attempts s draws' key request_hash r' db') 0 (ok ((w, b), db'))
          again (λ e. cc),
    )

-- From sound tables without an entry under a non-empty key: if a creation request under the key
-- succeeds, then for ten minutes a request of the same owner under the same key with another
-- request hash is refused as a reuse of the key.
pub create_conflict :
    (s : Service) (draws draws' : ℕ → Draw) (key request_hash other : String) (r r' : Request)
    (db : Database) (w : Workspace) (b : Build) (db' : Database)
    → IsSound db
    → key ≢ ""
    → count (has_key r.owner_id key) db.idempotency_keys ≡ 0
    → create_repository_idempotent s draws key request_hash r db ≡ ok ((w, b), db')
    → r'.owner_id ≡ r.owner_id
    → ((i : ℕ) → (draws' 0).now < (draws i).now + 10 * 60)
    → request_hash ≢ other
    → create_repository_idempotent s draws' key other r' db' ≡ err key_reused
unfolding create_repository_idempotent
create_conflict s draws draws' key request_hash other r r' db w b db' sound named unused h owner
      early differs =
    let (i, keyed, short) = answered s draws key request_hash r db w b db' named unused h in
    let again : create_idempotent_once s (draws' 0) key other r' db' ≡ err key_reused =
      dispatched s (draws i) key request_hash r db w b db' keyed sound (draws' 0).now (early i)
        (draws' 0) r' other refl owner (pet_name-ne-nil _ _ _)
      ∙ refused s (draws i) key request_hash r db w b db' keyed sound (draws' 0).now (early i) other
          differs in
    ground (
      arith,
      eq_iff key "",
      retry_first 19 retry_limit (attempts s draws' key other r' db') 0 (err key_reused) again
          (λ e. cc),
    )
