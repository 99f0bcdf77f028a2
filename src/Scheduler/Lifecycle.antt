-- ===== src/Scheduler/Lifecycle.antt =====
-- The life of a build: leased once, ended once, and failed when its lease has run out.
use quickworks.Base.{
  ℕ, ◌≤◌, ◌<◌, ◌≡◌, String, Bool, true, false, ◌&&◌, none, List, [], ◌∷◌, ◌==◌, arith, All, any,
  eq_iff, eq_refl, Bool-cases, Option-cases, inl, inr,
}
use quickworks.Results.{ok, err, lease_expired}
use quickworks.Table.{count, select, first, update}
use quickworks.Table.Counts.{first_holds, first-count, first-none}
use quickworks.Table.Rows.{
  All-update, All-mono, count-update_none, count-update_keeps, All-count_none,
}
use quickworks.Database.{Build, Database, is_running}
use quickworks.Scheduler.Labels.{labels_contain}
use quickworks.Scheduler.Claim.{
  Claim, fail_expired, still_running, expire_one, expire_each, is_expired, expire_leases,
  lease_build, still_queued, grant, candidates, claim_first, claim_matching_build,
}
use quickworks.Scheduler.Leases.{Lease, held, finish, completed, complete_build}

-- A running build under a lease that still runs.
abbrev pub in_hand : Lease → Build → Bool
in_hand l b = is_running b.status && held l b

-- Once a build has been completed, every further completion of it, by any worker, under any lease
-- and at any time, fails as an expired lease.
pub complete_twice :
    (l l' : Lease) (error error' : String) (db db' : Database)
    → l'.build_id ≡ l.build_id
    → complete_build l error db ≡ ok db'
    → complete_build l' error' db' ≡ err lease_expired
unfolding complete_build
complete_twice l l' error error' db db' same h = elim (Option-cases (first (in_hand l) db.builds)) [
  | inl e ↦ absurd (ground arith)
  | inr (b, e) ↦
      let after : db' ≡ completed l error b db = ground arith in rw (after, ended b, complete_build)
]
  where
    ended : (b : Build) → first (in_hand l') (completed l error b db).builds ≡ none
    ended b =
        unfold completed finish in
        (first-none (in_hand l') _ (
          count-update_none (in_hand l') (λ x. x.id == l.build_id)
            (finish (error == "") error l.now) db.builds (λ x t. ground arith)
            (λ x t. ground arith)))

-- What a lease holder completes it holds; anybody else is refused and changes nothing.
pub complete_needs_lease :
    (l : Lease) (error : String) (db db' : Database)
    → complete_build l error db ≡ ok db'
    → 0 < count (in_hand l) db.builds
unfolding complete_build
complete_needs_lease l error db db' h = elim (Option-cases (first (in_hand l) db.builds)) [
  | inl e ↦ absurd (ground arith)
  | inr (b, e) ↦
      first-count (in_hand l) (in_hand l) db.builds b e (first_holds (in_hand l) db.builds b e)
]

-- No claim takes a running build from the worker that holds its lease.
claim_first-in_hand :
    (required : String → List String) (c : Claim) (es : List Build) (db : Database) (l : Lease)
    → count (in_hand l) db.builds ≤ count (in_hand l) (claim_first required c es db).1.builds
unfolding claim_first grant
claim_first-in_hand required c [] db l = omega arith
claim_first-in_hand required c (e ∷ es) db l =
    elim (Bool-cases (labels_contain c.labels (required e.template_name))) [
      | inr lacks ↦ rw lacks (claim_first-in_hand required c es db l)
      | inl has ↦ rw has (elim (Option-cases (first (still_queued e) db.builds)) [
        | inl absent ↦ rw absent (claim_first-in_hand required c es db l)
        | inr (b, found) ↦ rw found (
            count-update_keeps (in_hand l) (still_queued e) (lease_build c) db.builds
              (λ x. ground arith))
      ])
    ]

-- A claim takes no running build out of the hands of the worker that holds its lease.
pub claim_matching_build-in_hand :
    (required : String → List String) (c : Claim) (db : Database) (l : Lease)
    → count (in_hand l) db.builds ≤ count (in_hand l) (claim_matching_build required c db).1.builds
unfolding claim_matching_build
claim_matching_build-in_hand required c db l =
    grind (arith, claim_first-in_hand required c (candidates db) db l)

abbrev listed : List Build → Build → Bool
listed es b = any (λ e. e.id == b.id) es

-- Every build that has to expire is still on the list.
abbrev Pending : ℕ → List Build → List Build → Type 0
Pending now es = All (λ b. is_expired now b ≡ true → listed es b ≡ true)

expire_one-Pending :
    (now : ℕ) (e : Build) (es : List Build) (db : Database)
    → Pending now (e ∷ es) db.builds
    → Pending now es (expire_one now e db).builds
unfolding expire_one fail_expired
expire_one-Pending now e es db pending = rw builds_of_round after
  where
    after : Pending now es (update (still_running e) (fail_expired now) db.builds)
    after =
        All-update _ _ (still_running e) (fail_expired now) db.builds (λ b h t. λ x. cc)
          (λ b h t x. ground (arith, h x, eq_iff b.id e.id, eq_iff e.id b.id)) pending

    builds_of_round :
        (expire_one now e db).builds ≡ update (still_running e) (fail_expired now) db.builds
    builds_of_round = ground arith

expire_each-Pending :
    (now : ℕ) (es : List Build) (db : Database)
    → Pending now es db.builds
    → Pending now [] (expire_each now es db).builds
unfolding expire_each
expire_each-Pending now [] db pending = pending
expire_each-Pending now (e ∷ es) db pending =
    expire_each-Pending now es (expire_one now e db) (expire_one-Pending now e es db pending)

all_listed : (now : ℕ) (builds : List Build) → Pending now (select (is_expired now) builds) builds
unfolding select
all_listed now [] = tt
all_listed now (b ∷ bs) = elim (Bool-cases (is_expired now b)) [
  | inl t ↦ rw t (
    (λ x. ground (arith, eq_refl b.id)),
    All-mono _ _ bs (λ x h t'. ground (arith, h t')) (all_listed now bs),
  )
  | inr t ↦ rw t ((λ x. cc), All-mono _ _ bs (λ x h t'. ground (arith, h t')) (all_listed now bs))
]

-- After expireLeases at a time no running build has a lease that has run out by that time.
pub expire_leases-none_expired :
    (now : ℕ) (db : Database) → count (is_expired now) (expire_leases now db).builds ≡ 0
unfolding expire_leases
expire_leases-none_expired now db = All-count_none (is_expired now) _ (
    All-mono _ _ _ (λ b h. not_expired b h)
      (expire_each-Pending now (select (is_expired now) db.builds) db (all_listed now db.builds)))
  where
    not_expired : (b : Build) → (is_expired now b ≡ true → false ≡ true) → is_expired now b ≡ false
    not_expired b h = elim (Bool-cases (is_expired now b)) [ inl t ↦ absurd (cc (h t)) | inr f ↦ f ]
