-- ===== src/Scheduler/Claiming.antt =====
-- Registration and claims keep the count of every worker, and a claim stays within its capacity.
use quickworks.Base.{
  ℕ, ◌+◌, ◌≤◌, ◌<◌, ◌≡◌, refl, sym, ◌∙◌, String, ◌&&◌, some, List, [], ◌∷◌, ◌==◌, arith, ltb, leb,
  eq_iff, eq_refl, Bool-cases, Option-cases, inl, inr, if◌then◌else◌,
}
use quickworks.Table.{count, first, update}
use quickworks.Table.Counts.{
  count-insert, count-update, count-update_same, count-false, count_mono, first_holds,
}
use quickworks.Table.Keys.{count_unique}
use quickworks.Table.Rows.{All-update, All-insert}
use quickworks.Database.{Build, Provisioner, Database}
use quickworks.Scheduler.{runs_for, take_slot}
use quickworks.Scheduler.Labels.{labels_contain}
use quickworks.Scheduler.Claim.{
  Claim, new_provisioner, register, lease_build, still_queued, grant, candidates, claim_first,
  claim_matching_build,
}
use quickworks.Scheduler.Slots.{load, Tracked, IsTracked, take-Tracks}

lease_build-id : (c : Claim) (b : Build) (id : String) → ((lease_build c b).id == id) ≡ (b.id == id)
unfolding lease_build
lease_build-id c b id = refl

workers-take :
    (worker : String) (now : ℕ) (v : String) (ps : List Provisioner)
    → count (λ p. p.worker_id == v) (take_slot worker now ps) ≡ count (λ p. p.worker_id == v) ps
unfolding take_slot
workers-take worker now v ps =
    count-update_same (λ p. p.worker_id == v) (λ p. p.worker_id == worker) _ ps (λ p. refl)

abbrev pub Registered : String → List Provisioner → Type 0
Registered worker ps = 0 < count (λ p. p.worker_id == worker) ps

module _ (c : Claim) (e b : Build) (builds : List Build) (ps : List Provisioner)
    (found : first (still_queued e) builds ≡ some b) (tracked : Tracked builds ps) where
  abbrev leased : List Build
  leased = update (still_queued e) (lease_build c) builds

  one_queued : count (still_queued e) builds ≡ 1
  one_queued = ground (
    arith,
    first_holds (still_queued e) builds b found,
    count_unique (λ x. x.id == e.id) (still_queued e) (still_queued e) builds b (λ x. ground arith)
        (tracked.unique e.id) found,
  )

  leased_by :
      (worker : String)
      → count (λ x. still_queued e x && runs_for worker (lease_build c x)) builds
        ≡ (if c.worker_id == worker then 1 else 0)
  unfolding lease_build
  leased_by worker = elim (Bool-cases (c.worker_id == worker)) [
    | inl own ↦ ground (
      arith,
      one_queued,
      count_mono (λ x. still_queued e x && runs_for worker (lease_build c x)) (still_queued e)
          builds (λ x. ground arith),
      count_mono (still_queued e) (λ x. still_queued e x && runs_for worker (lease_build c x))
          builds (λ x. ground arith),
    )
    | inr other ↦ ground (
      arith,
      count-false (λ x. still_queued e x && runs_for worker (lease_build c x)) builds
          (λ x. ground arith),
    )
  ]

  load-leased :
      (worker : String)
      → load leased worker ≡ load builds worker + (if c.worker_id == worker then 1 else 0)
  load-leased worker = omega (
    arith,
    leased_by worker,
    count-update (runs_for worker) (still_queued e) (lease_build c) builds,
    count-false (λ x. still_queued e x && runs_for worker x) builds (λ x. ground arith),
  )

  unique-leased : (id : String) → count (λ x. x.id == id) leased ≤ 1
  unique-leased id =
      rw
        (count-update_same (λ x. x.id == id) (still_queued e) (lease_build c) builds
          (λ x. lease_build-id c x id))
        (tracked.unique id)

  leased-Tracked : Registered c.worker_id ps → Tracked leased (take_slot c.worker_id c.now ps)
  leased-Tracked present = record {
    unique = unique-leased;
    counted =
        take-Tracks c.worker_id c.now (load builds) _ ps
          (ground (arith, load-leased c.worker_id, eq_refl c.worker_id))
          (λ v differs. ground (arith, load-leased v, eq_iff v c.worker_id, eq_iff c.worker_id v))
          tracked.counted;
    registered = λ v gone. ground (
      arith,
      load-leased v,
      workers-take c.worker_id c.now v ps,
      tracked.registered v,
      eq_iff c.worker_id v,
      present,
    );
  }

-- A claim keeps the count of every worker.
pub claim_first-IsTracked :
    (required : String → List String) (c : Claim) (es : List Build) (db : Database)
    → Registered c.worker_id db.provisioners
    → IsTracked db
    → IsTracked (claim_first required c es db).1
unfolding claim_first grant
claim_first-IsTracked required c [] db present tracked = tracked
claim_first-IsTracked required c (e ∷ es) db present tracked =
    elim (Bool-cases (labels_contain c.labels (required e.template_name))) [
      | inr lacks ↦ rw lacks (claim_first-IsTracked required c es db present tracked)
      | inl has ↦ rw has (elim (Option-cases (first (still_queued e) db.builds)) [
        | inl absent ↦ rw absent (claim_first-IsTracked required c es db present tracked)
        | inr (b, found) ↦
            rw found (leased-Tracked c e b db.builds db.provisioners found tracked present)
      ])
    ]

-- A build that is claimed puts its worker one build up, and nobody else.
pub claim_first-load :
    (required : String → List String) (c : Claim) (es : List Build) (db : Database) (b : Build)
    → IsTracked db
    → (claim_first required c es db).0 ≡ some b
    → load (claim_first required c es db).1.builds c.worker_id ≡ load db.builds c.worker_id + 1
unfolding claim_first grant
claim_first-load required c [] db b tracked h = cc
claim_first-load required c (e ∷ es) db b tracked h =
    elim (Bool-cases (labels_contain c.labels (required e.template_name))) [
      | inr lacks ↦ rw lacks (claim_first-load required c es db b tracked (ground arith))
      | inl has ↦ rw has (elim (Option-cases (first (still_queued e) db.builds)) [
        | inl absent ↦ rw absent (claim_first-load required c es db b tracked (ground arith))
        | inr (b', found) ↦ rw found (
            ground (
              arith,
              load-leased c e b' db.builds db.provisioners found tracked c.worker_id,
              eq_refl c.worker_id,
            ))
      ])
    ]

-- If the counts of running builds are right, a worker that is given a build runs no more builds
-- than the capacity that it claims with.
pub claim_matching_build-capacity :
    (required : String → List String) (c : Claim) (db : Database) (b : Build)
    → IsTracked db
    → (claim_matching_build required c db).0 ≡ some b
    → load (claim_matching_build required c db).1.builds c.worker_id ≤ c.capacity
unfolding claim_matching_build
claim_matching_build-capacity required c db b tracked h =
    ground (arith, claim_first-load required c (candidates db) db b tracked)

-- Registering a worker, new or known, keeps the count of every worker.
pub register-IsTracked : (c : Claim) (db : Database) → IsTracked db → IsTracked (register c db)
unfolding register new_provisioner
register-IsTracked c db tracked =
    elim (Bool-cases (ltb 0 (count (λ p. p.worker_id == c.worker_id) db.provisioners))) [
      | inl known ↦ rw known (record {
        unique = tracked.unique;
        counted =
            All-update _ _ (λ p. p.worker_id == c.worker_id) _ db.provisioners (λ p h t. h)
              (λ p h t. h) tracked.counted;
        registered = λ v gone. tracked.registered v (
            sym (
              count-update_same (λ p. p.worker_id == v) (λ p. p.worker_id == c.worker_id) _
                db.provisioners (λ p. refl))
            ∙ gone);
      })
      | inr unknown ↦ rw unknown (record {
        unique = tracked.unique;
        counted =
            All-insert _ _ db.provisioners (sym (tracked.registered c.worker_id (ground arith)))
              tracked.counted;
        registered = λ v gone. ground (
          arith,
          tracked.registered v,
          count-insert (λ p. p.worker_id == v) (new_provisioner c) db.provisioners,
        );
      })
    ]

-- Behind its registration a worker has a row.
pub register-Registered :
    (c : Claim) (db : Database) → Registered c.worker_id (register c db).provisioners
unfolding register new_provisioner
register-Registered c db = ground (
  arith,
  eq_refl c.worker_id,
  count-insert (λ p. p.worker_id == c.worker_id) (new_provisioner c) db.provisioners,
  count-update_same (λ p. p.worker_id == c.worker_id) (λ p. p.worker_id == c.worker_id)
      (λ p. record p {
        labels = c.labels;
        capacity = c.capacity;
        last_seen_at = c.now;
        updated_at = c.now;
      })
      db.provisioners (λ p. refl),
)

-- The transaction of a claim, for a registered worker.
pub claim_matching_build-IsTracked :
    (required : String → List String) (c : Claim) (db : Database)
    → Registered c.worker_id db.provisioners
    → IsTracked db
    → IsTracked (claim_matching_build required c db).1
unfolding claim_matching_build
claim_matching_build-IsTracked required c db present tracked =
    elim (Bool-cases (leb c.capacity (load db.builds c.worker_id))) [
      | inl full ↦ rw full tracked
      | inr room ↦ rw room (claim_first-IsTracked required c (candidates db) db present tracked)
    ]
