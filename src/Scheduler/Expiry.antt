-- ===== src/Scheduler/Expiry.antt =====
-- expireLeases keeps the count of every worker.
use quickworks.Base.{
  ℕ, ◌+◌, ◌≤◌, ◌≡◌, refl, sym, ◌∙◌, String, Bool, true, false, ◌&&◌, not, Option, none, some, List,
  [], ◌∷◌, ◌==◌, arith, All, nat_eq, eq_iff, eq_refl, Bool-cases, Option-cases, inl, inr,
}
use quickworks.Table.{count, select, update}
use quickworks.Table.Counts.{count-update_same, count_mono}
use quickworks.Table.Keys.{count-zero_mono}
use quickworks.Table.Rows.{All-mono, All-select, All-unique, count-update_clears, count_split}
use quickworks.Database.{Build, Provisioner, Database}
use quickworks.Scheduler.{is_value, runs_for, release_slot}
use quickworks.Scheduler.Claim.{
  fail_expired, still_running, release_claim, expire_one, expire_each, is_expired, expire_leases,
}
use quickworks.Scheduler.Slots.{load, Tracked, IsTracked, release-Tracks, workers-release}

abbrev same_claim : Option String → Option String → Bool
same_claim none none = true
same_claim (some s) (some t) = s == t
same_claim _ _ = false

same_claim_refl : (o : Option String) → same_claim o o ≡ true
same_claim_refl none = refl
same_claim_refl (some s) = eq_refl s

-- A running build under the ID of `e` that another worker has claimed.
abbrev taken_over : Build → Build → Bool
taken_over e b = still_running e b && not (same_claim e.claimed_by b.claimed_by)

fail_expired-id :
    (now : ℕ) (b : Build) (id : String) → ((fail_expired now b).id == id) ≡ (b.id == id)
unfolding fail_expired
fail_expired-id now b id = refl

module _ (now : ℕ) (e : Build) (builds : List Build) where
  abbrev failed : List Build
  failed = update (still_running e) (fail_expired now) builds

  abbrev touched : String → ℕ
  touched worker = count (λ b. still_running e b && runs_for worker b) builds

  load-failed : (worker : String) → load failed worker + touched worker ≡ load builds worker
  unfolding fail_expired
  load-failed worker =
      count-update_clears (runs_for worker) (still_running e) (fail_expired now) builds
        (λ b. ground arith)

  -- No build is handed over while leases expire.
  taken_over-failed :
      (e' : Build) → count (taken_over e') builds ≡ 0 → count (taken_over e') failed ≡ 0
  unfolding fail_expired
  taken_over-failed e' h = omega (
    arith,
    count-update_clears (taken_over e') (still_running e) (fail_expired now) builds
        (λ b. ground arith),
  )

  touched_none : (worker : String) → count (still_running e) builds ≡ 0 → touched worker ≡ 0
  touched_none worker h = count-zero_mono _ (still_running e) builds (λ b. ground arith) h

  touched_other :
      (worker : String)
      → is_value worker e.claimed_by ≡ false
      → count (taken_over e) builds ≡ 0
      → touched worker ≡ 0
  touched_other worker differs h =
      count-zero_mono _ (taken_over e) builds
        (λ b t. not_same e.claimed_by b.claimed_by b t differs refl refl) h
    where
      not_same :
          (o o' : Option String) (b : Build)
          → (still_running e b && runs_for worker b) ≡ true
          → is_value worker o ≡ false
          → e.claimed_by ≡ o
          → b.claimed_by ≡ o'
          → taken_over e b ≡ true
      not_same none none b t d p q = ground arith
      not_same none (some v) b t d p q = ground arith
      not_same (some u) none b t d p q = ground arith
      not_same (some u) (some v) b t d p q =
          ground (arith, eq_iff u v, eq_iff v worker, eq_iff u worker)

  touched_own :
      (worker : String)
      → is_value worker e.claimed_by ≡ true
      → count (still_running e) builds ≡ 1
      → count (taken_over e) builds ≡ 0
      → touched worker ≡ 1
  touched_own worker own one h = omega (
    arith,
    count_split (still_running e) (runs_for worker) builds,
    count-zero_mono (λ b. still_running e b && not (runs_for worker b)) (taken_over e) builds
        (λ b t. not_own e.claimed_by b.claimed_by b t own refl refl) h,
  )
    where
      not_own :
          (o o' : Option String) (b : Build)
          → (still_running e b && not (runs_for worker b)) ≡ true
          → is_value worker o ≡ true
          → e.claimed_by ≡ o
          → b.claimed_by ≡ o'
          → taken_over e b ≡ true
      not_own none o' b t d p q = cc
      not_own (some u) none b t d p q = ground arith
      not_own (some u) (some v) b t d p q =
          ground (arith, eq_iff u v, eq_iff v worker, eq_iff u worker)

module _ (now : ℕ) (e : Build) (builds : List Build) (ps : List Provisioner)
    (alone : count (taken_over e) builds ≡ 0) (tracked : Tracked builds ps) where
  unique-failed : (id : String) → count (λ b. b.id == id) (failed now e builds) ≤ 1
  unique-failed id =
      rw
        (count-update_same (λ b. b.id == id) (still_running e) (fail_expired now) builds
          (λ b. fail_expired-id now b id))
        (tracked.unique id)

  -- No row was touched: no load changes.
  missed-Tracked : count (still_running e) builds ≡ 0 → Tracked (failed now e builds) ps
  missed-Tracked none_touched = record {
    unique = unique-failed;
    counted =
        All-mono _ _ ps
          (λ p h. omega (
            arith,
            load-failed now e builds p.worker_id,
            touched_none now e builds p.worker_id none_touched,
          ))
          tracked.counted;
    registered = λ worker gone.
        omega (arith, load-failed now e builds worker, tracked.registered worker gone);
  }

  -- A row that no worker had claimed was failed: no load changes either.
  unclaimed-Tracked : e.claimed_by ≡ none → Tracked (failed now e builds) ps
  unclaimed-Tracked unclaimed = record {
    unique = unique-failed;
    counted =
        All-mono _ _ ps
          (λ p h. omega (
            arith,
            load-failed now e builds p.worker_id,
            touched_other now e builds p.worker_id (rw unclaimed) alone,
          ))
          tracked.counted;
    registered = λ worker gone.
        omega (arith, load-failed now e builds worker, tracked.registered worker gone);
  }

  -- A worker's row was failed: its slot comes back.
  released-Tracked :
      (worker : String)
      → e.claimed_by ≡ some worker
      → count (still_running e) builds ≡ 1
      → Tracked (failed now e builds) (release_slot worker now ps)
  released-Tracked worker claimed one = record {
    unique = unique-failed;
    counted =
        release-Tracks worker now (load builds) _ ps
          (omega (
            arith,
            load-failed now e builds worker,
            touched_own now e builds worker (rw claimed (eq_refl worker)) one alone,
          ))
          (λ v differs. omega (
            arith,
            load-failed now e builds v,
            touched_other now e builds v
                (rw claimed (ground (arith, eq_iff v worker, eq_iff worker v))) alone,
          ))
          tracked.counted;
    registered = λ v gone. omega (
      arith,
      load-failed now e builds v,
      tracked.registered v (sym (workers-release worker now v ps) ∙ gone),
    );
  }

-- One round: the slot is released exactly when a running build was failed.
expire_one-IsTracked :
    (now : ℕ) (e : Build) (db : Database)
    → count (taken_over e) db.builds ≡ 0
    → IsTracked db
    → IsTracked (expire_one now e db)
unfolding expire_one release_claim
expire_one-IsTracked now e db alone tracked =
    elim (Bool-cases (nat_eq (count (still_running e) db.builds) 1)) [
      | inr other ↦ rw other (
          missed-Tracked now e db.builds db.provisioners alone tracked (
            ground (
              arith,
              tracked.unique e.id,
              count_mono (still_running e) (λ b. b.id == e.id) db.builds (λ b. ground arith),
            )))
      | inl one ↦ rw one (elim (Option-cases e.claimed_by) [
        | inl unclaimed ↦
            rw unclaimed (unclaimed-Tracked now e db.builds db.provisioners alone tracked unclaimed)
        | inr (worker, claimed) ↦ rw claimed (
            released-Tracked now e db.builds db.provisioners alone tracked worker claimed
              (ground arith))
      ])
    ]

expire_one-builds :
    (now : ℕ) (e : Build) (db : Database) → (expire_one now e db).builds ≡ failed now e db.builds
unfolding expire_one
expire_one-builds now e db = ground arith

expire_each-IsTracked :
    (now : ℕ) (es : List Build) (db : Database)
    → All (λ e. count (taken_over e) db.builds ≡ 0) es
    → IsTracked db
    → IsTracked (expire_each now es db)
unfolding expire_each
expire_each-IsTracked now [] db alone tracked = tracked
expire_each-IsTracked now (e ∷ es) db (alone, rest) tracked =
    expire_each-IsTracked now es (expire_one now e db)
      (rw (expire_one-builds now e db)
        (All-mono _ _ es (λ e' h. taken_over-failed now e db.builds e' h) rest))
      (expire_one-IsTracked now e db alone tracked)

-- Failing every expired lease keeps the count of every worker.
pub expire_leases-IsTracked :
    (now : ℕ) (db : Database) → IsTracked db → IsTracked (expire_leases now db)
unfolding expire_leases
expire_leases-IsTracked now db tracked =
    expire_each-IsTracked now (select (is_expired now) db.builds) db
      (All-select _ (is_expired now) db.builds (
        All-mono _ _ db.builds (λ e h. h.1)
          (All-unique (λ e b. b.id == e.id) taken_over db.builds (λ e. eq_refl e.id)
            (λ e. ground (arith, same_claim_refl e.claimed_by)) (λ e x. ground arith)
            (λ e. tracked.unique e.id))))
      tracked
