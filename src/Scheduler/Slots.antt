-- ===== src/Scheduler/Slots.antt =====
-- The active_builds of a worker is the number of running builds that it has claimed.
use quickworks.Base.{
  ℕ, suc, ◌+◌, ◌*◌, ◌∙◌, sym, ◌≤◌, ◌≡◌, refl, String, Bool, true, false, ◌&&◌, some, List, ◌==◌,
  arith, All, nat_eq, eq_iff, eq_refl, Bool-cases, Option-cases, inl, inr, if◌then◌else◌,
}
use quickworks.Results.{ok}
use quickworks.Table.{count, first, update}
use quickworks.Table.Counts.{count-update_same, first_holds}
use quickworks.Table.Keys.{count_unique}
use quickworks.Table.Rows.{All-update, All-mono, count-update_clears}
use quickworks.Database.{Build, Provisioner, Database, is_running}
use quickworks.Scheduler.{runs_for, release_slot, take_slot}
use quickworks.Scheduler.Leases.{Lease, held, renew, finish, completed, complete_build}

abbrev pub load : List Build → String → ℕ
load builds worker = count (runs_for worker) builds

abbrev pub Tracks : (String → ℕ) → List Provisioner → Type 0
Tracks n ps = All (λ p. p.active_builds ≡ n p.worker_id) ps

pub record Tracked (builds : List Build) (ps : List Provisioner) : Type 0 where
  pub unique : (id : String) → count (λ b. b.id == id) builds ≤ 1
  pub counted : Tracks (load builds) ps
  pub registered :
      (worker : String) → count (λ p. p.worker_id == worker) ps ≡ 0 → load builds worker ≡ 0

abbrev pub IsTracked : Database → Type 0
IsTracked db = Tracked db.builds db.provisioners

-- One worker's slot is released when its load falls by one and no other load changes.
pub release-Tracks :
    (worker : String) (now : ℕ) (m n : String → ℕ) (ps : List Provisioner)
    → m worker ≡ suc (n worker)
    → ((v : String) → (v == worker) ≡ false → m v ≡ n v)
    → Tracks m ps
    → Tracks n (release_slot worker now ps)
unfolding release_slot
release-Tracks worker now m n ps own others =
    All-update _ _ (λ p. p.worker_id == worker) _ ps
      (λ p h t. ground (arith, eq_iff p.worker_id worker))
      (λ p h t. ground (arith, others p.worker_id))

pub take-Tracks :
    (worker : String) (now : ℕ) (m n : String → ℕ) (ps : List Provisioner)
    → n worker ≡ suc (m worker)
    → ((v : String) → (v == worker) ≡ false → m v ≡ n v)
    → Tracks m ps
    → Tracks n (take_slot worker now ps)
unfolding take_slot
take-Tracks worker now m n ps own others =
    All-update _ _ (λ p. p.worker_id == worker) _ ps
      (λ p h t. ground (arith, eq_iff p.worker_id worker))
      (λ p h t. ground (arith, others p.worker_id))

finish-id :
    (succeeded : Bool) (error : String) (now : ℕ) (b : Build) (id : String)
    → ((finish succeeded error now b).id == id) ≡ (b.id == id)
unfolding finish
finish-id succeeded error now b id = refl

pub workers-release :
    (worker : String) (now : ℕ) (v : String) (ps : List Provisioner)
    → count (λ p. p.worker_id == v) (release_slot worker now ps) ≡ count (λ p. p.worker_id == v) ps
unfolding release_slot
workers-release worker now v ps =
    count-update_same (λ p. p.worker_id == v) (λ p. p.worker_id == worker) _ ps (λ p. refl)

module _ (l : Lease) (error : String) (b : Build) (builds : List Build)
    (unique : count (λ x. x.id == l.build_id) builds ≤ 1)
    (found : first (λ x. is_running x.status && held l x) builds ≡ some b) where
  abbrev finished : List Build
  finished = update (λ x. x.id == l.build_id) (finish (error == "") error l.now) builds

  touched :
      (worker : String)
      → count (λ x. (x.id == l.build_id) && runs_for worker x) builds
        ≡ (if l.worker_id == worker then 1 else 0)
  touched worker = elim (Option-cases b.claimed_by) [
    | inl e ↦ absurd (ground (arith, holds))
    | inr (t, e) ↦ ground (arith, holds, one, eq_iff t l.worker_id)
  ]
    where
      holds : (is_running b.status && held l b) ≡ true
      holds = first_holds (λ x. is_running x.status && held l x) builds b found

      one :
          count (λ x. (x.id == l.build_id) && runs_for worker x) builds
          ≡ (if (b.id == l.build_id) && runs_for worker b then 1 else 0)
      one =
          count_unique (λ x. x.id == l.build_id) (λ x. (x.id == l.build_id) && runs_for worker x)
            (λ x. is_running x.status && held l x) builds b (λ x. ground arith) unique found
            (ground (arith, holds))

  load-finished :
      (worker : String)
      → load finished worker + (if l.worker_id == worker then 1 else 0) ≡ load builds worker
  unfolding finish
  load-finished worker = omega (
    arith,
    touched worker,
    count-update_clears (runs_for worker) (λ x. x.id == l.build_id)
        (finish (error == "") error l.now) builds (λ x. ground arith),
  )

-- Completing a build keeps the count of every worker.
pub complete_build-IsTracked :
    (l : Lease) (error : String) (db db' : Database)
    → complete_build l error db ≡ ok db'
    → IsTracked db
    → IsTracked db'
unfolding complete_build completed
complete_build-IsTracked l error db db' h tracked =
    elim (Option-cases (first (λ b. is_running b.status && held l b) db.builds)) [
      | inl e ↦ absurd (ground arith)
      | inr (b, e) ↦
          let same : db' ≡ completed l error b db = ground arith in
          let loads = load-finished l error b db.builds (tracked.unique l.build_id) e in
          rw same (record {
            unique = λ id.
                rw
                  (count-update_same (λ x. x.id == id) (λ x. x.id == l.build_id)
                    (finish (error == "") error l.now) db.builds
                    (λ x. finish-id (error == "") error l.now x id))
                  (tracked.unique id);
            counted =
                release-Tracks l.worker_id l.now (load db.builds) _ db.provisioners
                  (ground (arith, loads l.worker_id, eq_refl l.worker_id))
                  (λ v differs. ground (arith, loads v, eq_iff l.worker_id v, eq_iff v l.worker_id))
                  tracked.counted;
            registered = λ worker gone. ground (
              arith,
              loads worker,
              tracked.registered worker,
              workers-release l.worker_id l.now worker db.provisioners,
            );
          })
    ]

extended : Lease → Build → Build
extended l b = record b { lease_expires_at = some (l.now + 2 * 60) }

extended_ids :
    (l : Lease) (id : String) (builds : List Build)
    → count (λ b. b.id == id) (update (held l) (extended l) builds) ≡ count (λ b. b.id == id) builds
unfolding extended
extended_ids l id builds =
    count-update_same (λ b. b.id == id) (held l) (extended l) builds (λ b. refl)

extended_loads :
    (l : Lease) (worker : String) (builds : List Build)
    → load (update (held l) (extended l) builds) worker ≡ load builds worker
unfolding extended
extended_loads l worker builds =
    count-update_same (runs_for worker) (held l) (extended l) builds (λ b. refl)

-- So does renewing a lease.
pub renew-IsTracked :
    (l : Lease) (db db' : Database) → renew l db ≡ ok db' → IsTracked db → IsTracked db'
unfolding renew
renew-IsTracked l db db' h tracked = elim (Bool-cases (nat_eq (count (held l) db.builds) 1)) [
  | inr other ↦ absurd (ground arith)
  | inl one ↦
      let same : db' ≡ record db { builds = update (held l) (extended l) db.builds } =
        unfold extended in (ground arith) in
      rw same (record {
        unique = λ id. rw (extended_ids l id db.builds) (tracked.unique id);
        counted =
            All-mono _ _ db.provisioners (λ p e. e ∙ sym (extended_loads l p.worker_id db.builds))
              tracked.counted;
        registered =
            λ worker gone. extended_loads l worker db.builds ∙ tracked.registered worker gone;
      })
]
