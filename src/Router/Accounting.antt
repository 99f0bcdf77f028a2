-- ===== src/Router/Accounting.antt =====
-- The count of running builds through the handlers of router.go.
use quickworks.Base.{
  ℕ, ◌≡◌, refl, String, Bool, true, false, ◌||◌, not, Option, none, some, List, ◌==◌, arith,
  Bool-cases, Option-cases, inl, inr, if◌then◌else◌,
}
use quickworks.Results.{Result, ok, err}
use quickworks.Database.{Build, Database}
use quickworks.Scheduler.Claim.{Claim, register, expire_leases, claim_matching_build}
use quickworks.Scheduler.Leases.{Lease, renew, complete_build, append_log}
use quickworks.Scheduler.Slots.{IsTracked, complete_build-IsTracked, renew-IsTracked}
use quickworks.Scheduler.Expiry.{expire_leases-IsTracked}
use quickworks.Scheduler.Claiming.{
  register-IsTracked, register-Registered, claim_matching_build-IsTracked,
}
use quickworks.Scheduler.Labels.{valid_labels}
use quickworks.AgentHub.{create_enrollment}
use quickworks.Router.{
  ClaimInput, ClaimDraw, claim_for, answer_claim, claim_checked, claim, LeaseInput,
  conflict_or_done, lease_action, lease_of, lease, is_internal, capacity_or_one, capacity_in_range,
}

abbrev SameSlots : Database → Database → Type 0
SameSlots db db' = (db'.builds ≡ db.builds) × (db'.provisioners ≡ db.provisioners)

-- Enrolling the agent and recording the event touch neither builds nor provisioners.
answer_claim-SameSlots :
    (hash : String → String) (d : ClaimDraw) (c : Claim) (r : Option Build × Database)
    → SameSlots r.1 (answer_claim hash d c r).1
unfolding answer_claim create_enrollment
answer_claim-SameSlots hash d c (none, db) = ground arith
answer_claim-SameSlots hash d c (some b, db) = ground arith

claim_checked-IsTracked :
    (hash : String → String) (required : String → List String) (d : ClaimDraw) (c : Claim)
    (db : Database)
    → IsTracked db
    → IsTracked (claim_checked hash required d c db).1
unfolding claim_checked
claim_checked-IsTracked hash required d c db tracked =
    let registered = register c (expire_leases d.now db) in
    let r = claim_matching_build required c registered in
    let (same_builds, same_provisioners) = answer_claim-SameSlots hash d c r in
    rw (same_builds, same_provisioners)
      (claim_matching_build-IsTracked required c registered
        (register-Registered c (expire_leases d.now db))
        (register-IsTracked c (expire_leases d.now db) (expire_leases-IsTracked d.now db tracked)))

-- If every worker's active_builds is the number of running builds that it has claimed, build IDs
-- are unique and only registered workers run builds, then the same holds after any claim request,
-- whatever it holds and however it is answered: expiry of leases, registration, the lease of a
-- build and the enrollment of its agent included.
pub claim-IsTracked :
    (hash : String → String) (token_hashes : List (String × String))
    (required : String → List String) (d : ClaimDraw) (authorization : String)
    (input : Option ClaimInput) (db : Database)
    → IsTracked db
    → IsTracked (claim hash token_hashes required d authorization input db).1
unfolding claim
claim-IsTracked hash token_hashes required d authorization none db tracked = tracked
claim-IsTracked hash token_hashes required d authorization (some input) db tracked =
    elim (Bool-cases ((input.worker_id == "") || not (valid_labels input.labels))) [
      | inl bad ↦ rw bad tracked
      | inr good ↦
          rw good
            (elim (Bool-cases (not (is_internal hash token_hashes authorization input.worker_id))) [
              | inl stranger ↦ rw stranger tracked
              | inr known ↦
                  rw known
                    (elim (Option-cases (capacity_in_range (capacity_or_one input.capacity))) [
                      | inl outside ↦ rw outside tracked
                      | inr (n, inside) ↦ rw inside (
                          claim_checked-IsTracked hash required d (claim_for hash input d n) db
                            tracked)
                    ])
            ])
    ]

append_log-SameSlots :
    (l : Lease) (level message : String) (db db' : Database)
    → append_log l level message db ≡ ok db'
    → SameSlots db db'
unfolding append_log
append_log-SameSlots l level message db db' h = ground arith

done-IsTracked :
    (r : Result Database) (db : Database)
    → ((db' : Database) → r ≡ ok db' → IsTracked db')
    → IsTracked db
    → IsTracked (conflict_or_done r db).1
done-IsTracked (ok db') db step tracked = step db' refl
done-IsTracked (err e) db step tracked = tracked

logged-IsTracked :
    (l : Lease) (input : LeaseInput) (db db' : Database)
    → IsTracked db
    → append_log l input.level input.message db ≡ ok db'
    → IsTracked db'
logged-IsTracked l input db db' tracked h =
    let (same_builds, same_provisioners) =
      append_log-SameSlots l input.level input.message db db' h in
    rw (same_builds, same_provisioners) tracked

lease_action-IsTracked :
    (action : String) (l : Lease) (input : LeaseInput) (db : Database)
    → IsTracked db
    → IsTracked (lease_action action l input db).1
unfolding lease_action
lease_action-IsTracked action l input db tracked =
    if_IsTracked (action == "renew") _ _
      (done-IsTracked (renew l db) db (λ db' h. renew-IsTracked l db db' h tracked) tracked)
      (if_IsTracked (action == "complete") _ _
        (done-IsTracked (complete_build l input.error db) db
          (λ db' h. complete_build-IsTracked l input.error db db' h tracked) tracked)
        (if_IsTracked (action == "logs") _ _
          (if_IsTracked (input.message == "") _ _ tracked (
            done-IsTracked (append_log l input.level input.message db) db
              (λ db' h. logged-IsTracked l input db db' tracked h) tracked))
          tracked))
  where
    if_IsTracked :
        (t : Bool) (x y : ℕ × Database)
        → IsTracked x.1
        → IsTracked y.1
        → IsTracked (if t then x else y).1
    if_IsTracked true x y h k = h
    if_IsTracked false x y h k = k

-- The same count of running builds is kept by any lease request, whatever it holds and however it
-- is answered: renew, complete, logs and any other action.
pub lease-IsTracked :
    (hash : String → String) (token_hashes : List (String × String)) (now : ℕ)
    (authorization id action : String) (input : Option LeaseInput) (db : Database)
    → IsTracked db
    → IsTracked (lease hash token_hashes now authorization id action input db).1
unfolding lease
lease-IsTracked hash token_hashes now authorization id action none db tracked = tracked
lease-IsTracked hash token_hashes now authorization id action (some input) db tracked =
    elim (Bool-cases ((input.lease_id == "") || (input.worker_id == ""))) [
      | inl bad ↦ rw bad tracked
      | inr good ↦
          rw good
            (elim (Bool-cases (not (is_internal hash token_hashes authorization input.worker_id))) [
              | inl stranger ↦ rw stranger tracked
              | inr known ↦
                  rw known
                    (lease_action-IsTracked action (lease_of hash now id input) input db tracked)
            ])
    ]
