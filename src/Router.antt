-- ===== src/Router.antt =====
-- internal/server/router.go: the HTTP handlers of provisioners and agents, up to their status codes.
-- A JSON body that does not decode is `none`; `hash` stands for the hex SHA-256 of hash().
pub mod Accounting
pub mod Browser
pub mod Tenancy
pub mod Machines
pub mod Joined
pub mod Pages
pub mod Proxied
pub mod Reconciled
pub mod Visits
pub mod Examples
use Prim.Native.Char.{code}
use Prim.Native.String
use quickworks.Base.{
  ℕ, ◌+◌, ◌*◌, String, Bool, true, false, ◌&&◌, ◌||◌, not, Option, none, some, List, [], ◌∷◌, ◌==◌,
  if◌then◌else◌, ltb, nat_eq, ℤ, pos, negsuc,
}
use quickworks.Results.{Result, ok, err}
use quickworks.Table.{insert}
use quickworks.Database.{Build, EventType, SchedulerEvent, Database, Transition, start}
use quickworks.Scheduler.Labels.{valid_labels}
use quickworks.Scheduler.Claim.{Claim, register, expire_leases, claim_matching_build}
use quickworks.Scheduler.Leases.{Lease, nil_if_empty, renew, complete_build, append_log}
use quickworks.AgentHub.{Enrolled, create_enrollment, authenticate_session}
use quickworks.AgentHub.Presence.{mark_ready}

pub data Reply : Type 0 where
  status : ℕ → Reply
  leased : Build → String → ℕ → Option Enrolled → Reply

-- The rest of `s` behind `prefix`.
unfoldable pub strip : String → String → Option String
strip String.[] s = some s
strip (String.◌∷◌ c p) String.[] = none
strip (String.◌∷◌ c p) (String.◌∷◌ d s) =
    let rest = strip p s in if nat_eq (code c) (code d) then rest else none

-- strings.TrimPrefix(s, prefix)
unfoldable pub trim_prefix : String → String → String
trim_prefix prefix s = elim (strip prefix s) [ none ↦ s | some rest ↦ rest ]

unfoldable pub lookup : String → List (String × String) → Option String
lookup k [] = none
lookup k ((j, v) ∷ m) = if j == k then some v else lookup k m

-- `internal`: the Authorization header carries the worker's own token.
unfoldable pub is_internal : (String → String) → List (String × String) → String → String → Bool
unfolding trim_prefix strip lookup
is_internal hash token_hashes authorization worker_id =
    let token = trim_prefix "Bearer " authorization in
    not (token == "") && elim (lookup worker_id token_hashes) [
      | none ↦ false
      | some expected ↦ hash token == expected
    ]

pub record ClaimInput : Type 0 where
  pub worker_id : String
  pub labels : List String
  pub capacity : ℤ

-- What a claim takes from outside: the time and the IDs and secrets that it draws.
pub record ClaimDraw : Type 0 where
  pub now : ℕ
  pub next_year : ℕ
  pub lease_id : String
  pub agent_id : String
  pub token : String

-- A capacity that is left out is 1.
unfoldable pub capacity_or_one : ℤ → ℤ
capacity_or_one (pos n) = if nat_eq n 0 then pos 1 else pos n
capacity_or_one (negsuc n) = negsuc n

-- The capacity as a number, if it is between 1 and 100.
unfoldable pub capacity_in_range : ℤ → Option ℕ
capacity_in_range (pos n) = if ltb n 1 || ltb 100 n then none else some n
capacity_in_range (negsuc n) = none

unfoldable pub record_event : String → EventType → Option Build → Database → Database
record_event worker_id event_type b db = record db {
  scheduler_events =
      insert
        (record {
          worker_id = worker_id;
          event_type = event_type;
          build_id = elim b [ none ↦ none | some x ↦ nil_if_empty x.id ];
          workspace_id = elim b [ none ↦ none | some x ↦ nil_if_empty x.workspace_id ];
          template_name = elim b [ none ↦ none | some x ↦ nil_if_empty x.template_name ];
        })
        db.scheduler_events;
}

abbrev is_start : Transition → Bool
is_start start = true
is_start _ = false

-- The answer to a claim that leased a build: a start gets an agent enrollment.
unfoldable pub answer_leased :
    (String → String) → ClaimDraw → ℕ → Build → Database → Reply × Database
answer_leased hash d until b db =
    if is_start b.transition
    then elim (create_enrollment hash d.agent_id d.token d.next_year b.workspace_id b.id db) [
      | err e ↦ (status 500, db)
      | ok (enrolled, db') ↦ (leased b d.lease_id until (some enrolled), db')
    ]
    else (leased b d.lease_id until none, db)

unfoldable pub answer_claim :
    (String → String) → ClaimDraw → Claim → Option Build × Database → Reply × Database
unfolding record_event answer_leased
answer_claim hash d c (none, db) =
    (status 204, record_event c.worker_id EventType.lease_empty none db)
answer_claim hash d c (some b, db) =
    if b.id == ""
    then (status 204, record_event c.worker_id EventType.lease_empty none db)
    else answer_leased hash d c.until b
        (record_event c.worker_id EventType.build_claimed (some b) db)

-- `claim`, behind its checks.
unfoldable pub claim_checked :
    (String → String) → (String → List String) → ClaimDraw → Claim → Database → Reply × Database
unfolding answer_claim
claim_checked hash required d c db =
    answer_claim hash d c (claim_matching_build required c (register c (expire_leases d.now db)))

unfoldable pub claim_for : (String → String) → ClaimInput → ClaimDraw → ℕ → Claim
claim_for hash input d capacity = record {
  worker_id = input.worker_id;
  labels = input.labels;
  capacity = capacity;
  lease_hash = hash d.lease_id;
  now = d.now;
  until = d.now + 2 * 60;
}

-- claim
unfoldable pub claim :
    (String → String)
    → List (String × String)
    → (String → List String)
    → ClaimDraw
    → String
    → Option ClaimInput
    → Database
    → Reply × Database
unfolding is_internal capacity_or_one capacity_in_range claim_checked claim_for
claim hash token_hashes required d authorization none db = (status 400, db)
claim hash token_hashes required d authorization (some input) db =
    if (input.worker_id == "") || not (valid_labels input.labels)
    then (status 400, db)
    else (if not (is_internal hash token_hashes authorization input.worker_id)
        then (status 401, db)
        else elim (capacity_in_range (capacity_or_one input.capacity)) [
          | none ↦ (status 400, db)
          | some capacity ↦ claim_checked hash required d (claim_for hash input d capacity) db
        ])

pub record LeaseInput : Type 0 where
  pub lease_id : String
  pub worker_id : String
  pub error : String
  pub level : String
  pub message : String

-- The status of a transaction that succeeds with 204 and fails with 409.
abbrev pub conflict_or_done : Result Database → Database → ℕ × Database
conflict_or_done (ok db') db = (204, db')
conflict_or_done (err e) db = (409, db)

unfoldable pub lease_action : String → Lease → LeaseInput → Database → ℕ × Database
lease_action action l input db =
    if action == "renew"
    then conflict_or_done (renew l db) db
    else (if action == "complete"
        then conflict_or_done (complete_build l input.error db) db
        else (if action == "logs"
            then (if input.message == ""
                then (400, db)
                else conflict_or_done (append_log l input.level input.message db) db)
            else (404, db)))

unfoldable pub lease_of : (String → String) → ℕ → String → LeaseInput → Lease
lease_of hash now id input = record {
  build_id = id;
  worker_id = input.worker_id;
  lease_hash = hash input.lease_id;
  now = now;
}

-- lease
unfoldable pub lease :
    (String → String)
    → List (String × String)
    → ℕ
    → String
    → String
    → String
    → Option LeaseInput
    → Database
    → ℕ × Database
unfolding is_internal lease_action lease_of
lease hash token_hashes now authorization id action none db = (400, db)
lease hash token_hashes now authorization id action (some input) db =
    if (input.lease_id == "") || (input.worker_id == "")
    then (400, db)
    else (if not (is_internal hash token_hashes authorization input.worker_id)
        then (401, db)
        else lease_action action (lease_of hash now id input) input db)

-- agentReady
unfoldable pub agent_ready :
    (String → String) → ℕ → String → Option String → Database → ℕ × Database
unfolding trim_prefix strip
agent_ready hash now authorization none db = (400, db)
agent_ready hash now authorization (some agent_id) db =
    if agent_id == ""
    then (400, db)
    else elim (authenticate_session hash now agent_id (trim_prefix "Bearer " authorization) db) [
      | err e ↦ (401, db)
      | ok u ↦ conflict_or_done (mark_ready now agent_id db) db
    ]
