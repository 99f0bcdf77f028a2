-- ===== src/Workspaces/Transitions.antt =====
-- internal/server/workspace/service.go: Transition, StopIdle and Touch.
use quickworks.Base.{
  ℕ, suc, ◌+◌, String, Bool, true, false, ◌&&◌, Option, none, some, List, [], ◌∷◌, ◌==◌,
  if◌then◌else◌, ltb, leb, nat_eq, take, is_some,
}
use quickworks.Results.{
  Error, Result, ok, err, refuse, not_found, invalid_transition, workspace_deleted, active_build,
  ◌>>=◌, ◌>>◌,
}
use quickworks.Table.{count, select, first, update, sort}
use quickworks.Database.{
  Workspace, Build, Database, Desired, Observed, Status, Transition, start, stop, delete, is_live,
  is_desired_running, active_in, insert_build,
}
use quickworks.Workspaces.{Service, check_start_quota}

-- The transition that a request names.
unfoldable pub parse_transition : String → Option Transition
parse_transition name =
    if name == "start"
    then some start
    else (if name == "stop" then some stop else (if name == "delete" then some delete else none))

abbrev pub desired_of : Transition → Desired
desired_of start = Desired.running
desired_of stop = Desired.stopped
desired_of delete = Desired.deleted

abbrev pub observed_of : Transition → Observed
observed_of start = Observed.starting
observed_of stop = Observed.stopping
observed_of delete = Observed.deleting

abbrev pub is_start : Transition → Bool
is_start start = true
is_start _ = false

-- COALESCE(MAX(sequence), 0) over the builds of a workspace
unfoldable pub max_sequence : String → List Build → ℕ
max_sequence id [] = 0
max_sequence id (b ∷ bs) =
    let rest = max_sequence id bs in
    if (b.workspace_id == id) && ltb rest b.sequence then b.sequence else rest

-- The columns that Updates writes.
unfoldable pub mark : Transition → ℕ → Workspace → Workspace
mark t now w = record w {
  desired_state = desired_of t;
  observed_state = observed_of t;
  updated_at = now;
  last_access_at = if is_start t then now else w.last_access_at;
}

unfoldable pub next_build : Transition → String → ℕ → Workspace → Database → Build
next_build t build_id now w db = record {
  id = build_id;
  workspace_id = w.id;
  sequence = max_sequence w.id db.builds + 1;
  transition = t;
  template_name = w.template_name;
  status = Status.queued;
  claimed_by = none;
  lease_id_hash = none;
  lease_expires_at = none;
  started_at = none;
  completed_at = none;
  error = none;
  created_at = now;
}

-- id = ? AND owner_id = ? AND deleted_at IS NULL
abbrev pub owned_by : ℕ → String → Workspace → Bool
owned_by owner_id id w = (w.id == id) && (nat_eq w.owner_id owner_id && is_live w)

-- Everything after the workspace is found.
unfoldable pub begin_transition :
    Service → Transition → String → ℕ → ℕ → Workspace → Database → Result (Build × Database)
begin_transition s t build_id now owner_id w db = do
  refuse (is_some w.deleted_at) workspace_deleted
  if is_start t then check_start_quota s owner_id w.id w.template_name db else ok tt
  refuse (ltb 0 (count (active_in w.id) db.builds)) active_build
  let b = next_build t build_id now w db
  let marked = update (λ x. (x.id == w.id) && is_live x) (mark t now) db.workspaces
  db' ← insert_build b (record db { workspaces = marked })
  ok (b, db')

-- Transition, of a name that parsed.
unfoldable pub transition_to :
    Service → Transition → String → ℕ → ℕ → String → Database → Result (Build × Database)
transition_to s t build_id now owner_id id db = elim (first (owned_by owner_id id) db.workspaces) [
  | none ↦ err not_found
  | some w ↦ begin_transition s t build_id now owner_id w db
]

-- Transition; `build_id` is the random ID of the build and `now` the time.
unfoldable pub transition :
    Service → String → String → ℕ → ℕ → String → Database → Result (Build × Database)
transition s name build_id now owner_id id db = elim (parse_transition name) [
  | none ↦ err invalid_transition
  | some t ↦ transition_to s t build_id now owner_id id db
]

-- UPDATE workspaces SET last_access_at ... and the test of RowsAffected.
unfoldable pub touch : ℕ → ℕ → String → Database → Result Database
touch now owner_id id db =
    if nat_eq (count (owned_by owner_id id) db.workspaces) 1
    then ok (record db {
      workspaces =
          update (owned_by owner_id id) (λ w. record w { last_access_at = now; updated_at = now })
            db.workspaces;
    })
    else err not_found

abbrev is_up : Observed → Bool
is_up Observed.running = true
is_up Observed.degraded = true
is_up _ = false

-- The WHERE clause of StopIdle.
abbrev pub is_idle : ℕ → Workspace → Bool
is_idle before w =
    is_desired_running w.desired_state
    && (is_up w.observed_state && (is_live w && ltb w.last_access_at before))

unfoldable pub idle_candidates : ℕ → Database → List Workspace
idle_candidates before db =
    take 100
      (sort (λ a b. leb a.last_access_at b.last_access_at) (select (is_idle before) db.workspaces))

-- err != nil && !errors.Is(err, gorm.ErrRecordNotFound), less the active build that is passed over
unfoldable pub stops_the_sweep : Error → Bool
stops_the_sweep not_found = false
stops_the_sweep active_build = false
stops_the_sweep _ = true

-- The loop of StopIdle: each stop is a transaction of its own.
unfoldable pub stop_each :
    Service → (ℕ → String) → ℕ → ℕ → List Workspace → Database → Option Error × Database
stop_each s build_ids now i [] db = (none, db)
stop_each s build_ids now i (w ∷ ws) db =
    elim (transition_to s stop (build_ids i) now w.owner_id w.id db) [
      | ok (b, db') ↦ stop_each s build_ids now (suc i) ws db'
      | err e ↦
          let rest = stop_each s build_ids now (suc i) ws db in
          if stops_the_sweep e then (some e, db) else rest
    ]

unfoldable pub stop_idle : Service → (ℕ → String) → ℕ → ℕ → Database → Option Error × Database
unfolding stop_each
stop_idle s build_ids now before db = stop_each s build_ids now 0 (idle_candidates before db) db
