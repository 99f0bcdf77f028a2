-- ===== src/Workspaces/Soundness.antt =====
-- The table invariant of workspaces and builds, and what a transition that succeeds has done.
use quickworks.Base.{
  ℕ, ◌+◌, ◌≤◌, ◌<◌, ◌≡◌, ◌≢◌, refl, String, true, false, ◌&&◌, List, ◌==◌, arith, eq_iff, eq_refl,
  Option-cases, inl, inr,
}
use quickworks.Results.{ok, err, duplicated_key}
use quickworks.Table.{count, first, update, insert}
use quickworks.Table.Counts.{count-insert, count-update_same, first-count}
use quickworks.Database.{
  Workspace, Build, Database, Transition, is_live, is_active, active_in, insert_build,
  build_conflicts,
}
use quickworks.Workspaces.Sequences.{count-above_max}
use quickworks.Workspaces.{Service, check_start_quota}
use quickworks.Workspaces.Transitions.{
  mark, next_build, owned_by, begin_transition, transition_to, max_sequence,
}

pub record Sound (workspaces : List Workspace) (builds : List Build) : Type 0 where
  pub one_active : (id : String) → count (active_in id) builds ≤ 1
  pub unique_builds : (id : String) → count (λ b. b.id == id) builds ≤ 1
  pub unique_workspaces : (id : String) → count (λ w. w.id == id) workspaces ≤ 1
  -- The foreign key workspace_builds.workspace_id.
  pub references :
      (id : String)
      → 0 < count (λ b. b.workspace_id == id) builds
      → 0 < count (λ w. w.id == id) workspaces

abbrev pub IsSound : Database → Type 0
IsSound db = Sound db.workspaces db.builds

abbrev pub marked : Transition → ℕ → Workspace → Database → Database
marked t now w db = record db {
  workspaces = update (λ x. (x.id == w.id) && is_live x) (mark t now) db.workspaces;
}

-- What a transition that succeeds has met and done.
pub record Began (t : Transition) (build_id : String) (now : ℕ) (w : Workspace) (db : Database)
    (b : Build) (db' : Database) : Type 0 where
  pub build : b ≡ next_build t build_id now w db
  pub fresh : build_conflicts b db.builds ≡ false
  pub idle : count (active_in w.id) db.builds ≡ 0
  pub workspaces : db'.workspaces ≡ (marked t now w db).workspaces
  pub builds : db'.builds ≡ insert b db.builds

pub begin_transition-Began :
    (s : Service) (t : Transition) (build_id : String) (now owner_id : ℕ) (w : Workspace)
    (db : Database) (b : Build) (db' : Database)
    → begin_transition s t build_id now owner_id w db ≡ ok (b, db')
    → Began t build_id now w db b db'
unfolding begin_transition insert_build
begin_transition-Began s t build_id now owner_id w db b db' h = ground arith

-- Inserting a build that breaks no constraint keeps the build table sound.
pub insert-one_active :
    (b : Build) (builds : List Build) (id : String)
    → build_conflicts b builds ≡ false
    → is_active b.status ≡ true
    → count (active_in id) builds ≤ 1
    → count (active_in id) (insert b builds) ≤ 1
unfolding build_conflicts
insert-one_active b builds id fresh act h =
    ground (arith, count-insert (active_in id) b builds, eq_iff b.workspace_id id)

pub insert-unique_builds :
    (b : Build) (builds : List Build) (id : String)
    → build_conflicts b builds ≡ false
    → count (λ x. x.id == id) builds ≤ 1
    → count (λ x. x.id == id) (insert b builds) ≤ 1
unfolding build_conflicts
insert-unique_builds b builds id fresh h =
    ground (arith, count-insert (λ x. x.id == id) b builds, eq_iff b.id id)

pub insert-references :
    (b : Build) (builds : List Build) (id : String) (n : ℕ)
    → (0 < count (λ x. x.workspace_id == id) builds → 0 < n)
    → (b.workspace_id ≡ id → 0 < n)
    → 0 < count (λ x. x.workspace_id == id) (insert b builds)
    → 0 < n
insert-references b builds id n old new h =
    ground
      (arith, old, new, count-insert (λ x. x.workspace_id == id) b builds, eq_iff b.workspace_id id)

transition-IsSound :
    (t : Transition) (build_id : String) (now : ℕ) (w : Workspace) (db : Database) (b : Build)
    (db' : Database)
    → Began t build_id now w db b db'
    → 0 < count (λ x. x.id == w.id) db.workspaces
    → IsSound db
    → IsSound db'
unfolding next_build mark
transition-IsSound t build_id now w db b db' began present sound = record {
  one_active = λ id.
      rw began.builds
        (insert-one_active b db.builds id began.fresh (rw began.build refl) (sound.one_active id));
  unique_builds = λ id.
      rw began.builds (insert-unique_builds b db.builds id began.fresh (sound.unique_builds id));
  unique_workspaces = λ id. rw (began.workspaces, ids_same id) (sound.unique_workspaces id);
  references = λ id.
      rw (began.workspaces, began.builds, ids_same id)
        (insert-references b db.builds id _ (sound.references id)
          (λ e. rw (← e, began.build) present));
}
  where
    ids_same :
        (id : String)
        → count (λ x. x.id == id) (marked t now w db).workspaces
          ≡ count (λ x. x.id == id) db.workspaces
    ids_same id =
        count-update_same (λ x. x.id == id) (λ x. (x.id == w.id) && is_live x) (mark t now)
          db.workspaces (λ x. refl)

-- A start, stop or delete request that succeeds keeps the table invariant: at most one active build
-- in each workspace, unique IDs of builds and workspaces, and a workspace for every build.
pub transition_to-IsSound :
    (s : Service) (t : Transition) (build_id : String) (now owner_id : ℕ) (id : String)
    (db : Database) (b : Build) (db' : Database)
    → transition_to s t build_id now owner_id id db ≡ ok (b, db')
    → IsSound db
    → IsSound db'
unfolding transition_to
transition_to-IsSound s t build_id now owner_id id db b db' h sound =
    elim (Option-cases (first (owned_by owner_id id) db.workspaces)) [
      | inl e ↦ absurd (ground arith)
      | inr (w, e) ↦
          transition-IsSound t build_id now w db b db'
            (begin_transition-Began s t build_id now owner_id w db b db' (ground arith))
            (first-count (owned_by owner_id id) (λ x. x.id == w.id) db.workspaces w e
              (eq_refl w.id))
            sound
    ]

-- With a fresh build ID and no active build, the new build breaks no constraint.
pub next_build-fresh :
    (t : Transition) (build_id : String) (now : ℕ) (w : Workspace) (db : Database)
    → count (λ x. x.id == build_id) db.builds ≡ 0
    → count (active_in w.id) db.builds ≡ 0
    → build_conflicts (next_build t build_id now w db) db.builds ≡ false
unfolding build_conflicts next_build
next_build-fresh t build_id now w db fresh idle =
    ground (arith, count-above_max w.id (max_sequence w.id db.builds + 1) db.builds)

begin_transition-guarded :
    (s : Service) (t : Transition) (build_id : String) (now owner_id : ℕ) (w : Workspace)
    (db : Database)
    → count (λ x. x.id == build_id) db.builds ≡ 0
    → begin_transition s t build_id now owner_id w db ≢ err duplicated_key
unfolding begin_transition insert_build check_start_quota
begin_transition-guarded s t build_id now owner_id w db fresh =
    ground (arith, next_build-fresh t build_id now w db fresh)

-- If no build has the new build's ID, a transition never fails on a duplicated key: its guard of
-- active builds and its sequence number come before the unique indexes, in any tables.
pub transition_to-guarded :
    (s : Service) (t : Transition) (build_id : String) (now owner_id : ℕ) (id : String)
    (db : Database)
    → count (λ x. x.id == build_id) db.builds ≡ 0
    → transition_to s t build_id now owner_id id db ≢ err duplicated_key
unfolding transition_to
transition_to-guarded s t build_id now owner_id id db fresh =
    elim (Option-cases (first (owned_by owner_id id) db.workspaces)) [
      | inl e ↦ rw (e, transition_to) (λ h. cc)
      | inr (w, e) ↦
          rw (e, transition_to) (begin_transition-guarded s t build_id now owner_id w db fresh)
    ]
