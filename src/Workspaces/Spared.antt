-- ===== src/Workspaces/Spared.antt =====
-- internal/server/workspace/service.go: what StopIdle leaves of a workspace that was used after the deadline.
use quickworks.Base.{
  ℕ, suc, ◌≡◌, refl, ◌∙◌, String, Bool, true, false, ◌&&◌, List, [], ◌∷◌, ◌==◌, arith, All, ltb,
  eq_iff, Bool-cases, Option-cases, inl, inr,
}
use quickworks.Results.{ok, Result-cases}
use quickworks.Table.{count, select, first, insert}
use quickworks.Table.Counts.{first_holds}
use quickworks.Table.Changes.{select-update_none}
use quickworks.Table.Rows.{All-select, All-selected, All-sort, All-take}
use quickworks.Database.{Workspace, Build, Database, stop, is_live, insert_build}
use quickworks.Workspaces.{Service}
use quickworks.Workspaces.Transitions.{
  mark, next_build, owned_by, begin_transition, transition_to, is_idle, idle_candidates, stop_each,
  stop_idle, stops_the_sweep,
}
use quickworks.Workspaces.Soundness.{begin_transition-Began}

-- The rows that belong to a workspace, and everyone's agents, are the same.
pub record IsSpared (id : String) (db db' : Database) : Type 0 where
  pub rows : select (λ w. w.id == id) db'.workspaces ≡ select (λ w. w.id == id) db.workspaces
  pub builds :
      select (λ b. b.workspace_id == id) db'.builds ≡ select (λ b. b.workspace_id == id) db.builds
  pub agents : db'.agents ≡ db.agents

begin_transition-agents :
    (s : Service) (build_id : String) (now owner_id : ℕ) (w : Workspace) (db : Database) (b : Build)
    (db' : Database)
    → begin_transition s stop build_id now owner_id w db ≡ ok (b, db')
    → db'.agents ≡ db.agents
unfolding begin_transition insert_build
begin_transition-agents s build_id now owner_id w db b db' h = ground arith

select-insert_other :
    (id : String) (b : Build) (builds : List Build)
    → (b.workspace_id == id) ≡ false
    → select (λ x. x.workspace_id == id) (insert b builds)
      ≡ select (λ x. x.workspace_id == id) builds
unfolding select insert
select-insert_other id b [] other = rw other refl
select-insert_other id b (x ∷ builds) other = ground (arith, select-insert_other id b builds)

-- A stop under another ID.
stop-IsSpared :
    (s : Service) (build_id : String) (now owner_id : ℕ) (other id : String) (db : Database)
    (b : Build) (db' : Database)
    → transition_to s stop build_id now owner_id other db ≡ ok (b, db')
    → (other == id) ≡ false
    → IsSpared id db db'
unfolding transition_to next_build mark
stop-IsSpared s build_id now owner_id other id db b db' h apart =
    elim (Option-cases (first (owned_by owner_id other) db.workspaces)) [
      | inl missing ↦ absurd (ground arith)
      | inr (w, found) ↦
          let begun : begin_transition s stop build_id now owner_id w db ≡ ok (b, db') =
            ground arith in
          let began = begin_transition-Began s stop build_id now owner_id w db b db' begun in
          let same : w.id ≡ other = ground (
            arith,
            first_holds (owned_by owner_id other) db.workspaces w found,
            eq_iff w.id other,
          ) in
          let away : (w.id == id) ≡ false = rw same apart in
          record {
            rows = rw began.workspaces (
                select-update_none (λ x. x.id == id) (λ x. (x.id == w.id) && is_live x)
                  (mark stop now) db.workspaces (λ x. refl)
                  (λ x named. ground (arith, eq_iff x.id id, eq_iff x.id w.id, eq_iff w.id id)));
            builds = rw began.builds (select-insert_other id b db.builds (rw began.build away));
            agents = begin_transition-agents s build_id now owner_id w db b db' begun;
          }
    ]

IsSpared-self : (id : String) (db : Database) → IsSpared id db db
IsSpared-self id db = record { rows = refl; builds = refl; agents = refl }

after : (id : String) (a b c : Database) → IsSpared id a b → IsSpared id b c → IsSpared id a c
after id a b c h k = record {
  rows = k.rows ∙ h.rows;
  builds = k.builds ∙ h.builds;
  agents = k.agents ∙ h.agents;
}

stop_each-IsSpared :
    (s : Service) (ids : ℕ → String) (now i : ℕ) (cs : List Workspace) (db : Database) (id : String)
    → All (λ c. (c.id == id) ≡ false) cs
    → IsSpared id db (stop_each s ids now i cs db).1
unfolding stop_each
stop_each-IsSpared s ids now i [] db id others = IsSpared-self id db
stop_each-IsSpared s ids now i (c ∷ cs) db id (other, others) =
    elim (Result-cases (transition_to s stop (ids i) now c.owner_id c.id db)) [
      | inl ((b, db'), stopped) ↦
          rw (stopped, stop_each)
            (after id db db' _
              (stop-IsSpared s (ids i) now c.owner_id c.id id db b db' stopped other)
              (stop_each-IsSpared s ids now (suc i) cs db' id others))
      | inr (e, failed) ↦
          rw (failed, stop_each)
            (elim (Bool-cases (stops_the_sweep e)) [
              | inl halts ↦ rw halts (IsSpared-self id db)
              | inr on ↦ rw on (stop_each-IsSpared s ids now (suc i) cs db id others)
            ])
    ]

abbrev is_old : String → ℕ → Workspace → Bool
is_old id before w = (w.id == id) && ltb w.last_access_at before

none_old :
    (id : String) (before : ℕ) (ws : List Workspace)
    → count (is_old id before) ws ≡ 0
    → All (λ c. is_old id before c ≡ false) ws
unfolding count
none_old id before [] h = tt
none_old id before (w ∷ ws) h = (ground arith, none_old id before ws (ground arith))

others_idle :
    (id : String) (before : ℕ) (cs : List Workspace)
    → All (λ c. is_old id before c ≡ false) cs
    → All (λ c. is_idle before c ≡ true) cs
    → All (λ c. (c.id == id) ≡ false) cs
others_idle id before [] young idle = tt
others_idle id before (c ∷ cs) (young, youngs) (idle, idles) =
    (ground arith, others_idle id before cs youngs idles)

pub stop_idle-IsSpared :
    (s : Service) (ids : ℕ → String) (now before : ℕ) (db : Database) (id : String)
    → count (λ w. (w.id == id) && ltb w.last_access_at before) db.workspaces ≡ 0
    → IsSpared id db (stop_idle s ids now before db).1
unfolding stop_idle idle_candidates
stop_idle-IsSpared s ids now before db id young =
    stop_each-IsSpared s ids now 0 (idle_candidates before db) db id (
      All-take _ 100 _ (
        All-sort _ _ _ (
          others_idle id before _
            (All-select _ (is_idle before) db.workspaces (none_old id before db.workspaces young))
            (All-selected (is_idle before) db.workspaces))))
