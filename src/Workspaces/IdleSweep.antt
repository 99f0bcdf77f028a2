-- ===== src/Workspaces/IdleSweep.antt =====
-- StopIdle stops no workspace that was used after the deadline.
use native.Mathlib.Nat.{le_trans}
use quickworks.Base.{
  ◌∙◌, ℕ, suc, ◌≤◌, ◌<◌, ◌≡◌, refl, String, Bool, true, ◌&&◌, not, List, [], ◌∷◌, ◌==◌, arith, All,
  ltb, eq_iff, eq_refl, Bool-cases, Option-cases, inl, inr,
}
use quickworks.Results.{ok, Result-cases}
use quickworks.Table.{count, select, first}
use quickworks.Table.Counts.{count-update, count-update_same, first_holds}
use quickworks.Table.Keys.{count-zero_mono}
use quickworks.Table.Rows.{All-mono, All-select, All-selected, All-unique, All-sort, All-take}
use quickworks.Database.{Workspace, Build, Database, stop, is_live, is_desired_running}
use quickworks.Workspaces.{Service}
use quickworks.Workspaces.Transitions.{
  mark, owned_by, transition_to, is_idle, idle_candidates, stop_each, stop_idle, stops_the_sweep,
}
use quickworks.Workspaces.Soundness.{IsSound, marked, begin_transition-Began, transition_to-IsSound}
use quickworks.Workspaces.Quotas.{transition_to-WithinQuota}
use quickworks.Workspaces.Outcomes.{IsGood}

-- Under the ID, not touched before the deadline.
abbrev recent : ℕ → String → Workspace → Bool
recent before id w = (w.id == id) && not (ltb w.last_access_at before)

-- ... and wanted running.
abbrev pub recent_running : ℕ → String → Workspace → Bool
recent_running before id w = recent before id w && is_desired_running w.desired_state

stop_workspaces :
    (s : Service) (build_id : String) (now owner_id : ℕ) (id : String) (db : Database) (b : Build)
    (db' : Database)
    → transition_to s stop build_id now owner_id id db ≡ ok (b, db')
    → (w : Workspace) × (w.id ≡ id) × (db'.workspaces ≡ (marked stop now w db).workspaces)
unfolding transition_to
stop_workspaces s build_id now owner_id id db b db' h =
    elim (Option-cases (first (owned_by owner_id id) db.workspaces)) [
      | inl e ↦ absurd (ground arith)
      | inr (w, e) ↦ (
        w,
        ground (arith, first_holds (owned_by owner_id id) db.workspaces w e, eq_iff w.id id),
        (begin_transition-Began s stop build_id now owner_id w db b db' (ground arith)).workspaces,
      )
    ]

module _ (before now : ℕ) (w : Workspace) (db : Database) where
  -- What a stop under an ID that no recent workspace has leaves alone.
  marked-recent :
      (id : String)
      → count (recent before id) (marked stop now w db).workspaces
        ≡ count (recent before id) db.workspaces
  unfolding mark
  marked-recent id =
      count-update_same (recent before id) (λ x. (x.id == w.id) && is_live x) (mark stop now)
        db.workspaces (λ x. refl)

  marked-recent_running :
      (id : String)
      → count (recent before w.id) db.workspaces ≡ 0
      → count (recent_running before id) db.workspaces
        ≤ count (recent_running before id) (marked stop now w db).workspaces
  marked-recent_running id none_recent = omega (
    arith,
    count-update (recent_running before id) (λ x. (x.id == w.id) && is_live x) (mark stop now)
        db.workspaces,
    count-zero_mono (λ x. ((x.id == w.id) && is_live x) && recent_running before id x)
        (recent before w.id) db.workspaces (λ x. ground arith) none_recent,
  )

-- Every workspace still to be stopped is the only one under its ID, and not recent.
abbrev Candidates : ℕ → List Workspace → List Workspace → Type 0
Candidates before cs ws = All (λ c. count (recent before c.id) ws ≡ 0) cs

stop_each-recent :
    (s : Service) (ids : ℕ → String) (before now i : ℕ) (cs : List Workspace) (db : Database)
    (id : String)
    → Candidates before cs db.workspaces
    → count (recent_running before id) db.workspaces
      ≤ count (recent_running before id) (stop_each s ids now i cs db).1.workspaces
unfolding stop_each
stop_each-recent s ids before now i [] db id cand = omega arith
stop_each-recent s ids before now i (c ∷ cs) db id (alone, rest) =
    elim (Result-cases (transition_to s stop (ids i) now c.owner_id c.id db)) [
      | inl ((b, db'), e) ↦
          let (w, same_id, after) = stop_workspaces s (ids i) now c.owner_id c.id db b db' e in
          let kept : Candidates before cs db'.workspaces =
            rw after (All-mono _ _ cs (λ c' h. marked-recent before now w db c'.id ∙ h) rest) in
          let step : count (recent_running before id) db.workspaces
              ≤ count (recent_running before id) db'.workspaces =
            rw after (marked-recent_running before now w db id (rw same_id alone)) in
          rw (e, stop_each)
            (le_trans step (stop_each-recent s ids before now (suc i) cs db' id kept))
      | inr (error, e) ↦
          rw (e, stop_each)
            (elim (Bool-cases (stops_the_sweep error)) [
              | inl halts ↦ rw halts (omega arith)
              | inr goes_on ↦ rw goes_on (stop_each-recent s ids before now (suc i) cs db id rest)
            ])
    ]

recent_of_idle :
    (before : ℕ) (ws : List Workspace)
    → ((id : String) → count (λ w. w.id == id) ws ≤ 1)
    → Candidates before (select (is_idle before) ws) ws
recent_of_idle before ws unique =
    idle_only (select (is_idle before) ws) (All-select _ (is_idle before) ws alone)
      (All-selected (is_idle before) ws)
  where
    alone :
        All
          (λ c.
            (0 < count (λ w. w.id == c.id) ws)
            × (count (λ w. ltb c.last_access_at before && recent before c.id w) ws ≡ 0))
          ws
    alone =
        All-unique (λ c w. w.id == c.id)
          (λ c w. ltb c.last_access_at before && recent before c.id w) ws (λ c. eq_refl c.id)
          (λ c. ground arith) (λ c w. ground arith) (λ c. unique c.id)

    idle_only :
        (cs : List Workspace)
        → All
            (λ c.
              (0 < count (λ w. w.id == c.id) ws)
              × (count (λ w. ltb c.last_access_at before && recent before c.id w) ws ≡ 0))
            cs
        → All (λ c. is_idle before c ≡ true) cs
        → Candidates before cs ws
    idle_only [] h k = tt
    idle_only (c ∷ cs) (h, hs) (k, ks) = (
      count-zero_mono (recent before c.id)
          (λ w. ltb c.last_access_at before && recent before c.id w) ws (λ w. ground arith) h.1,
      idle_only cs hs ks,
    )

-- In sound tables, a workspace that is wanted running and was last used at or after the deadline is
-- still wanted running after the sweep of idle workspaces.
pub stop_idle-recent :
    (s : Service) (ids : ℕ → String) (now before : ℕ) (db : Database) (id : String)
    → IsSound db
    → count (recent_running before id) db.workspaces
      ≤ count (recent_running before id) (stop_idle s ids now before db).1.workspaces
unfolding stop_idle idle_candidates
stop_idle-recent s ids now before db id sound =
    stop_each-recent s ids before now 0 (idle_candidates before db) db id (
      All-take _ 100 _
        (All-sort _ _ _ (recent_of_idle before db.workspaces sound.unique_workspaces)))

stop_each-IsSound :
    (s : Service) (ids : ℕ → String) (now i : ℕ) (cs : List Workspace) (db : Database) (owner : ℕ)
    (template : String)
    → IsGood s owner template db
    → IsGood s owner template (stop_each s ids now i cs db).1
unfolding stop_each
stop_each-IsSound s ids now i [] db owner template good = good
stop_each-IsSound s ids now i (c ∷ cs) db owner template (sound, within) =
    elim (Result-cases (transition_to s stop (ids i) now c.owner_id c.id db)) [
      | inl ((b, db'), e) ↦
          rw (e, stop_each)
            (stop_each-IsSound s ids now (suc i) cs db' owner template (
              transition_to-IsSound s stop (ids i) now c.owner_id c.id db b db' e sound,
              transition_to-WithinQuota s stop (ids i) now c.owner_id c.id db b db' owner template e
                  sound within,
            ))
      | inr (error, e) ↦
          rw (e, stop_each)
            (elim (Bool-cases (stops_the_sweep error)) [
              | inl halts ↦ rw halts (sound, within)
              | inr goes_on ↦
                  rw goes_on
                    (stop_each-IsSound s ids now (suc i) cs db owner template (sound, within))
            ])
    ]

-- From sound tables in which an owner is within the quotas of a template, the sweep leaves the
-- tables sound and the owner within those quotas, also when it breaks off at an error.
pub stop_idle-IsGood :
    (s : Service) (ids : ℕ → String) (now before : ℕ) (db : Database) (owner : ℕ)
    (template : String)
    → IsGood s owner template db
    → IsGood s owner template (stop_idle s ids now before db).1
unfolding stop_idle
stop_idle-IsGood s ids now before db owner template good =
    stop_each-IsSound s ids now 0 (idle_candidates before db) db owner template good
