-- ===== src/Workspaces/Decided.antt =====
-- internal/server/workspace/service.go: what Transition answers, in every case.
use quickworks.Base.{
  ℕ, ◌+◌, ◌<◌, ◌≡◌, refl, ◌∙◌, String, Bool, true, false, not, ◌&&◌, none, some, List, [], ◌∷◌,
  ◌==◌, leb, ltb, is_some, nat_eq, if◌then◌else◌, arith, eq_refl, Bool-cases, Option-cases, inl,
  inr, ◌⊎◌,
}
use quickworks.Results.{Error, Result, ok, err, not_found, active_build, Result-cases}
use quickworks.Table.{count, select, first, insert, update}
use quickworks.Table.Counts.{first_holds}
use quickworks.Table.Changes.{first-update, select-update_none}
use quickworks.Database.{
  Workspace, Build, Database, Transition, Status, is_live, active_in, insert_build, build_conflicts,
}
use quickworks.Workspaces.{Service, check_start_quota}
use quickworks.Workspaces.Transitions.{
  is_start, mark, next_build, max_sequence, begin_transition, transition_to,
}
use quickworks.Workspaces.Soundness.{IsSound, marked, next_build-fresh, transition_to-IsSound}

-- The row of the owner's workspace, if it is there and not deleted.
abbrev pub own_row : ℕ → String → Workspace → Bool
own_row owner_id id w = (w.id == id) && (nat_eq w.owner_id owner_id && is_live w)

-- A transition of the workspace `w` that has begun.
pub record IsBegun (t : Transition) (build_id : String) (now owner_id : ℕ) (id : String)
    (w : Workspace) (db : Database) (b : Build) (db' : Database) : Type 0 where
  pub named : (b.id ≡ build_id) × (b.workspace_id ≡ w.id) × (b.transition ≡ t)
  pub waiting : b.status ≡ Status.queued
  pub above : count (λ x. (x.workspace_id == w.id) && leb b.sequence x.sequence) db.builds ≡ 0
  pub builds : db'.builds ≡ insert b db.builds
  pub row : first (own_row owner_id id) db'.workspaces ≡ some (mark t now w)
  pub others :
      select (λ x. not (x.id == w.id)) db'.workspaces
      ≡ select (λ x. not (x.id == w.id)) db.workspaces
  pub sound : IsSound db'

count-at_max :
    (id : String) (n : ℕ) (bs : List Build)
    → max_sequence id bs < n
    → count (λ x. (x.workspace_id == id) && leb n x.sequence) bs ≡ 0
unfolding count max_sequence
count-at_max id n [] h = refl
count-at_max id n (b ∷ bs) h = ground (arith, count-at_max id n bs)

abbrev pub quota_of : Service → Transition → ℕ → Workspace → Database → Result (Unit {0})
quota_of s t owner_id w db =
    if is_start t then check_start_quota s owner_id w.id w.template_name db else ok tt

abbrev begun_db : Transition → String → ℕ → Workspace → Database → Database
begun_db t build_id now w db = record (marked t now w db) {
  builds = insert (next_build t build_id now w db) db.builds;
}

begin_transition-cases :
    (s : Service) (t : Transition) (build_id : String) (now owner_id : ℕ) (w : Workspace)
    (db : Database)
    → is_live w ≡ true
    → count (λ x. x.id == build_id) db.builds ≡ 0
    → ((e : Error) × (quota_of s t owner_id w db ≡ err e)
        × (begin_transition s t build_id now owner_id w db ≡ err e))
      ⊎ (((0 < count (active_in w.id) db.builds)
            × (begin_transition s t build_id now owner_id w db ≡ err active_build))
          ⊎ ((count (active_in w.id) db.builds ≡ 0)
              × (begin_transition s t build_id now owner_id w db
                  ≡ ok (next_build t build_id now w db, begun_db t build_id now w db))))
unfolding begin_transition insert_build
begin_transition-cases s t build_id now owner_id w db live fresh =
    let there : is_some w.deleted_at ≡ false = ground arith in
    elim (Result-cases (quota_of s t owner_id w db)) [
      | inr (e, full) ↦ inl (e, full, rw (there, full) refl)
      | inl (u, passed) ↦ elim (Bool-cases (ltb 0 (count (active_in w.id) db.builds))) [
        | inl busy ↦ inr (inl (ground arith, rw (there, passed, busy) refl))
        | inr idle ↦
            let no_active : count (active_in w.id) db.builds ≡ 0 = ground arith in
            let free : build_conflicts (next_build t build_id now w db) db.builds ≡ false =
              next_build-fresh t build_id now w db fresh no_active in
            inr (inr (no_active, rw (there, passed, idle, free) refl))
      ]
    ]

marked_row :
    (t : Transition) (now owner_id : ℕ) (id : String) (w : Workspace) (ws : List Workspace)
    → first (own_row owner_id id) ws ≡ some w
    → first (own_row owner_id id) (update (λ x. (x.id == w.id) && is_live x) (mark t now) ws)
      ≡ some (mark t now w)
unfolding mark
marked_row t now owner_id id w ws found =
    let own = first_holds (own_row owner_id id) ws w found in
    let touched : (w.id == w.id) && is_live w ≡ true = ground (arith, eq_refl w.id) in
    first-update (own_row owner_id id) (λ x. (x.id == w.id) && is_live x) (mark t now) ws w
      (λ y. ground arith) found
    ∙ rw touched refl

begun :
    (s : Service) (t : Transition) (build_id : String) (now owner_id : ℕ) (id : String)
    (w : Workspace) (db : Database)
    → IsSound db
    → first (own_row owner_id id) db.workspaces ≡ some w
    → transition_to s t build_id now owner_id id db
      ≡ ok (next_build t build_id now w db, begun_db t build_id now w db)
    → IsBegun t build_id now owner_id id w db
        (next_build t build_id now w db)
        (begun_db t build_id now w db)
unfolding next_build mark
begun s t build_id now owner_id id w db sound found h = record {
  named = (refl, refl, refl);
  waiting = refl;
  above = count-at_max w.id (max_sequence w.id db.builds + 1) db.builds (ground arith);
  builds = refl;
  row = marked_row t now owner_id id w db.workspaces found;
  others =
      select-update_none (λ x. not (x.id == w.id)) (λ x. (x.id == w.id) && is_live x) (mark t now)
        db.workspaces (λ x. refl) (λ x h. ground arith);
  sound =
      transition_to-IsSound s t build_id now owner_id id db (next_build t build_id now w db)
        (begun_db t build_id now w db) h sound;
}

-- What Transition comes to: no such workspace, no quota, an active build, or a build that has begun.
abbrev pub Decision : Service → Transition → String → ℕ → ℕ → String → Database → Type 0
Decision s t build_id now owner_id id db =
    ((first (own_row owner_id id) db.workspaces ≡ none)
      × (transition_to s t build_id now owner_id id db ≡ err not_found))
    ⊎ ((w : Workspace) × (first (own_row owner_id id) db.workspaces ≡ some w)
        × (((e : Error) × (quota_of s t owner_id w db ≡ err e)
              × (transition_to s t build_id now owner_id id db ≡ err e))
            ⊎ (((0 < count (active_in w.id) db.builds)
                  × (transition_to s t build_id now owner_id id db ≡ err active_build))
                ⊎ ((count (active_in w.id) db.builds ≡ 0)
                    × (b : Build) × (db' : Database) × (transition_to s t build_id now owner_id id
                          db
                        ≡ ok (b, db'))
                    × IsBegun t build_id now owner_id id w db b db'))))

-- From sound tables in which the new build's ID is unused, a start, stop or delete of an owner's
-- workspace answers not_found if the owner has no such live workspace; otherwise with the error of
-- the running quota, if it is a start and that refuses it; or else with active_build, exactly where
-- the workspace has an active build; and in every other case it succeeds. Then the tables are
-- sound, the new build is queued under the workspace with a sequence above all of its earlier ones,
-- the owner's row is marked, and the rows of other workspaces are as they were.
pub transition_to-decides :
    (s : Service) (t : Transition) (build_id : String) (now owner_id : ℕ) (id : String)
    (db : Database)
    → IsSound db
    → count (λ x. x.id == build_id) db.builds ≡ 0
    → Decision s t build_id now owner_id id db
unfolding transition_to
transition_to-decides s t build_id now owner_id id db sound fresh =
    elim (Option-cases (first (own_row owner_id id) db.workspaces)) [
      | inl missing ↦ inl (missing, rw (missing, transition_to) refl)
      | inr (w, found) ↦
          let own = first_holds (own_row owner_id id) db.workspaces w found in
          let live : is_live w ≡ true = ground arith in
          let same : transition_to s t build_id now owner_id id db
              ≡ begin_transition s t build_id now owner_id w db =
            rw (found, transition_to) refl in
          inr (
            w,
            found,
            elim (begin_transition-cases s t build_id now owner_id w db live fresh) [
              | inl (e, full, refused) ↦ inl (e, full, same ∙ refused)
              | inr (inl (busy, refused)) ↦ inr (inl (busy, same ∙ refused))
              | inr (inr (idle, done)) ↦ inr (
                  inr (
                    idle,
                    next_build t build_id now w db,
                    begun_db t build_id now w db,
                    same ∙ done,
                    begun s t build_id now owner_id id w db sound found (same ∙ done),
                  ))
            ],
          )
    ]
