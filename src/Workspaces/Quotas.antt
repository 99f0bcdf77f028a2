-- ===== src/Workspaces/Quotas.antt =====
-- The quotas of service.go: no operation takes an owner past a template's limits.
use quickworks.Base.{
  ℕ, ◌+◌, ◌≤◌, ◌<◌, ◌≡◌, refl, String, Bool, true, false, ◌&&◌, some, List, ◌==◌, arith, eq_iff,
  eq_refl, Bool-cases, Option-cases, inl, inr, not, pos_part,
}
use quickworks.Results.{ok}
use quickworks.Table.{count, first, update}
use quickworks.Table.Counts.{count-update, count-update_same, first_holds, count-false}
use quickworks.Table.Keys.{count-update-le, count_unique}
use quickworks.Database.{Workspace, Build, Database, Transition, start, stop, delete, is_live}
use quickworks.Workspaces.{Service, limit, is_of, is_running_of, check_start_quota}
use quickworks.Workspaces.Transitions.{mark, is_start, owned_by, begin_transition, transition_to}
use quickworks.Workspaces.Soundness.{IsSound, marked, begin_transition-Began}

-- Both counts of an owner and a template are within a positive limit.
pub record WithinQuota (s : Service) (owner : ℕ) (template : String) (ws : List Workspace)
    : Type 0 where
  pub total :
      0 < pos_part (limit s template).max_workspaces
      → count (is_of owner template) ws ≤ pos_part (limit s template).max_workspaces
  pub running :
      0 < pos_part (limit s template).max_running_workspaces
      → count (is_running_of owner template) ws ≤ pos_part (limit s template).max_running_workspaces

module _ (t : Transition) (now : ℕ) (w : Workspace) (ws : List Workspace) where
  abbrev target : Workspace → Bool
  target x = (x.id == w.id) && is_live x

  total_same :
      (owner : ℕ) (template : String)
      → count (is_of owner template) (update target (mark t now) ws)
        ≡ count (is_of owner template) ws
  unfolding mark
  total_same owner template =
      count-update_same (is_of owner template) target (mark t now) ws (λ x. refl)

  -- A stop or a delete leaves no more running.
  running-le :
      (owner : ℕ) (template : String)
      → is_start t ≡ false
      → count (is_running_of owner template) (update target (mark t now) ws)
        ≤ count (is_running_of owner template) ws
  unfolding mark
  running-le owner template h = omega (
    arith,
    count-update (is_running_of owner template) target (mark t now) ws,
    count-false (λ x. target x && is_running_of owner template (mark t now x)) ws
        (λ x. ground arith),
  )

  -- A start adds at most the workspace itself to the others.
  running-le-others :
      (owner : ℕ) (template : String)
      → count (λ x. x.id == w.id) ws ≤ 1
      → count (is_running_of owner template) (update target (mark t now) ws)
        ≤ count (λ x. not (x.id == w.id) && is_running_of owner template x) ws + 1
  running-le-others owner template unique = omega (
    arith,
    count-update-le (is_running_of owner template) (λ x. x.id == w.id) target (mark t now) ws
        (λ x. ground arith),
  )

  -- Nobody else's count moves.
  running_same :
      (owner owner_id : ℕ) (template : String)
      → count (λ x. x.id == w.id) ws ≤ 1
      → first (owned_by owner_id w.id) ws ≡ some w
      → is_of owner template w ≡ false
      → count (is_running_of owner template) (update target (mark t now) ws)
        ≤ count (is_running_of owner template) ws
  unfolding mark
  running_same owner owner_id template unique found other =
      omega (arith, count-update (is_running_of owner template) target (mark t now) ws, none_marked)
    where
      none_marked : count (λ x. target x && is_running_of owner template (mark t now x)) ws ≡ 0
      none_marked = ground (
        arith,
        eq_refl w.id,
        count_unique (λ x. x.id == w.id)
            (λ x. target x && is_running_of owner template (mark t now x)) (owned_by owner_id w.id)
            ws w (λ x. ground arith) unique found,
      )

-- A start that succeeds found room among the others.
start_has_room :
    (s : Service) (build_id : String) (now owner_id : ℕ) (w : Workspace) (db : Database) (b : Build)
    (db' : Database)
    → begin_transition s start build_id now owner_id w db ≡ ok (b, db')
    → 0 < pos_part (limit s w.template_name).max_running_workspaces
    → count (λ x. not (x.id == w.id) && is_running_of owner_id w.template_name x) db.workspaces
      < pos_part (limit s w.template_name).max_running_workspaces
unfolding begin_transition check_start_quota
start_has_room s build_id now owner_id w db b db' h positive = ground arith

module _ (s : Service) (owner : ℕ) (template build_id : String) (now owner_id : ℕ) (w : Workspace)
    (db : Database) (b : Build) (db' : Database) (sound : IsSound db)
    (found : first (owned_by owner_id w.id) db.workspaces ≡ some w)
    (within : WithinQuota s owner template db.workspaces) where
  own_running :
      begin_transition s start build_id now owner_id w db ≡ ok (b, db')
      → is_of owner template w ≡ true
      → 0 < pos_part (limit s template).max_running_workspaces
      → count (is_running_of owner template) (marked start now w db).workspaces
        ≤ pos_part (limit s template).max_running_workspaces
  own_running h own positive =
      rw (same_owner, same_template)
        (omega (
          arith,
          running-le-others start now w db.workspaces owner_id w.template_name
              (sound.unique_workspaces w.id),
          start_has_room s build_id now owner_id w db b db' h (rw same_template at positive),
        ))
    where
      same_owner : owner ≡ owner_id
      same_owner = ground (arith, first_holds (owned_by owner_id w.id) db.workspaces w found)

      same_template : template ≡ w.template_name
      same_template = ground (arith, eq_iff w.template_name template)

  start_running :
      begin_transition s start build_id now owner_id w db ≡ ok (b, db')
      → 0 < pos_part (limit s template).max_running_workspaces
      → count (is_running_of owner template) (marked start now w db).workspaces
        ≤ pos_part (limit s template).max_running_workspaces
  start_running h positive = elim (Bool-cases (is_of owner template w)) [
    | inl own ↦ own_running h own positive
    | inr other ↦ omega (
      arith,
      running_same start now w db.workspaces owner owner_id template (sound.unique_workspaces w.id)
          found other,
      within.running positive,
    )
  ]

  transition-WithinQuota :
      (t : Transition)
      → begin_transition s t build_id now owner_id w db ≡ ok (b, db')
      → WithinQuota s owner template (marked t now w db).workspaces
  transition-WithinQuota start h = record {
    total = λ p. rw (total_same start now w db.workspaces owner template) (within.total p);
    running = start_running h;
  }
  transition-WithinQuota stop h = record {
    total = λ p. rw (total_same stop now w db.workspaces owner template) (within.total p);
    running = λ p.
        omega (arith, running-le stop now w db.workspaces owner template refl, within.running p);
  }
  transition-WithinQuota delete h = record {
    total = λ p. rw (total_same delete now w db.workspaces owner template) (within.total p);
    running = λ p.
        omega (arith, running-le delete now w db.workspaces owner template refl, within.running p);
  }

-- From sound tables, a start, stop or delete request that succeeds takes no owner past the total or
-- the running quota of a template that it was within before.
pub transition_to-WithinQuota :
    (s : Service) (t : Transition) (build_id : String) (now owner_id : ℕ) (id : String)
    (db : Database) (b : Build) (db' : Database) (owner : ℕ) (template : String)
    → transition_to s t build_id now owner_id id db ≡ ok (b, db')
    → IsSound db
    → WithinQuota s owner template db.workspaces
    → WithinQuota s owner template db'.workspaces
unfolding transition_to
transition_to-WithinQuota s t build_id now owner_id id db b db' owner template h sound within =
    elim (Option-cases (first (owned_by owner_id id) db.workspaces)) [
      | inl e ↦ absurd (ground arith)
      | inr (w, e) ↦
          let began : begin_transition s t build_id now owner_id w db ≡ ok (b, db') =
            ground arith in
          let same_id : id ≡ w.id =
            ground (arith, eq_iff w.id id, first_holds (owned_by owner_id id) db.workspaces w e) in
          rw (begin_transition-Began s t build_id now owner_id w db b db' began).workspaces (
            transition-WithinQuota s owner template build_id now owner_id w db b db' sound
              (rw same_id at e) within t began)
    ]
