-- ===== src/Workspaces/Creation.antt =====
-- What a creation that succeeds has done, and that it keeps the table invariant and the quotas.
use quickworks.Base.{
  ℕ, ◌≤◌, ◌<◌, ◌≡◌, ◌⊎◌, refl, String, true, false, ◌==◌, arith, eq_iff, inl, inr, pos_part,
}
use quickworks.Results.{ok}
use quickworks.Table.{count, insert}
use quickworks.Table.Counts.{count-insert}
use quickworks.Database.{
  Workspace, Build, Database, is_active, insert_workspace, insert_build, build_conflicts,
}
use quickworks.Workspaces.{Service, limit, is_of, is_running_of, is_full, check_create_quota}
use quickworks.Workspaces.Create.{
  Draw, Request, drawn_id, new_workspace, first_build, source_is_valid, create_in_tx, create_once,
}
use quickworks.Workspaces.Soundness.{
  IsSound, insert-one_active, insert-references, insert-unique_builds,
}
use quickworks.Workspaces.Quotas.{WithinQuota}

pub record Made (s : Service) (d : Draw) (r : Request) (db : Database) (w : Workspace) (b : Build)
    (db' : Database) : Type 0 where
  pub source : source_is_valid r.repository ≡ true
  pub room :
      is_full
        (count (is_of r.owner_id r.template_name) db.workspaces)
        (limit s r.template_name).max_workspaces
      ≡ false
  pub running_room :
      is_full
        (count (is_running_of r.owner_id r.template_name) db.workspaces)
        (limit s r.template_name).max_running_workspaces
      ≡ false
  pub workspace : w ≡ new_workspace d r
  pub build : b ≡ first_build d r
  pub free : count (λ x. x.id == drawn_id d) db.workspaces ≡ 0
  pub fresh : build_conflicts (first_build d r) db.builds ≡ false
  pub after : db' ≡ record db {
    workspaces = insert (new_workspace d r) db.workspaces;
    builds = insert (first_build d r) db.builds;
  }

pub create_once-Made :
    (s : Service) (d : Draw) (r : Request) (db : Database) (w : Workspace) (b : Build)
    (db' : Database)
    → create_once s d r db ≡ ok ((w, b), db')
    → Made s d r db w b db'
unfolding create_once check_create_quota create_in_tx insert_workspace insert_build new_workspace
create_once-Made s d r db w b db' h = ground arith

is_queued_first : (d : Draw) (r : Request) → is_active (first_build d r).status ≡ true
unfolding first_build
is_queued_first d r = refl

insert-unique_workspaces :
    (d : Draw) (r : Request) (db : Database) (id : String)
    → count (λ x. x.id == drawn_id d) db.workspaces ≡ 0
    → count (λ x. x.id == id) db.workspaces ≤ 1
    → count (λ x. x.id == id) (insert (new_workspace d r) db.workspaces) ≤ 1
unfolding new_workspace
insert-unique_workspaces d r db id free h = ground (
  arith,
  count-insert (λ x. x.id == id) (new_workspace d r) db.workspaces,
  eq_iff (drawn_id d) id,
)

insert_present :
    (d : Draw) (r : Request) (db : Database) (id : String)
    → (0 < count (λ x. x.id == id) db.workspaces) ⊎ ((first_build d r).workspace_id ≡ id)
    → 0 < count (λ x. x.id == id) (insert (new_workspace d r) db.workspaces)
unfolding new_workspace first_build
insert_present d r db id h = ground (
  arith,
  count-insert (λ x. x.id == id) (new_workspace d r) db.workspaces,
  eq_iff (drawn_id d) id,
)

pub Made-IsSound :
    (s : Service) (d : Draw) (r : Request) (db : Database) (w : Workspace) (b : Build)
    (db' : Database)
    → Made s d r db w b db'
    → IsSound db
    → IsSound db'
Made-IsSound s d r db w b db' made sound = rw made.after (record {
  one_active = λ id.
      insert-one_active (first_build d r) db.builds id made.fresh (is_queued_first d r)
        (sound.one_active id);
  unique_builds =
      λ id. insert-unique_builds (first_build d r) db.builds id made.fresh (sound.unique_builds id);
  unique_workspaces =
      λ id. insert-unique_workspaces d r db id made.free (sound.unique_workspaces id);
  references = λ id.
      insert-references (first_build d r) db.builds id _
        (λ h. insert_present d r db id (inl (sound.references id h)))
        (λ e. insert_present d r db id (inr e));
})

module _ (s : Service) (d : Draw) (r : Request) (db : Database) (w : Workspace) (b : Build)
    (db' : Database) (owner : ℕ) (template : String) (made : Made s d r db w b db')
    (within : WithinQuota s owner template db.workspaces) where
  insert-total :
      0 < pos_part (limit s template).max_workspaces
      → count (is_of owner template) (insert (new_workspace d r) db.workspaces)
        ≤ pos_part (limit s template).max_workspaces
  unfolding new_workspace
  insert-total positive = ground (
    arith,
    count-insert (is_of owner template) (new_workspace d r) db.workspaces,
    made.room,
    within.total,
    eq_iff r.template_name template,
  )

  insert-running :
      0 < pos_part (limit s template).max_running_workspaces
      → count (is_running_of owner template) (insert (new_workspace d r) db.workspaces)
        ≤ pos_part (limit s template).max_running_workspaces
  unfolding new_workspace
  insert-running positive = ground (
    arith,
    count-insert (is_running_of owner template) (new_workspace d r) db.workspaces,
    made.running_room,
    within.running,
    eq_iff r.template_name template,
  )

pub Made-WithinQuota :
    (s : Service) (d : Draw) (r : Request) (db : Database) (w : Workspace) (b : Build)
    (db' : Database) (owner : ℕ) (template : String)
    → Made s d r db w b db'
    → WithinQuota s owner template db.workspaces
    → WithinQuota s owner template db'.workspaces
Made-WithinQuota s d r db w b db' owner template made within = rw made.after (record {
  total = insert-total s d r db w b db' owner template made within;
  running = insert-running s d r db w b db' owner template made within;
})
