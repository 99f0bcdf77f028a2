-- ===== src/Workspaces/Queries.antt =====
-- internal/server/workspace/service.go: List, Get, Builds, OwnsBuild and Usage.
use Prim.Native.String.{compare}
use Prim.Native.Nat.{Ordering}
use quickworks.Base.{
  ℕ, ◌+◌, String, Bool, true, false, ◌&&◌, Option, none, some, List, [], ◌∷◌, ◌++◌, ◌==◌, map, any,
  not, if◌then◌else◌, leb, nat_eq,
}
use quickworks.Results.{Result, ok, err, not_found, ◌>>=◌}
use quickworks.Table.{count, select, first, sort}
use quickworks.Database.{Workspace, Build, Database, is_live}
use quickworks.Workspaces.{Limits, Service, limit, is_of, is_running_of}
use quickworks.Workspaces.Names.{matches_id_pattern}
use quickworks.Workspaces.Transitions.{owned_by}

-- Newest first.
unfoldable pub list : ℕ → Database → List Workspace
list owner_id db =
    sort (λ a b. leb b.created_at a.created_at)
      (select (λ w. nat_eq w.owner_id owner_id && is_live w) db.workspaces)

or_not_found : Option Workspace → Result Workspace
or_not_found none = err not_found
or_not_found (some w) = ok w

unfoldable pub get : ℕ → String → Database → Result Workspace
unfolding or_not_found
get owner_id id db =
    if matches_id_pattern id
    then or_not_found (first (owned_by owner_id id) db.workspaces)
    else err not_found

-- The last build first.
unfoldable pub builds_of : ℕ → String → Database → Result (List Build)
builds_of owner_id id db = do
  w ← get owner_id id db
  ok (sort (λ a b. leb b.sequence a.sequence) (select (λ b. b.workspace_id == id) db.builds))

-- The rows of workspace_builds b JOIN workspaces w ON w.id = b.workspace_id under the WHERE clause.
unfoldable pub count_joined : ℕ → String → List Workspace → List Build → ℕ
count_joined owner_id build_id workspaces [] = 0
count_joined owner_id build_id workspaces (b ∷ bs) =
    (if b.id == build_id
      then count (λ w. (w.id == b.workspace_id) && nat_eq w.owner_id owner_id) workspaces
      else 0)
    + count_joined owner_id build_id workspaces bs

unfoldable pub owns_build : ℕ → String → Database → Bool
owns_build owner_id build_id db = nat_eq (count_joined owner_id build_id db.workspaces db.builds) 1

pub record Usage : Type 0 where
  pub template_name : String
  pub workspaces : ℕ
  pub running_workspaces : ℕ
  pub limits : Limits

abbrev comes_first : String → String → Bool
comes_first a b = elim (compare a b) [ Ordering.gt ↦ false | _ ↦ true ]

abbrev keys : List (String × Limits) → List String
keys = map (λ entry. entry.0)

-- The templates of a GROUP BY: each name once.
distinct : List String → List String → List String
distinct seen [] = []
distinct seen (x ∷ xs) =
    let skip = distinct seen xs in
    let take = distinct (x ∷ seen) xs in if any (λ y. y == x) seen then skip else x ∷ take

used_templates : ℕ → Database → List String
unfolding distinct
used_templates owner_id db = distinct [] (
    map (λ w. w.template_name)
      (select (λ w. nat_eq w.owner_id owner_id && is_live w) db.workspaces))

-- The configured templates, and those in use that are not configured, by name.
unfoldable pub usage_names : Service → ℕ → Database → List String
unfolding used_templates
usage_names s owner_id db = sort comes_first (
    keys s.limits
    ++ select (λ name. not (any (λ key. key == name) (keys s.limits))) (used_templates owner_id db))

unfoldable pub usage_row : Service → ℕ → Database → String → Usage
usage_row s owner_id db name = record {
  template_name = name;
  workspaces = count (is_of owner_id name) db.workspaces;
  running_workspaces = count (is_running_of owner_id name) db.workspaces;
  limits = limit s name;
}

unfoldable pub usage : Service → ℕ → Database → List Usage
unfolding usage_row
usage s owner_id db = map (usage_row s owner_id db) (usage_names s owner_id db)
