-- ===== src/Migrations.antt =====
-- internal/database/migration/migration.go: Apply. A name is the list of its bytes; `execute` stands for
-- the statements of a file, which run in one transaction, over whatever the other tables hold.
pub mod Applied
mod Examples
use quickworks.Base.{
  ℕ, Bool, true, false, not, ◌&&◌, ◌||◌, Option, none, some, List, [], ◌∷◌, ◌++◌, if◌then◌else◌,
  any, ltb, nat_eq,
}
use quickworks.Table.{sort}
use quickworks.Text.{bytes, same}

-- An embedded file.
pub record File : Type 0 where
  pub name : List ℕ
  pub is_directory : Bool

-- The tables: the versions of schema_migrations, in their order, and the others.
pub record Schema (Tables : Type 0) : Type 0 where
  pub versions : List (List ℕ)
  pub tables : Tables

-- left < right, of strings
unfoldable pub less : List ℕ → List ℕ → Bool
less s [] = false
less [] (b ∷ t) = true
less (a ∷ s) (b ∷ t) = ltb a b || (nat_eq a b && less s t)

-- strings.TrimSuffix for a suffix that is not empty
unfoldable pub trim_suffix : List ℕ → List ℕ → List ℕ
trim_suffix suffix [] = []
trim_suffix suffix (b ∷ s) =
    let rest = trim_suffix suffix s in if same (b ∷ s) suffix then [] else b ∷ rest

abbrev pub version_of : File → List ℕ
version_of file = trim_suffix (bytes ".up.sql") file.name

module _ {Tables : Type 0} (execute : List ℕ → Tables → Option Tables) where
  -- SELECT COUNT(*) FROM schema_migrations WHERE version = ?, as a test of n > 0
  abbrev pub is_applied : List ℕ → Schema Tables → Bool
  is_applied version db = any (same version) db.versions

  -- The loop of Apply: whether it ends without an error, and the tables.
  unfoldable pub apply_files : List File → Schema Tables → Bool × Schema Tables
  apply_files [] db = (true, db)
  apply_files (file ∷ files) db =
      let rest = apply_files files db in
      if file.is_directory || is_applied (version_of file) db
      then rest
      else elim (execute file.name db.tables) [
        | none ↦ (false, db)
        | some tables ↦
            apply_files files
              (record { versions = db.versions ++ version_of file ∷ []; tables = tables })
      ]

  -- Apply, on a database whose schema_migrations exists or is made
  unfoldable pub apply : List File → Schema Tables → Bool × Schema Tables
  apply files db = apply_files (sort (λ a b. less a.name b.name) files) db
