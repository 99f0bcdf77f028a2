-- ===== src/Migrations/Applied.antt =====
-- internal/database/migration/migration.go: what has been applied stays applied, and once.
use quickworks.Base.{
  ℕ, ◌≡◌, refl, sym, ap, Bool, true, false, ◌||◌, Option, none, List, [], ◌∷◌, ◌++◌, any, All,
  arith, Bool-cases, Option-cases, inl, inr,
}
use mathlib.Core.Path.{subst}
use quickworks.Table.{sort}
use quickworks.Text.{same}
use quickworks.Text.Laws.{same_self}
use quickworks.Migrations.{File, Schema, version_of, is_applied, apply_files, apply, less}

any-append : (p : List ℕ → Bool) (a b : List (List ℕ)) → any p (a ++ b) ≡ (any p a || any p b)
any-append p [] b = refl
any-append p (x ∷ a) b = ground (arith, any-append p a b)

module _ {Tables : Type 0} (execute : List ℕ → Tables → Option Tables) where
  -- A file that a second run passes over.
  abbrev pub is_settled : Schema Tables → File → Bool
  is_settled db file = file.is_directory || is_applied execute (version_of file) db

  -- The tables after a file.
  abbrev pub after_file : File → Schema Tables → Tables → Schema Tables
  after_file file db tables = record {
    versions = db.versions ++ version_of file ∷ [];
    tables = tables;
  }

  after_file-applied :
      (file other : File) (db : Schema Tables) (tables : Tables)
      → is_settled db other ≡ true
      → is_settled (after_file file db tables) other ≡ true
  after_file-applied file other db tables h =
      ground (arith, any-append (same (version_of other)) db.versions (version_of file ∷ []))

  after_file_self :
      (file : File) (db : Schema Tables) (tables : Tables)
      → is_settled (after_file file db tables) file ≡ true
  after_file_self file db tables = ground (
    arith,
    any-append (same (version_of file)) db.versions (version_of file ∷ []),
    same_self (version_of file),
  )

  -- What is settled before a run is settled after it.
  apply_files-settled :
      (files : List File) (other : File) (db : Schema Tables)
      → is_settled db other ≡ true
      → is_settled (apply_files execute files db).1 other ≡ true
  unfolding apply_files
  apply_files-settled [] other db h = h
  apply_files-settled (file ∷ files) other db h = elim (Bool-cases (is_settled db file)) [
    | inl settled ↦ rw (settled, apply_files) (apply_files-settled files other db h)
    | inr fresh ↦ elim (Option-cases (execute file.name db.tables)) [
      | inl failed ↦ rw (fresh, failed, apply_files) h
      | inr (tables, done) ↦
          rw (fresh, done, apply_files)
            (apply_files-settled files other _ (after_file-applied file other db tables h))
    ]
  ]

  carried :
      (files : List File) (result same_result : Bool × Schema Tables)
      → result ≡ same_result
      → All (λ file. is_settled same_result.1 file ≡ true) files
      → All (λ file. is_settled result.1 file ≡ true) files
  carried files result same_result e =
      subst (λ r. All (λ file. is_settled r.1 file ≡ true) files) (sym e)

  -- A run that ends well settles all its files.
  apply_files-All :
      (files : List File) (db : Schema Tables)
      → (apply_files execute files db).0 ≡ true
      → All (λ file. is_settled (apply_files execute files db).1 file ≡ true) files
  unfolding apply_files
  apply_files-All [] db h = tt
  apply_files-All (file ∷ files) db h = elim (Bool-cases (is_settled db file)) [
    | inl settled ↦
        carried (file ∷ files) (apply_files execute (file ∷ files) db)
          (apply_files execute files db) (rw (settled, apply_files) refl)
          (
            apply_files-settled files file db settled,
            apply_files-All files db (rw (settled, apply_files) at h),
          )
    | inr fresh ↦ elim (Option-cases (execute file.name db.tables)) [
      | inl failed ↦ absurd (ground arith)
      | inr (tables, done) ↦
          carried (file ∷ files) (apply_files execute (file ∷ files) db)
            (apply_files execute files (after_file file db tables))
            (rw (fresh, done, apply_files) refl)
            (
              apply_files-settled files file _ (after_file_self file db tables),
              apply_files-All files _ (rw (fresh, done, apply_files) at h),
            )
    ]
  ]

  -- A run over settled files does nothing.
  apply_files-nothing :
      (files : List File) (db : Schema Tables)
      → All (λ file. is_settled db file ≡ true) files
      → apply_files execute files db ≡ (true, db)
  unfolding apply_files
  apply_files-nothing [] db settled = refl
  apply_files-nothing (file ∷ files) db (this, others) =
      rw (this, apply_files) (apply_files-nothing files db others)

  -- After an Apply that ended without an error, a second one ends without an error too and changes
  -- nothing, whatever the files are.
  pub apply_again :
      (files : List File) (db : Schema Tables)
      → (apply execute files db).0 ≡ true
      → apply execute files (apply execute files db).1 ≡ (true, (apply execute files db).1)
  unfolding apply
  apply_again files db done =
      let sorted = sort (λ a b. less a.name b.name) files in
      apply_files-nothing sorted _ (apply_files-All sorted db done)

  -- Where a run stopped: the files before the one that failed, and what follows it.
  pub record IsStopped (files : List File) (db db' : Schema Tables) : Type 0 where
    pub before : List File
    pub failing : File
    pub others : List File
    pub parts : files ≡ before ++ failing ∷ others
    pub reached : apply_files execute before db ≡ (true, db')
    pub unsettled : is_settled db' failing ≡ false
    pub fails : execute failing.name db'.tables ≡ none

  apply_files-IsStopped :
      (files : List File) (db db' : Schema Tables)
      → apply_files execute files db ≡ (false, db')
      → IsStopped files db db'
  unfolding apply_files
  apply_files-IsStopped [] db db' h = absurd (ground arith)
  apply_files-IsStopped (file ∷ files) db db' h = elim (Bool-cases (is_settled db file)) [
    | inl settled ↦
        let stopped = apply_files-IsStopped files db db' (rw (settled, apply_files) at h) in
        record {
          before = file ∷ stopped.before;
          failing = stopped.failing;
          others = stopped.others;
          parts = ap (λ x. file ∷ x) stopped.parts;
          reached = rw (settled, apply_files) stopped.reached;
          unsettled = stopped.unsettled;
          fails = stopped.fails;
        }
    | inr fresh ↦ elim (Option-cases (execute file.name db.tables)) [
      | inl failed ↦
          let same_db : db ≡ db' = ground arith in
          record {
            before = [];
            failing = file;
            others = files;
            parts = refl;
            reached = rw same_db refl;
            unsettled = rw same_db at fresh;
            fails = rw same_db at failed;
          }
      | inr (tables, done) ↦
          let stopped =
            apply_files-IsStopped files (after_file file db tables) db'
              (rw (fresh, done, apply_files) at h) in
          record {
            before = file ∷ stopped.before;
            failing = stopped.failing;
            others = stopped.others;
            parts = ap (λ x. file ∷ x) stopped.parts;
            reached = rw (fresh, done, apply_files) stopped.reached;
            unsettled = stopped.unsettled;
            fails = stopped.fails;
          }
    ]
  ]

  -- An Apply that ends with an error stopped at the first file, in the order of the names, that was
  -- not applied and whose statements fail, and left what Apply makes of the files before it: the
  -- file that failed changes nothing and its version is not recorded.
  pub apply-IsStopped :
      (files : List File) (db db' : Schema Tables)
      → apply execute files db ≡ (false, db')
      → IsStopped (sort (λ a b. less a.name b.name) files) db db'
  unfolding apply
  apply-IsStopped files db db' h =
      apply_files-IsStopped (sort (λ a b. less a.name b.name) files) db db' h
