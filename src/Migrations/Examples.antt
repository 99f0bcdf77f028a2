-- ===== src/Migrations/Examples.antt =====
-- Two migrations of a counter, of which the second may fail.
use quickworks.Base.{ℕ, suc, ◌≡◌, refl, false, Option, none, some, List, [], ◌∷◌, if◌then◌else◌}
use quickworks.Table.{sort, insert_sorted}
use quickworks.Text.{bytes, same}
use quickworks.Migrations.{File, Schema, less, trim_suffix, apply_files, apply}
use quickworks.Migrations.Applied.{IsStopped, apply-IsStopped}

abbrev files : List File
files =
    record { name = bytes "2_b.up.sql"; is_directory = false }
    ∷ record { name = bytes "1_a.up.sql"; is_directory = false }
    ∷ []

abbrev first_only : List ℕ → ℕ → Option ℕ
first_only name n = if same name (bytes "1_a.up.sql") then some (suc n) else none

abbrev empty : Schema ℕ
empty = record { versions = []; tables = 0 }

abbrev half : Schema ℕ
half = record { versions = bytes "1_a" ∷ []; tables = 1 }

abbrev whole : Schema ℕ
whole = record { versions = bytes "1_a" ∷ bytes "2_b" ∷ []; tables = 2 }

stops : apply first_only files empty ≡ (false, half)
unfolding apply apply_files sort insert_sorted less trim_suffix same
stops = refl

apply-IsStopped_example : IsStopped first_only (sort (λ a b. less a.name b.name) files) empty half
apply-IsStopped_example = apply-IsStopped first_only files empty half stops
