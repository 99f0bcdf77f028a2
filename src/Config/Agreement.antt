-- ===== src/Config/Agreement.antt =====
-- internal/config/config.go against internal/server/router.go: what one validates, the other accepts.
-- internal/provisioner/worker.go sends the settings as they are.
use quickworks.Base.{
  ℕ, ◌≤◌, ◌≡◌, refl, String, Bool, true, false, not, ◌||◌, some, List, [], ◌∷◌, ◌==◌, arith, all, ℤ,
}
use quickworks.Text.{bytes}
use quickworks.Database.{Database}
use quickworks.Scheduler.Labels
use quickworks.Scheduler.Labels.{matches_label}
use quickworks.Config.{
  ProvisionerConfig, passed, fail_if, bad_label, labels_from, valid_labels, in_range, check_backend,
  check_dirs, validate_provisioner, Check, is_label_character,
}
use quickworks.Config.Validation.{passed_if}
use quickworks.Router.{
  ClaimInput, ClaimDraw, is_internal, capacity_or_one, capacity_in_range, claim_for, claim_checked,
  claim,
}

-- The body that a worker's claim sends.
unfoldable pub claim_body : ProvisionerConfig → ClaimInput
claim_body c = record { worker_id = c.worker_id; labels = c.labels; capacity = c.capacity }

characters_agree : (rest : List ℕ) → all is_label_character rest ≡ all Labels.is_label_byte rest
characters_agree [] = refl
characters_agree (c ∷ rest) = ground (arith, characters_agree rest)

bad_label-matches_label : (label : List ℕ) → bad_label label ≡ not (matches_label label)
unfolding bad_label matches_label
bad_label-matches_label [] = refl
bad_label-matches_label (c ∷ rest) = ground (arith, characters_agree rest)

labels_agree :
    (seen labels : List String) → labels_from seen labels ≡ Labels.labels_from seen labels
unfolding labels_from Labels.labels_from
labels_agree seen [] = refl
labels_agree seen (l ∷ ls) =
    ground (arith, labels_agree (l ∷ seen) ls, bad_label-matches_label (bytes l))

-- The label check of the configuration and the one of the router, which uses a pattern, agree on
-- every list of labels.
pub valid_labels_agree : (labels : List String) → valid_labels labels ≡ Labels.valid_labels labels
unfolding valid_labels Labels.valid_labels
valid_labels_agree labels = labels_agree [] labels

backend-passed :
    (c : ProvisionerConfig) (rest : Check) → check_backend c rest ≡ passed → rest ≡ passed
unfolding check_backend fail_if
backend-passed c rest h = ground arith

dirs-passed :
    (has_main : String → Bool) (dirs : List (String × String)) (rest : Check)
    → check_dirs has_main dirs rest ≡ passed
    → rest ≡ passed
unfolding check_dirs
dirs-passed has_main [] rest h = h
dirs-passed has_main ((name, directory) ∷ dirs) rest h =
    let (full, h1) = passed_if _ _ _ h in
    let (main, h2) = passed_if _ _ _ h1 in dirs-passed has_main dirs rest h2

-- A capacity in the range of one is the number that the other reads.
in_range-some :
    (z : ℤ)
    → in_range z ≡ true
    → (n : ℕ) × (z ≡ ℤ.pos n)
      × (1 ≤ n)
      × (n ≤ 100)
      × (capacity_in_range (capacity_or_one z) ≡ some n)
unfolding capacity_in_range capacity_or_one
in_range-some (ℤ.pos n) h = (n, refl, ground arith, ground arith, ground arith)
in_range-some (ℤ.negsuc n) h = cc

-- If a provisioner's configuration passes and its worker is known to the router, the body that the
-- worker sends is claimed for, with the configured capacity, which is between 1 and 100: no check
-- of the claim handler turns it away.
pub validate_provisioner-claim :
    (has_main : String → Bool) (c : ProvisionerConfig) (hash : String → String)
    (token_hashes : List (String × String)) (required : String → List String) (d : ClaimDraw)
    (authorization : String) (db : Database)
    → validate_provisioner has_main c ≡ passed
    → is_internal hash token_hashes authorization c.worker_id ≡ true
    → (n : ℕ) × (c.capacity ≡ ℤ.pos n)
      × (1 ≤ n)
      × (n ≤ 100)
      × (claim hash token_hashes required d authorization (some (claim_body c)) db
          ≡ claim_checked hash required d (claim_for hash (claim_body c) d n) db)
unfolding validate_provisioner claim claim_body
validate_provisioner-claim has_main c hash token_hashes required d authorization db h known =
    let (complete, h1) = passed_if _ _ _ h in
    let h2 : _ = dirs-passed has_main c.template_dirs _ (backend-passed c _ h1) in
    let (labels, h3) = passed_if _ _ _ h2 in
    let (ranged, h4) = passed_if _ _ _ h3 in
    let (n, same, low, high, read) = in_range-some c.capacity (ground arith) in
    let accepted : ((c.worker_id == "") || not (Labels.valid_labels c.labels)) ≡ false =
      ground (arith, valid_labels_agree c.labels) in
    (n, same, low, high, rw (accepted, known, read) refl)
