-- ===== src/Config/Examples.antt =====
-- One configuration of each kind that passes.
use quickworks.Base.{ℕ, ◌≤◌, ◌≡◌, refl, String, Bool, true, some, [], ◌∷◌, pos}
use quickworks.Config.{
  ProvisionerConfig, passed, fail_if, bad_label, labels_from, valid_labels, check_backend,
  check_dirs, validate_provisioner,
}
use quickworks.Config.Agreement.{claim_body, validate_provisioner-claim}
use quickworks.Router.{trim_prefix, strip, lookup, is_internal, claim_for, claim_checked, claim}
use quickworks.Router.Examples.{plain_hash, token_hashes, no_labels, claim_draw}
use quickworks.Scheduler.Examples.{busy}

abbrev yes : String → Bool
yes s = true

abbrev worker_config : ProvisionerConfig
worker_config = record {
  control_url = "https://q.example";
  worker_id = "worker";
  token_file = "token";
  binary = "tofu";
  labels = "linux" ∷ [];
  capacity = pos 2;
  template_dirs = ("vm", "templates/vm") ∷ [];
  state_dir = "state";
  state_backend = "";
  state_s3_bucket = "";
  state_s3_region = "";
  state_backup_retention = pos 0;
}

worker_passes : validate_provisioner yes worker_config ≡ passed
unfolding validate_provisioner fail_if check_backend check_dirs valid_labels labels_from bad_label
worker_passes = refl

is_known : is_internal plain_hash token_hashes "Bearer secret" "worker" ≡ true
unfolding is_internal trim_prefix strip lookup
is_known = refl

validate_provisioner-claim_example :
    (n : ℕ) × (pos 2 ≡ pos n)
    × (1 ≤ n)
    × (n ≤ 100)
    × (claim plain_hash token_hashes no_labels claim_draw "Bearer secret"
          (some (claim_body worker_config))
          busy
        ≡ claim_checked plain_hash no_labels claim_draw
            (claim_for plain_hash (claim_body worker_config) claim_draw n)
            busy)
validate_provisioner-claim_example =
    validate_provisioner-claim yes worker_config plain_hash token_hashes no_labels claim_draw
      "Bearer secret" busy worker_passes is_known
