-- ===== src/Config.antt =====
-- internal/config/config.go: the settings, and what ValidateServer and ValidateProvisioner ask of them.
-- URL parsing and the look at the file system are arguments. A YAML map is the list of its entries, in
-- the order in which the loop happens to visit them.
pub mod Validation
pub mod Agreement
pub mod Examples
use quickworks.Base.{
  ℕ, String, Bool, true, false, not, ◌&&◌, ◌||◌, Option, none, some, List, [], ◌∷◌, ◌==◌,
  if◌then◌else◌, ltb, leb, length, all, any, ℤ, is_positive, is_negative,
}
use quickworks.Text.{bytes}

pub record Resources : Type 0 where
  pub cpus : ℤ
  pub memory_gib : ℤ
  pub disk_gib : ℤ
  -- `estimated_cost < 0`, the one test of the float
  pub has_negative_cost : Bool

pub record Template : Type 0 where
  pub name : String
  pub required_labels : List String
  pub resources : Resources

pub record ControlProvisioner : Type 0 where
  pub worker_id : String
  pub token_file : String

pub record QuotaLimit : Type 0 where
  pub max_workspaces : ℤ
  pub max_running_workspaces : ℤ

-- The settings that the server reads.
pub record ServerConfig : Type 0 where
  pub public_url : String
  pub listen : String
  pub secret_key_file : String
  pub provisioners : List ControlProvisioner
  pub default_template : String
  pub templates : List Template
  pub default_quota : QuotaLimit
  pub template_quotas : List (String × QuotaLimit)
  pub workbench_version : String
  pub bundle_url : String
  pub bundle_sha256 : String
  pub entrypoint : String
  pub byok_config_file : String
  pub env_file : String
  pub client_id : String
  pub client_secret_file : String
  pub allowed_user_ids : List ℤ
  pub database_path : String
  pub auto_stop_after : ℤ

-- The settings that a provisioner reads.
pub record ProvisionerConfig : Type 0 where
  pub control_url : String
  pub worker_id : String
  pub token_file : String
  pub binary : String
  pub labels : List String
  pub capacity : ℤ
  pub template_dirs : List (String × String)
  pub state_dir : String
  pub state_backend : String
  pub state_s3_bucket : String
  pub state_s3_region : String
  pub state_backup_retention : ℤ

pub data ConfigError : Type 0 where
  public_url_invalid listen_or_database_missing templates_missing template_name_invalid :
      ConfigError
  resources_invalid default_template_unknown default_quota_invalid template_quota_invalid :
      ConfigError
  workbench_incomplete bundle_url_not_https file_missing provisioners_missing : ConfigError
  provisioner_invalid github_missing auto_stop_invalid : ConfigError
  provisioner_incomplete state_dir_missing s3_missing backend_unknown : ConfigError
  template_dir_empty main_tf_missing labels_invalid capacity_invalid retention_invalid : ConfigError

-- nil, or the first error.
pub data Check : Type 0 where
  passed : Check
  failed : ConfigError → Check

-- `if test { return error }`, and then the rest of the function.
unfoldable pub fail_if : Bool → ConfigError → Check → Check
fail_if true e rest = failed e
fail_if false e rest = rest

abbrev pub is_empty : String → Bool
is_empty s = s == ""

abbrev pub is_seen : String → List String → Bool
is_seen name seen = any (λ s. s == name) seen

abbrev pub has_bad_resources : Resources → Bool
has_bad_resources r =
    not (is_positive r.cpus)
    || (not (is_positive r.memory_gib) || (not (is_positive r.disk_gib) || r.has_negative_cost))

-- The loop over the templates, and what follows it.
unfoldable pub check_templates : List String → List Template → (List String → Check) → Check
check_templates seen [] rest = rest seen
check_templates seen (t ∷ ts) rest =
    fail_if (is_empty t.name || is_seen t.name seen) template_name_invalid (
      fail_if (has_bad_resources t.resources) resources_invalid
        (check_templates (t.name ∷ seen) ts rest))

-- validQuota
unfoldable pub valid_quota : QuotaLimit → Bool → Bool
valid_quota limit require_workspace_limits = not (
    require_workspace_limits
    && (not (is_positive limit.max_workspaces) || not (is_positive limit.max_running_workspaces)))

unfoldable pub check_quotas : List String → List (String × QuotaLimit) → Check → Check
check_quotas seen [] rest = rest
check_quotas seen ((name, limit) ∷ limits) rest =
    fail_if (not (is_seen name seen) || not (valid_quota limit true)) template_quota_invalid
      (check_quotas seen limits rest)

unfoldable pub check_provisioners : List String → List ControlProvisioner → Check → Check
check_provisioners seen [] rest = rest
check_provisioners seen (p ∷ ps) rest =
    fail_if (is_empty p.worker_id || (is_empty p.token_file || is_seen p.worker_id seen))
      provisioner_invalid (check_provisioners (p.worker_id ∷ seen) ps rest)

abbrev is_nil {ℓ} : {A : Type ℓ} → List A → Bool
is_nil [] = true
is_nil (x ∷ xs) = false

-- ValidateServer, from the quotas on; `seen` are the names of the templates.
unfoldable pub validate_from_quotas : (String → Bool) → ServerConfig → List String → Check
validate_from_quotas is_https c seen =
    fail_if (not (is_seen c.default_template seen)) default_template_unknown (
      fail_if (not (valid_quota c.default_quota true)) default_quota_invalid (
        check_quotas seen c.template_quotas (
          fail_if
            (is_empty c.workbench_version
              || (is_empty c.bundle_url
                  || (not (has_64_bytes c.bundle_sha256) || is_empty c.entrypoint)))
            workbench_incomplete
            (fail_if (not (is_https c.bundle_url)) bundle_url_not_https (
              fail_if
                (any is_empty
                  (c.byok_config_file ∷ c.env_file ∷ c.client_secret_file ∷ c.secret_key_file ∷ []))
                file_missing
                (fail_if (is_nil c.provisioners) provisioners_missing (
                  check_provisioners [] c.provisioners (
                    fail_if (is_empty c.client_id || is_nil c.allowed_user_ids) github_missing (
                      fail_if (not (is_positive c.auto_stop_after)) auto_stop_invalid
                        passed)))))))))
  where
    has_64_bytes : String → Bool
    has_64_bytes s = leb 64 (length (bytes s)) && leb (length (bytes s)) 64

-- ValidateServer; `is_uri` is url.ParseRequestURI without an error, `is_https` url.Parse and the scheme.
unfoldable pub validate_server : (String → Bool) → (String → Bool) → ServerConfig → Check
validate_server is_uri is_https c =
    fail_if (not (is_uri c.public_url) || is_empty c.public_url) public_url_invalid (
      fail_if (is_empty c.listen || is_empty c.database_path) listen_or_database_missing (
        fail_if (is_empty c.default_template || is_nil c.templates) templates_missing
          (check_templates [] c.templates (validate_from_quotas is_https c))))

abbrev is_lower : ℕ → Bool
is_lower c = leb b'a' c && leb c b'z'

abbrev pub is_label_character : ℕ → Bool
is_label_character c = is_lower c || ((leb b'0' c && leb c b'9') || (leb b'-' c && leb c b'-'))

-- label[0] and label[1:]; a label has 32 bytes at most.
unfoldable pub bad_label : List ℕ → Bool
bad_label [] = true
bad_label (c ∷ rest) =
    ltb 32 (length (c ∷ rest)) || (ltb c b'a' || (ltb b'z' c || not (all is_label_character rest)))

unfoldable pub labels_from : List String → List String → Bool
labels_from seen [] = true
labels_from seen (l ∷ ls) =
    let rest = labels_from (l ∷ seen) ls in
    if bad_label (bytes l) || is_seen l seen then false else rest

-- validLabels
unfoldable pub valid_labels : List String → Bool
unfolding labels_from
valid_labels labels = labels_from [] labels

unfoldable pub check_backend : ProvisionerConfig → Check → Check
check_backend c rest =
    let backend = if is_empty c.state_backend then "local" else c.state_backend in
    if backend == "local"
    then fail_if (is_empty c.state_dir) state_dir_missing rest
    else (if backend == "s3"
        then fail_if (is_empty c.state_s3_bucket || is_empty c.state_s3_region) s3_missing rest
        else failed backend_unknown)

-- `has_main` tells of a directory whether its main.tf is a file.
unfoldable pub check_dirs : (String → Bool) → List (String × String) → Check → Check
check_dirs has_main [] rest = rest
check_dirs has_main ((name, directory) ∷ dirs) rest =
    fail_if (is_empty name || is_empty directory) template_dir_empty
      (fail_if (not (has_main directory)) main_tf_missing (check_dirs has_main dirs rest))

abbrev pub in_range : ℤ → Bool
in_range (ℤ.pos n) = leb 1 n && leb n 100
in_range (ℤ.negsuc n) = false

-- ValidateProvisioner
unfoldable pub validate_provisioner : (String → Bool) → ProvisionerConfig → Check
validate_provisioner has_main c =
    fail_if
      (is_empty c.control_url
        || (is_empty c.worker_id
            || (is_empty c.token_file || (is_empty c.binary || is_nil c.template_dirs))))
      provisioner_incomplete
      (check_backend c (
        check_dirs has_main c.template_dirs (
          fail_if (not (valid_labels c.labels)) labels_invalid (
            fail_if (not (in_range c.capacity)) capacity_invalid
              (fail_if (is_negative c.state_backup_retention) retention_invalid passed)))))
