-- ===== src/Config/Validation.antt =====
-- internal/config/config.go: what a configuration that ValidateServer passes is known to be.
use quickworks.Base.{
  ℕ, ◌+◌, ◌≤◌, ◌<◌, ◌≡◌, refl, String, Bool, true, false, ◌&&◌, List, [], ◌∷◌, ◌==◌, arith, eq_iff,
  if◌then◌else◌, All, is_positive, Bool-cases, inl, inr,
}
use quickworks.Table.{count}
use quickworks.Config.{
  Template, ControlProvisioner, QuotaLimit, ServerConfig, ConfigError, Check, passed, fail_if,
  is_seen, check_templates, valid_quota, check_quotas, check_provisioners, validate_from_quotas,
  validate_server,
}

pub passed_if :
    (t : Bool) (e : ConfigError) (rest : Check)
    → fail_if t e rest ≡ passed
    → (t ≡ false) × (rest ≡ passed)
unfolding fail_if
passed_if true e rest h = cc
passed_if false e rest h = (refl, h)

abbrev pub templates_named : String → List Template → ℕ
templates_named name ts = count (λ t. t.name == name) ts

abbrev pub workers_named : String → List ControlProvisioner → ℕ
workers_named name ps = count (λ p. p.worker_id == name) ps

abbrev seen_after : List String → List Template → List String
seen_after seen [] = seen
seen_after seen (t ∷ ts) = seen_after (t.name ∷ seen) ts

abbrev once : Bool → ℕ
once b = if b then 1 else 0

check_templates-once :
    (seen : List String) (ts : List Template) (rest : List String → Check)
    → check_templates seen ts rest ≡ passed
    → (rest (seen_after seen ts) ≡ passed)
      × ((name : String) → once (is_seen name seen) + templates_named name ts ≤ 1)
unfolding check_templates count
check_templates-once seen [] rest h = (
  h,
  λ name. elim (Bool-cases (is_seen name seen)) [
    | inl e ↦ rw e (omega arith)
    | inr e ↦ rw e (omega arith)
  ],
)
check_templates-once seen (t ∷ ts) rest h =
    let (named, sized) = passed_if _ _ _ h in
    let (fine, later) = passed_if _ _ _ sized in
    let (done, unique) = check_templates-once (t.name ∷ seen) ts rest later in
    (done, λ name. ground (arith, unique name, eq_iff t.name name))

seen_after-count :
    (seen : List String) (ts : List Template) (name : String)
    → is_seen name (seen_after seen ts) ≡ true
    → is_seen name seen ≡ false
    → 0 < templates_named name ts
unfolding count
seen_after-count seen [] name found new = cc
seen_after-count seen (t ∷ ts) name found new = elim (Bool-cases (t.name == name)) [
  | inl same ↦ rw same (omega arith)
  | inr other ↦ rw other (seen_after-count (t.name ∷ seen) ts name found (rw other new))
]

check_provisioners-once :
    (seen : List String) (ps : List ControlProvisioner) (rest : Check)
    → check_provisioners seen ps rest ≡ passed
    → (rest ≡ passed)
      × ((name : String) → once (is_seen name seen) + workers_named name ps ≤ 1)
      × (workers_named "" ps ≡ 0)
unfolding check_provisioners count
check_provisioners-once seen [] rest h = (
  h,
  (λ name. elim (Bool-cases (is_seen name seen)) [
    | inl e ↦ rw e (omega arith)
    | inr e ↦ rw e (omega arith)
  ]),
  refl,
)
check_provisioners-once seen (p ∷ ps) rest h =
    let (named, later) = passed_if _ _ _ h in
    let (done, unique, nameless) = check_provisioners-once (p.worker_id ∷ seen) ps rest later in
    (done, (λ name. ground (arith, unique name, eq_iff p.worker_id name)), ground (arith, nameless))

abbrev pub is_positive_quota : QuotaLimit → Bool
is_positive_quota q = is_positive q.max_workspaces && is_positive q.max_running_workspaces

-- A quota for a configured template.
abbrev pub FitsTemplate : List Template → String × QuotaLimit → Type 0
FitsTemplate ts (name, limit) = (0 < templates_named name ts) × (is_positive_quota limit ≡ true)

check_quotas-fit :
    (ts : List Template) (quotas : List (String × QuotaLimit)) (rest : Check)
    → check_quotas (seen_after [] ts) quotas rest ≡ passed
    → (rest ≡ passed) × All (FitsTemplate ts) quotas
unfolding check_quotas valid_quota
check_quotas-fit ts [] rest h = (h, tt)
check_quotas-fit ts ((name, q) ∷ quotas) rest h =
    let (fits, later) = passed_if _ _ _ h in
    let (done, others) = check_quotas-fit ts quotas rest later in
    (done, ((seen_after-count [] ts name (ground arith) refl, ground arith), others))

pub record ValidServer (c : ServerConfig) : Type 0 where
  pub unique_templates : (name : String) → templates_named name c.templates ≤ 1
  pub default_template : 0 < templates_named c.default_template c.templates
  pub default_quota : is_positive_quota c.default_quota ≡ true
  pub template_quotas : All (FitsTemplate c.templates) c.template_quotas
  pub unique_workers : (name : String) → workers_named name c.provisioners ≤ 1
  pub named_workers : workers_named "" c.provisioners ≡ 0

-- A server configuration that passes names each template once, has its default template and a
-- template for every quota, only positive quotas, and provisioners with different, non-empty worker
-- IDs.
pub validate_server-ValidServer :
    (is_uri is_https : String → Bool) (c : ServerConfig)
    → validate_server is_uri is_https c ≡ passed
    → ValidServer c
unfolding validate_server validate_from_quotas valid_quota
validate_server-ValidServer is_uri is_https c h =
    let (u, h1) = passed_if _ _ _ h in
    let (l, h2) = passed_if _ _ _ h1 in
    let (t, h3) = passed_if _ _ _ h2 in
    let (h4, unique) = check_templates-once [] c.templates (validate_from_quotas is_https c) h3 in
    let (known, h5) = passed_if _ _ _ h4 in
    let (quota, h6) = passed_if _ _ _ h5 in
    let (h7, fits) = check_quotas-fit c.templates c.template_quotas _ h6 in
    let (w, h8) = passed_if _ _ _ h7 in
    let (s, h9) = passed_if _ _ _ h8 in
    let (f, h10) = passed_if _ _ _ h9 in
    let (p, h11) = passed_if _ _ _ h10 in
    let (done, unique_ps, named) = check_provisioners-once [] c.provisioners _ h11 in
    record {
      unique_templates = λ name. omega (arith, unique name);
      default_template = seen_after-count [] c.templates c.default_template (ground arith) refl;
      default_quota = ground arith;
      template_quotas = fits;
      unique_workers = λ name. omega (arith, unique_ps name);
      named_workers = named;
    }
