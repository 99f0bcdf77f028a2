-- ===== src/Startup/Prepared.antt =====
-- internal/app/agent.go: what an agent whose Workbench is supervised has gone through.
use Prim.Native.String
use quickworks.Base.{
  map, eq_iff, ◌≡◌, refl, ap, String, Bool, true, false, ◌&&◌, ◌||◌, Option, none, some, List, [],
  ◌∷◌, ◌++◌, ◌==◌, nat_eq, arith, Bool-cases, Option-cases, inl, inr, ◌⊎◌,
}
use quickworks.Router.Machines.{EnrollInput}
use quickworks.Startup.{
  EnrollmentResponse, HttpReply, unsent, received, is_complete, accepted_response, enroll_with,
  Effect, changed_owner, wrote, tunnelled, supervised, Step, and_then, Place, Vm, starts_with,
  has_no_entries, clone_arguments, clone_into, clone_repository, change_owners,
  set_workspace_ownership, configure_github_credential, supervise, write, start_workbench,
  clone_named, prepare, place_of, run_agent,
}

through :
    (s t : Step)
    → (and_then s t).0 ≡ true
    → (s.0 ≡ true) × (t.0 ≡ true) × ((and_then s t).1 ≡ s.1 ++ t.1)
unfolding and_then
through (true, done) (b, more) h = (refl, h, refl)
through (false, done) t h = absurd (ground arith)

empty-eq : (entries : Option (List String)) → has_no_entries entries ≡ true → entries ≡ some []
empty-eq none h = absurd (ground arith)
empty-eq (some []) h = refl
empty-eq (some (x ∷ xs)) h = absurd (ground arith)

-- A workspace that CloneRepository leaves behind.
pub record IsCheckedOut (m : Vm) (url token dir : String) : Type 0 where
  pub at_github : starts_with "https://github.com/" url ≡ true
  pub with_token : (token == "") ≡ false
  pub there :
      (m.has_git ≡ true) ⊎ ((m.entries ≡ some []) × (m.git (clone_arguments url dir) ≡ true))

clone_repository-IsCheckedOut :
    (m : Vm) (url token dir : String)
    → (clone_repository m url token dir).0 ≡ true
    → IsCheckedOut m url token dir
unfolding clone_repository clone_into
clone_repository-IsCheckedOut m url token dir h =
    let (fine, rest, all_done) = through _ _ h in
    elim (Bool-cases m.has_git) [
      | inl kept ↦ record { at_github = ground arith; with_token = ground arith; there = inl kept }
      | inr fresh ↦
          let (ready, cloned, done) = through _ _ (rw fresh at rest) in
          record {
            at_github = ground arith;
            with_token = ground arith;
            there = inr (empty-eq m.entries (ground arith), cloned);
          }
    ]

change_owners-done :
    (walk : List (String × Bool))
    → (change_owners walk).0 ≡ true
    → (change_owners walk).1 ≡ map (λ v. changed_owner v.0) walk
unfolding change_owners and_then
change_owners-done [] h = refl
change_owners-done ((name, true) ∷ rest) h =
    ap (λ done. changed_owner name ∷ done) (change_owners-done rest h)
change_owners-done ((name, false) ∷ rest) h = absurd (ground arith)

abbrev pub last_effects : EnrollmentResponse → String → List Effect
last_effects r entrypoint =
    wrote "/etc/quickworks/workbench/byok.json" r.workbench_byok_config
    ∷ wrote "/etc/quickworks/workbench/workbench.env" r.workbench_environment
    ∷ tunnelled r.agent_id r.session
    ∷ supervised entrypoint (String.◌++◌ "/w/" (String.◌++◌ r.workspace_id "/"))
    ∷ []

-- The calls that came before a Workbench was supervised.
pub record IsStarted (m : Vm) (p : Place) (r : EnrollmentResponse) (done : List Effect)
    : Type 0 where
  pub checkout :
      (r.repository_url ≡ "") ⊎ IsCheckedOut m r.repository_url r.clone_token p.workspace_dir
  pub approved : m.git ("credential" ∷ "approve" ∷ []) ≡ true
  pub entrypoint : String
  pub installed :
      m.install r.workbench_bundle_url r.workbench_bundle_sha r.workbench_entrypoint
      ≡ some entrypoint
  pub in_order :
      done
      ≡ (clone_named m p r).1
        ++ (map (λ v. changed_owner v.0) m.walk
            ++ ((configure_github_credential m r.github_token p.user).1
                ++ last_effects r entrypoint))

supervise-done :
    (m : Vm) (r : EnrollmentResponse) (bundle : Option String)
    → (supervise m r bundle).0 ≡ true
    → (entrypoint : String) × (bundle ≡ some entrypoint)
      × ((supervise m r bundle).1
          ≡ tunnelled r.agent_id r.session
            ∷ supervised entrypoint (String.◌++◌ "/w/" (String.◌++◌ r.workspace_id "/"))
            ∷ [])
unfolding supervise
supervise-done m r none h = absurd (ground arith)
supervise-done m r (some entrypoint) h =
    let (there, rest, done) = through _ _ h in (entrypoint, refl, done)

written :
    (m : Vm) (name text : String)
    → (write m name text).0 ≡ true
    → (write m name text).1 ≡ wrote name text ∷ []
written m name text h = rw h refl

start_workbench-done :
    (m : Vm) (r : EnrollmentResponse)
    → (start_workbench m r).0 ≡ true
    → (entrypoint : String) × (m.install r.workbench_bundle_url r.workbench_bundle_sha
          r.workbench_entrypoint
        ≡ some entrypoint)
      × ((start_workbench m r).1 ≡ last_effects r entrypoint)
unfolding start_workbench
start_workbench-done m r h =
    let (made, s1, g1) = through _ _ h in
    let (byok, s2, g2) = through _ _ s1 in
    let (env, s3, g3) = through _ _ s2 in
    let (entrypoint, installed, g4) = supervise-done m r _ s3 in
    (entrypoint, installed, rw (g1, g2, g3, g4, byok, env) refl)

configure-approved :
    (m : Vm) (token user : String)
    → (configure_github_credential m token user).0 ≡ true
    → m.git ("credential" ∷ "approve" ∷ []) ≡ true
unfolding configure_github_credential
configure-approved m token user h =
    let (named, c1, f1) = through _ _ h in
    let (stored, c2, f2) = through _ _ c1 in
    let (full, c3, f3) = through _ _ c2 in (through _ _ c3).0

checked_out :
    (m : Vm) (p : Place) (r : EnrollmentResponse)
    → (clone_named m p r).0 ≡ true
    → (r.repository_url ≡ "") ⊎ IsCheckedOut m r.repository_url r.clone_token p.workspace_dir
checked_out m p r h = elim (Bool-cases (r.repository_url == "")) [
  | inl blank ↦ inl (ground (arith, eq_iff r.repository_url ""))
  | inr named ↦ inr (
      clone_repository-IsCheckedOut m r.repository_url r.clone_token p.workspace_dir
        (rw named at h))
]

prepare-IsStarted :
    (m : Vm) (p : Place) (r : EnrollmentResponse)
    → (prepare m p r).0 ≡ true
    → IsStarted m p r (prepare m p r).1
unfolding prepare set_workspace_ownership
prepare-IsStarted m p r h =
    let (cloned, rest, effects) = through _ _ h in
    let (owned, rest', effects') = through _ _ rest in
    let (fine, walked, effects'') = through _ _ owned in
    let (configured, started, effects3) = through _ _ rest' in
    let (entrypoint, installed, finished) = start_workbench-done m r started in
    record {
      checkout = checked_out m p r cloned;
      approved = configure-approved m r.github_token p.user configured;
      entrypoint = entrypoint;
      installed = installed;
      in_order =
          rw (effects, effects', effects'', change_owners-done m.walk walked, effects3, finished)
            refl;
    }

accepted_response-received :
    (reply : HttpReply) (r : EnrollmentResponse)
    → accepted_response reply ≡ some r
    → (reply ≡ received 201 (some r)) × (is_complete r ≡ true)
accepted_response-received unsent r h = absurd (ground arith)
accepted_response-received (received status none) r h = absurd (ground arith)
accepted_response-received (received status (some q)) r h =
    elim (Bool-cases (nat_eq status 201 && is_complete q)) [
      | inr not_so ↦ absurd (ground arith)
      | inl fine ↦
          let same : q ≡ r = ground arith in
          let is_201 : status ≡ 201 = ground arith in
          let complete : is_complete q ≡ true = ground arith in
          (rw (same, is_201) refl, (rw same at complete))
    ]

enroll_with-received :
    (post : String → EnrollInput → HttpReply) (token public_key : String) (r : EnrollmentResponse)
    → enroll_with post token public_key ≡ some r
    → (post "/api/agent/enroll" (record { enrollment_token = token; public_key = public_key })
        ≡ received 201 (some r))
      × (is_complete r ≡ true)
unfolding enroll_with
enroll_with-received post token public_key r h = accepted_response-received _ r h

-- If RunAgent gets as far as its supervisor, then the server has answered the enrollment with 201
-- and a complete response; either it names no repository, or the repository is at GitHub with a
-- token for it, and the workspace had a .git or else was empty and git clone ended well; git has
-- approved the GitHub credential and the bundle is installed; and the effects are those of the
-- clone, then a new owner for each file of the workspace, then Git's configuration, then the two
-- configuration files, the tunnel and the Workbench, in this order.
pub run_agent-IsStarted :
    (getenv : String → String) (post : String → EnrollInput → HttpReply) (m : Vm)
    → (run_agent getenv post m).0 ≡ true
    → (public_key : String) × (r : EnrollmentResponse) × (m.public_key ≡ some public_key)
      × (post "/api/agent/enroll" (record {
        enrollment_token = getenv "QUICKWORKS_AGENT_ENROLLMENT_TOKEN";
        public_key = public_key;
      })
          ≡ received 201 (some r))
      × (is_complete r ≡ true)
      × IsStarted m (place_of getenv) r (run_agent getenv post m).1
unfolding run_agent
run_agent-IsStarted getenv post m h =
    let token = getenv "QUICKWORKS_AGENT_ENROLLMENT_TOKEN" in
    elim (Bool-cases (
      (getenv "QUICKWORKS_AGENT_CONTROL_URL" == "")
      || ((token == "") || (getenv "QUICKWORKS_AGENT_STATE_DIR" == "")))) [
        | inl unset ↦ absurd (ground (arith, run_agent))
        | inr set ↦ elim (Option-cases m.public_key) [
          | inl unkeyed ↦ absurd (ground arith)
          | inr (public_key, keyed) ↦ elim (Option-cases (enroll_with post token public_key)) [
            | inl turned_away ↦ absurd (ground arith)
            | inr (r, joined) ↦
                let same : run_agent getenv post m ≡ prepare m (place_of getenv) r = ground arith in
                let (replied, complete) = enroll_with-received post token public_key r joined in
                (
                  public_key,
                  r,
                  keyed,
                  replied,
                  complete,
                  rw same (prepare-IsStarted m (place_of getenv) r (rw same at h)),
                )
          ]
        ]
      ]
