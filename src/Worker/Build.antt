-- ===== src/Worker/Build.antt =====
-- internal/provisioner/worker.go: copyTemplate, run_command, execute and runOnce, with the loops of Run and
-- maintainLease.
use quickworks.Base.{
  ℕ, Bool, not, ◌||◌, Option, none, some, List, [], ◌∷◌, ◌++◌, if◌then◌else◌, nat_eq,
}
use quickworks.Text.{bytes, same}
use quickworks.Worker.{
  ClaimedLease, Worker, TemplateVariables, Call, copy_file, write_variables, run, back_up, renew,
  complete, TemplateEntry, Listing, unread, entries, no_backend, arguments, not_saved, saved, Host,
  log_of,
}

abbrev pub is_left_out : TemplateEntry → Bool
is_left_out e =
    e.is_directory || same e.name (bytes ".terraform") || same e.name (bytes "terraform.tfstate")

-- The loop of copyTemplate
unfoldable pub copy_entries : List TemplateEntry → List Call × Option (List ℕ)
copy_entries [] = ([], none)
copy_entries (e ∷ es) =
    let (calls, failure) = copy_entries es in
    if is_left_out e
    then (calls, failure)
    else elim e.failure [ some f ↦ ([], some f) | none ↦ (copy_file e.name ∷ calls, failure) ]

-- copyTemplate
unfoldable pub copy_template : Listing → List Call × Option (List ℕ)
copy_template (unread failure) = ([], some failure)
copy_template (entries es) = copy_entries es

abbrev pub program_of : List (List ℕ) → List ℕ
program_of [] = []
program_of (a ∷ args) = a

abbrev pub print : Worker → ClaimedLease → List ℕ → List Call
print w l [] = []
print w l (b ∷ s) = log_of w l (bytes "info") (b ∷ s) ∷ []

abbrev pub wrap : List (List ℕ) → Option (List ℕ) → Option (List ℕ)
wrap args none = none
wrap args (some f) = some (program_of args ++ bytes ": " ++ f)

-- The calls of `command`, its output logged, and its error
unfoldable pub run_command :
    Worker → ClaimedLease → Host → List (List ℕ) → List Call × Option (List ℕ)
run_command w l h args =
    let ended = h.command args in (run args ∷ print w l ended.output, wrap args ended.failure)

-- The loop over the commands, up to the first error
unfoldable pub run_commands :
    Worker → ClaimedLease → Host → List (List (List ℕ)) → List Call × Option (List ℕ)
run_commands w l h [] = ([], none)
run_commands w l h (args ∷ commands) =
    let (calls, failure) = run_command w l h args in
    let (others, last) = run_commands w l h commands in
    elim failure [ some f ↦ (calls, some f) | none ↦ (calls ++ others, last) ]

abbrev pub script : List (List ℕ) → List (List (List ℕ))
script backend =
    (bytes "init" ∷ bytes "-input=false" ∷ backend)
    ∷ (bytes "plan" ∷ bytes "-input=false" ∷ bytes "-lock-timeout=30s" ∷ bytes "-out=plan.bin" ∷ [])
    ∷ (bytes "apply" ∷ bytes "-input=false" ∷ bytes "plan.bin" ∷ [])
    ∷ []

unfoldable pub find_dir : List ℕ → List (List ℕ × List ℕ) → List ℕ
find_dir name [] = []
find_dir name ((n, dir) ∷ dirs) = if same n name then dir else find_dir name dirs

-- After `first`, the calls of `next` unless it failed.
unfoldable pub and_then :
    List Call × Option (List ℕ) → List Call × Option (List ℕ) → List Call × Option (List ℕ)
and_then (calls, some f) next = (calls, some f)
and_then (calls, none) (others, failure) = (calls ++ others, failure)

-- The state backup at the end of execute
unfoldable pub back_up_state : Worker → ClaimedLease → Host → List Call × Option (List ℕ)
back_up_state w l h = elim (h.backup l.workspace_id) [
  | not_saved f ↦ (back_up ∷ [], some (bytes "backup Terraform state: " ++ f))
  | saved [] ↦ (back_up ∷ [], none)
  | saved (b ∷ path) ↦
      (back_up ∷ log_of w l (bytes "info") (bytes "Terraform state backup created") ∷ [], none)
]

-- The log of an error, if there is one
abbrev pub log_failure : Worker → ClaimedLease → Option (List ℕ) → List Call
log_failure w l none = []
log_failure w l (some f) = log_of w l (bytes "error") f ∷ []

pub data Decoded : Type 0 where
  undecoded : List ℕ → Decoded
  leased : ClaimedLease → Decoded

pub data Claimed : Type 0 where
  unanswered : List ℕ → Claimed
  answered : ℕ → Decoded → Claimed

pub data Posted : Type 0 where
  lost : List ℕ → Posted
  got : ℕ → Posted

-- The answers to the claim and to the completion, and the texts of statuses.
pub record Server : Type 0 where
  pub claimed : Claimed
  pub completed : Posted
  pub status_text : ℕ → List ℕ

-- The error of `post`
unfoldable pub posted : Server → List ℕ → Posted → Option (List ℕ)
posted server path (lost f) = some f
posted server path (got n) =
    if nat_eq n 204 then none else some (path ++ bytes ": " ++ server.status_text n)

abbrev pub completion_path : ClaimedLease → List ℕ
completion_path l = bytes "/api/internal/provisioner/leases/" ++ l.build_id ++ bytes "/complete"

-- The seconds that Run waits after a round.
abbrev pub pause_after : Option (List ℕ) → ℕ
pause_after none = 1
pause_after (some f) = 3

-- maintainLease over its ticks, each with the result of its renewal
unfoldable pub maintain_lease : Worker → ClaimedLease → List Bool → List Call
maintain_lease w l [] = []
maintain_lease w l (renewed ∷ ticks) =
    let rest = maintain_lease w l ticks in
    if renewed
    then renew ∷ rest
    else renew ∷ log_of w l (bytes "warning") (bytes "build lease renewal failed") ∷ rest

module _ (quote : List ℕ → List ℕ) where
  unfoldable pub startup_script : Worker → ClaimedLease → List ℕ
  startup_script w l =
      if same l.transition (bytes "start")
      then bytes "#!/bin/sh\nset -eu\nexport QUICKWORKS_AGENT_CONTROL_URL="
        ++ quote w.control_url
        ++ bytes "\nexport QUICKWORKS_AGENT_ID="
        ++ quote l.agent_id
        ++ bytes "\nexport QUICKWORKS_AGENT_ENROLLMENT_TOKEN="
        ++ quote l.agent_token
        ++ bytes
            "\ncurl --fail --silent --show-error --location \"$QUICKWORKS_AGENT_CONTROL_URL/assets/workspace-bootstrap.sh\" --output /usr/local/bin/quickworks-bootstrap\nchmod 0700 /usr/local/bin/quickworks-bootstrap\nexec /usr/local/bin/quickworks-bootstrap\n"
      else bytes "#!/bin/sh\nexit 0\n"

  abbrev pub variables_of : Worker → ClaimedLease → TemplateVariables
  variables_of w l = record {
    workspace_id = l.workspace_id;
    transition = l.transition;
    startup_script = startup_script w l;
  }

  -- execute, once the template was copied
  unfoldable pub apply_template : Worker → ClaimedLease → Host → List Call × Option (List ℕ)
  apply_template w l h = elim (h.backend_args l.workspace_id) [
    | no_backend f ↦ ([], some f)
    | arguments backend ↦ elim h.writes [
      | some f ↦ ([], some f)
      | none ↦
          and_then (write_variables (variables_of w l) ∷ [], none)
            (and_then (run_commands w l h (script backend)) (back_up_state w l h))
    ]
  ]

  -- execute
  unfoldable pub execute : Worker → ClaimedLease → Host → List Call × Option (List ℕ)
  execute w l h = elim h.makes_directory [
    | some f ↦ ([], some f)
    | none ↦
        let dir = find_dir l.template_name w.template_dirs in
        if same dir []
        then ([], some (bytes "worker does not have template " ++ quote l.template_name))
        else and_then (copy_template (h.read_dir dir)) (apply_template w l h)
  ]

  -- runOnce, once a lease was decoded; the renewals of maintainLease run beside it
  unfoldable pub work : Worker → ClaimedLease → Host → List Call
  work w l h =
      let (calls, failure) = execute w l h in
      log_of w l (bytes "info") (bytes "build claimed") ∷ calls
      ++ log_failure w l failure
      ++ complete failure ∷ []

  -- runOnce: its calls after the claim, and its error
  unfoldable pub run_once : Worker → Host → Server → List Call × Option (List ℕ)
  run_once w h server = elim server.claimed [
    | unanswered f ↦ ([], some f)
    | answered status lease ↦
        if nat_eq status 204
        then ([], none)
        else (if not (nat_eq status 200)
            then ([], some (bytes "claim build: " ++ server.status_text status))
            else elim lease [
              | undecoded f ↦ ([], some f)
              | leased l ↦ (work w l h, posted server (completion_path l) server.completed)
            ])
  ]
