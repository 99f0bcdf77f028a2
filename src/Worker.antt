-- ===== src/Worker.antt =====
-- internal/provisioner/worker.go: one round of the worker, from a claim to the completion of its build.
-- A text is the list of its bytes; `quote` stands for fmt's %q, and a Host for the file system, the
-- commands and the state store of the machine, each of whose calls gives its error or none.
pub mod Build
pub mod Redaction
pub mod Order
pub mod Completed
mod Examples
use quickworks.Base.{
  ℕ, zero, suc, ◌-◌, Bool, true, false, not, ◌&&◌, ◌||◌, Option, none, some, List, [], ◌∷◌, ◌++◌,
  if◌then◌else◌, map, length, nat_eq,
}
use quickworks.Text.{bytes, same, has_prefix, contains_text}

pub record ClaimedLease : Type 0 where
  pub build_id : List ℕ
  pub workspace_id : List ℕ
  pub transition : List ℕ
  pub template_name : List ℕ
  pub lease_id : List ℕ
  pub agent_id : List ℕ
  pub agent_token : List ℕ

pub record Worker : Type 0 where
  pub worker_id : List ℕ
  pub token : List ℕ
  pub control_url : List ℕ
  pub template_dirs : List (List ℕ × List ℕ)

-- What quickworks.auto.tfvars.json holds.
pub record TemplateVariables : Type 0 where
  pub workspace_id : List ℕ
  pub transition : List ℕ
  pub startup_script : List ℕ

-- What the worker does to its machine and sends to the server, in its order.
pub data Call : Type 0 where
  copy_file : List ℕ → Call
  write_variables : TemplateVariables → Call
  run : List (List ℕ) → Call
  back_up : Call
  log : List ℕ → List ℕ → Call
  renew : Call
  complete : Option (List ℕ) → Call

pub record TemplateEntry : Type 0 where
  pub name : List ℕ
  pub is_directory : Bool
  pub failure : Option (List ℕ)

pub data Listing : Type 0 where
  unread : List ℕ → Listing
  entries : List TemplateEntry → Listing

pub data Backend : Type 0 where
  no_backend : List ℕ → Backend
  arguments : List (List ℕ) → Backend

pub data Saved : Type 0 where
  not_saved : List ℕ → Saved
  saved : List ℕ → Saved

-- A command: what it prints, and its error.
pub record Ended : Type 0 where
  pub output : List ℕ
  pub failure : Option (List ℕ)

pub record Host : Type 0 where
  pub makes_directory : Option (List ℕ)
  pub read_dir : List ℕ → Listing
  pub backend_args : List ℕ → Backend
  pub writes : Option (List ℕ)
  pub command : List (List ℕ) → Ended
  pub backup : List ℕ → Saved

abbrev pub redacted : List ℕ
redacted = bytes "[REDACTED]"

-- strings.ReplaceAll(message, old, "[REDACTED]") for a text that is not empty, behind the bytes of a
-- match that are still to be passed over.
unfoldable pub replace_from : List ℕ → ℕ → List ℕ → List ℕ
replace_from old k [] = []
replace_from old (suc k) (b ∷ s) = replace_from old k s
replace_from old zero (b ∷ s) =
    let rest = replace_from old zero s in
    let behind = replace_from old (length old - 1) s in
    if has_prefix old (b ∷ s) then redacted ++ behind else b ∷ rest

unfoldable pub redact_all : List (List ℕ) → List ℕ → List ℕ
redact_all [] message = message
redact_all ([] ∷ secrets) message = redact_all secrets message
redact_all ((b ∷ secret) ∷ secrets) message =
    redact_all secrets (replace_from (b ∷ secret) 0 message)

abbrev pub secrets_of : Worker → ClaimedLease → List (List ℕ)
secrets_of w l = w.token ∷ l.lease_id ∷ l.agent_token ∷ []

-- redact
unfoldable pub redact : Worker → ClaimedLease → List ℕ → List ℕ
redact w l message = redact_all (secrets_of w l) message

-- log
abbrev pub log_of : Worker → ClaimedLease → List ℕ → List ℕ → Call
log_of w l level message = log level (redact w l message)

-- What a call posts: the path below the lease, and the fields besides worker_id and lease_id.
unfoldable pub post_of : Call → Option (List ℕ × List (List ℕ × List ℕ))
post_of (log level message) =
    some (bytes "/logs", (bytes "level", level) ∷ (bytes "message", message) ∷ [])
post_of renew = some (bytes "/renew", [])
post_of (complete none) = some (bytes "/complete", [])
post_of (complete (some failure)) = some (bytes "/complete", (bytes "error", failure) ∷ [])
post_of _ = none
