-- ===== src/Worker/Examples.antt =====
-- One build of a worker: what the theorems on a round say there.
use quickworks.Base.{ℕ, ◌≡◌, refl, false, none, List, [], ◌∷◌, ◌++◌}
use quickworks.Text.{bytes, same, contains, contains_text, has_prefix}
use quickworks.Worker.{ClaimedLease, Worker, Host, entries, arguments, saved, redact}
use quickworks.Worker.Build.{work, execute}
use quickworks.Worker.Redaction.{IsOpaque, redact-hides}
use quickworks.Worker.Order.{pick, as_completion}
use quickworks.Worker.Completed.{work-completion}

abbrev quote : List ℕ → List ℕ
quote text = b'"' ∷ text ++ b'"' ∷ []

abbrev worker : Worker
worker = record {
  worker_id = bytes "worker";
  token = bytes "s3cret";
  control_url = bytes "https://quickworks.example";
  template_dirs = (bytes "vm", bytes "/templates/vm") ∷ [];
}

abbrev claimed : ClaimedLease
claimed = record {
  build_id = bytes "b1";
  workspace_id = bytes "calm-kind-orbit";
  transition = bytes "start";
  template_name = bytes "vm";
  lease_id = bytes "l1";
  agent_id = bytes "a1";
  agent_token = bytes "t1";
}

abbrev host : Host
host = record {
  makes_directory = none;
  read_dir =
      λ dir. entries (record { name = bytes "main.tf"; is_directory = false; failure = none } ∷ []);
  backend_args = λ id. arguments (bytes "-backend-config=path=x" ∷ []);
  writes = none;
  command = λ args. record { output = bytes "with s3cret"; failure = none };
  backup = λ id. saved (bytes "/backups/20260101T000000Z.tfstate");
}

token-IsOpaque : IsOpaque worker.token
unfolding contains contains_text has_prefix
token-IsOpaque = record { nonempty = λ e. cc; no_open = refl; no_close = refl; no_word = refl }

redact-hides_example :
    contains_text (bytes "s3cret") (redact worker claimed (bytes "with s3cret")) ≡ false
unfolding same
redact-hides_example =
    redact-hides worker claimed (bytes "with s3cret") (bytes "s3cret") refl token-IsOpaque

work-completion_example :
    pick as_completion (work quote worker claimed host) ≡ (execute quote worker claimed host).1 ∷ []
work-completion_example = work-completion quote worker claimed host
