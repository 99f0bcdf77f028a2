-- ===== src/Worker/Order.antt =====
-- internal/provisioner/worker.go: which commands a build ran when it is completed, and how it is completed.
use quickworks.Base.{
  Bool, true, false, ℕ, ◌≡◌, refl, sym, ◌∙◌, Option, none, some, List, [], ◌∷◌, ◌++◌, arith,
  Bool-cases, Option-cases, inl, inr, ◌⊎◌,
}
use mathlib.Core.List.{append-nil}
use mathlib.Core.Path.{subst}
use quickworks.Text.{bytes, same}
use quickworks.Worker.{
  ClaimedLease, Worker, Host, Call, TemplateEntry, Listing, unread, entries, Backend, no_backend,
  arguments, Saved, not_saved, saved, copy_file, write_variables, run, back_up, log, complete,
}
use quickworks.Worker.Build.{
  copy_entries, copy_template, print, run_commands, script, and_then, back_up_state, apply_template,
  execute, log_failure, work, variables_of, find_dir,
}

Saved-cases :
    (s : Saved)
    → ((e : List ℕ) × (s ≡ not_saved e))
      ⊎ ((s ≡ saved []) ⊎ ((b : ℕ) × (path : List ℕ) × (s ≡ saved (b ∷ path))))
Saved-cases (not_saved e) = inl (e, refl)
Saved-cases (saved []) = inr (inl refl)
Saved-cases (saved (b ∷ path)) = inr (inr (b, path, refl))

abbrev pub maybe_cons {ℓ} : {A : Type ℓ} → Option A → List A → List A
maybe_cons none xs = xs
maybe_cons (some x) xs = x ∷ xs

-- What a function picks of some calls, in their order.
unfoldable pub pick {ℓ} : {A : Type ℓ} → (Call → Option A) → List Call → List A
pick f [] = []
pick f (c ∷ calls) = maybe_cons (f c) (pick f calls)

abbrev pub as_command : Call → Option (List (List ℕ))
as_command (run args) = some args
as_command _ = none

abbrev pub as_completion : Call → Option (Option (List ℕ))
as_completion (complete failure) = some failure
as_completion _ = none

-- A command, or the backup of the state.
abbrev pub as_step : Call → Option (Option (List (List ℕ)))
as_step (run args) = some (some args)
as_step back_up = some none
as_step _ = none

-- The commands of a script that are run: those up to the first that fails, it included.
unfoldable pub up_to_failure : Host → List (List (List ℕ)) → List (List (List ℕ))
up_to_failure h [] = []
up_to_failure h (args ∷ commands) =
    let rest = up_to_failure h commands in
    elim (h.command args).failure [ some f ↦ args ∷ [] | none ↦ args ∷ rest ]

and_then-cases :
    (a b : List Call × Option (List ℕ))
    → ((e : List ℕ) × (and_then a b ≡ (a.0, some e)))
      ⊎ ((a.1 ≡ none) × (and_then a b ≡ (a.0 ++ b.0, b.1)))
unfolding and_then
and_then-cases (calls, some e) b = inl (e, refl)
and_then-cases (calls, none) (others, failure) = inr (refl, refl)

Backend-cases :
    (b : Backend)
    → ((e : List ℕ) × (b ≡ no_backend e)) ⊎ ((args : List (List ℕ)) × (b ≡ arguments args))
Backend-cases (no_backend e) = inl (e, refl)
Backend-cases (arguments args) = inr (args, refl)

module _ {ℓ} {A : Type ℓ} (f : Call → Option A) where
  pub pick-append : (a b : List Call) → pick f (a ++ b) ≡ pick f a ++ pick f b
  unfolding pick
  pick-append [] b = refl
  pick-append (c ∷ a) b = elim (Option-cases (f c)) [
    | inl nothing ↦ rw (nothing, pick) (pick-append a b)
    | inr (x, found) ↦ rw (found, pick, pick-append a b) refl
  ]

  pub pick_quiet : (c : Call) (calls : List Call) → f c ≡ none → pick f (c ∷ calls) ≡ pick f calls
  unfolding pick
  pick_quiet c calls quiet = rw (quiet, pick) refl

  -- Nothing is picked of the calls beside commands, the backup and completions.
  pub record IsSilent : Type ℓ where
    pub copies : (name : List ℕ) → f (copy_file name) ≡ none
    pub writes :
        (w : Worker) (l : ClaimedLease) (quote : List ℕ → List ℕ)
        → f (write_variables (variables_of quote w l)) ≡ none
    pub logs : (level message : List ℕ) → f (log level message) ≡ none

  module _ (silent : IsSilent) where
    pick-copy_entries : (es : List TemplateEntry) → pick f (copy_entries es).0 ≡ []
    unfolding pick copy_entries
    pick-copy_entries [] = refl
    pick-copy_entries (e ∷ es) = ground (arith, pick-copy_entries es, silent.copies e.name)

    pick-copy_template : (listing : Listing) → pick f (copy_template listing).0 ≡ []
    unfolding pick copy_template
    pick-copy_template (unread failure) = refl
    pick-copy_template (entries es) = pick-copy_entries es

    pub pick-print :
        (w : Worker) (l : ClaimedLease) (output : List ℕ) → pick f (print w l output) ≡ []
    unfolding pick
    pick-print w l [] = refl
    pick-print w l (b ∷ s) = rw (silent.logs _ _) refl

    pick-log_failure :
        (w : Worker) (l : ClaimedLease) (failure : Option (List ℕ))
        → pick f (log_failure w l failure) ≡ []
    unfolding pick
    pick-log_failure w l none = refl
    pick-log_failure w l (some e) = rw (silent.logs _ _) refl

    -- What is picked of the backup, where it is reached.
    abbrev pub kept : Bool → List A
    kept true = maybe_cons (f back_up) []
    kept false = []

    pick-back_up_state :
        (w : Worker) (l : ClaimedLease) (h : Host) → pick f (back_up_state w l h).0 ≡ kept true
    unfolding pick back_up_state
    pick-back_up_state w l h = elim (Saved-cases (h.backup l.workspace_id)) [
      | inl (e, failed) ↦ rw (failed, back_up_state) refl
      | inr (inl unchanged) ↦ rw (unchanged, back_up_state) refl
      | inr (inr (b, path, found)) ↦ rw (found, back_up_state, silent.logs) refl
    ]

    -- How an execution ends: before any run_command, or with the commands of a backend.
    abbrev pub Ends : ClaimedLease → Worker → Host → List Call × Option (List ℕ) → Type ℓ
    Ends l w h result =
        ((e : List ℕ) × (pick f result.0 ≡ []) × (result.1 ≡ some e))
        ⊎ ((backend : List (List ℕ)) × (h.backend_args l.workspace_id ≡ arguments backend)
            × (reached : Bool) × (pick f result.0
                ≡ pick f (run_commands w l h (script backend)).0 ++ kept reached)
            × (result.1 ≡ none
                → (reached ≡ true)
                  × ((run_commands w l h (script backend)).1 ≡ none)
                  × ((path : List ℕ) × (h.backup l.workspace_id ≡ saved path))))

    backed_up :
        (w : Worker) (l : ClaimedLease) (h : Host)
        → (back_up_state w l h).1 ≡ none
        → (path : List ℕ) × (h.backup l.workspace_id ≡ saved path)
    unfolding back_up_state
    backed_up w l h done = elim (Saved-cases (h.backup l.workspace_id)) [
      | inl (e, failed) ↦ absurd (ground arith)
      | inr (inl unchanged) ↦ ([], unchanged)
      | inr (inr (b, path, found)) ↦ (b ∷ path, found)
    ]

    applied-Ends :
        (w : Worker) (l : ClaimedLease) (h : Host) (v : Call) (backend : List (List ℕ))
        → f v ≡ none
        → h.backend_args l.workspace_id ≡ arguments backend
        → Ends l w h (
            and_then
              (v ∷ [], none)
              (and_then (run_commands w l h (script backend)) (back_up_state w l h)))
    unfolding and_then
    applied-Ends w l h v backend quiet given =
        elim (and_then-cases (run_commands w l h (script backend)) (back_up_state w l h)) [
          | inl (e, failed) ↦ inr (
            backend,
            given,
            false,
            pick_quiet v _ quiet ∙ rw failed (sym (append-nil _)),
            λ done. absurd (ground arith),
          )
          | inr (ran, all_done) ↦ inr (
            backend,
            given,
            true,
            pick_quiet v _ quiet ∙ rw (all_done, pick-append, pick-back_up_state w l h) refl,
            λ done. (refl, ran, backed_up w l h (rw all_done at done)),
          )
        ]

    -- An end before any command.
    early : (l : ClaimedLease) (w : Worker) (h : Host) (e : List ℕ) → Ends l w h ([], some e)
    unfolding pick
    early l w h e = inl (e, refl, refl)

    by_result :
        (l : ClaimedLease) (w : Worker) (h : Host)
        (result same_result : List Call × Option (List ℕ))
        → result ≡ same_result
        → Ends l w h same_result
        → Ends l w h result
    by_result l w h result same_result e ends = subst (Ends l w h) (sym e) ends

    apply_template-Ends :
        (quote : List ℕ → List ℕ) (w : Worker) (l : ClaimedLease) (h : Host)
        → Ends l w h (apply_template quote w l h)
    unfolding apply_template
    apply_template-Ends quote w l h = elim (Backend-cases (h.backend_args l.workspace_id)) [
      | inl (e, failed) ↦
          by_result l w h _ ([], some e) (rw (failed, apply_template) refl) (early l w h e)
      | inr (backend, given) ↦ elim (Option-cases h.writes) [
        | inl written ↦
            by_result l w h _
              (and_then (write_variables (variables_of quote w l) ∷ [], none)
                (and_then (run_commands w l h (script backend)) (back_up_state w l h)))
              (ground (arith, given, written))
              (applied-Ends w l h (write_variables (variables_of quote w l)) backend
                (silent.writes w l quote) given)
        | inr (e, failed) ↦
            by_result l w h _ ([], some e) (rw (given, failed, apply_template) refl) (early l w h e)
      ]
    ]

    after_copy :
        (w : Worker) (l : ClaimedLease) (h : Host) (copied applied : List Call × Option (List ℕ))
        → pick f copied.0 ≡ []
        → Ends l w h applied
        → Ends l w h (and_then copied applied)
    after_copy w l h copied applied nothing ends = elim (and_then-cases copied applied) [
      | inl (e, failed) ↦ rw failed (inl (e, nothing, refl))
      | inr (fine, next) ↦ rw (next, pick-append, nothing) ends
    ]

    pub execute-Ends :
        (quote : List ℕ → List ℕ) (w : Worker) (l : ClaimedLease) (h : Host)
        → Ends l w h (execute quote w l h)
    unfolding execute
    execute-Ends quote w l h = elim (Option-cases h.makes_directory) [
      | inr (e, failed) ↦ by_result l w h _ ([], some e) (rw (failed, execute) refl) (early l w h e)
      | inl made ↦ elim (Bool-cases (same (find_dir l.template_name w.template_dirs) [])) [
        | inl unknown ↦
            by_result l w h _
              ([], some (bytes "worker does not have template " ++ quote l.template_name))
              (rw (made, unknown, execute) refl) (early l w h _)
        | inr known ↦
            by_result l w h _
              (and_then (copy_template (h.read_dir (find_dir l.template_name w.template_dirs)))
                (apply_template quote w l h))
              (ground (arith, made, known))
              (after_copy w l h _ _
                (pick-copy_template (h.read_dir (find_dir l.template_name w.template_dirs)))
                (apply_template-Ends quote w l h))
      ]
    ]

    -- A round picks what its execution does, and the completion at its end.
    pub pick-work :
        (quote : List ℕ → List ℕ) (w : Worker) (l : ClaimedLease) (h : Host)
        → pick f (work quote w l h)
          ≡ pick f (execute quote w l h).0 ++ maybe_cons (f (complete (execute quote w l h).1)) []
    unfolding work pick
    pick-work quote w l h =
        pick_quiet _ _ (silent.logs _ _)
        ∙ rw (pick-append, pick-append, pick-log_failure, append-nil) refl
