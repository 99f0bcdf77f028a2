-- ===== src/Worker/Completed.antt =====
-- internal/provisioner/worker.go: which commands a round runs, and with what it completes its build.
use mathlib.Core.List.{append-nil}
use quickworks.Base.{
  Bool, true, false, Option, some, map, ap, ◌++◌, ℕ, ◌≡◌, refl, ◌∙◌, ◌⊎◌, none, List, [], ◌∷◌,
  Option-cases, inl, inr,
}
use quickworks.Worker.{ClaimedLease, Worker, Host, arguments, Call, run, back_up}
use quickworks.Worker.Build.{run_command, run_commands, script, execute, work}
use quickworks.Worker.Order.{
  kept, pick, as_command, as_completion, up_to_failure, IsSilent, pick-append, pick-print,
  pick-work, execute-Ends,
}

as_command-IsSilent : IsSilent as_command
as_command-IsSilent = record { copies = λ n. refl; writes = λ w l q. refl; logs = λ a m. refl }

as_completion-IsSilent : IsSilent as_completion
as_completion-IsSilent = record { copies = λ n. refl; writes = λ w l q. refl; logs = λ a m. refl }

run_commands-picked {ℓ} :
    {A : Type ℓ} (f : Call → Option A) (g : List (List ℕ) → A)
    → IsSilent f
    → ((args : List (List ℕ)) → f (run args) ≡ some (g args))
    → (w : Worker) (l : ClaimedLease) (h : Host) (commands : List (List (List ℕ)))
    → pick f (run_commands w l h commands).0 ≡ map g (up_to_failure h commands)
unfolding run_commands run_command pick up_to_failure
run_commands-picked f g silent runs w l h [] = refl
run_commands-picked f g silent runs w l h (args ∷ commands) =
    elim (Option-cases (h.command args).failure) [
      | inl done ↦
          rw
            (
              done,
              run_commands,
              run_command,
              runs args,
              up_to_failure,
              pick-append f,
              pick-print f silent w l (h.command args).output,
              run_commands-picked f g silent runs w l h commands,
            )
            refl
      | inr (e, failed) ↦
          rw
            (
              failed,
              run_commands,
              run_command,
              runs args,
              up_to_failure,
              pick-print f silent w l (h.command args).output,
            )
            refl
    ]

map_same {ℓ} : {A : Type ℓ} (xs : List A) → map (λ x. x) xs ≡ xs
map_same [] = refl
map_same (x ∷ xs) = ap (λ ys. x ∷ ys) (map_same xs)

run_commands-commands :
    (w : Worker) (l : ClaimedLease) (h : Host) (commands : List (List (List ℕ)))
    → pick as_command (run_commands w l h commands).0 ≡ up_to_failure h commands
run_commands-commands w l h commands =
    run_commands-picked as_command (λ args. args) as_command-IsSilent (λ args. refl) w l h commands
    ∙ map_same _

run_commands-completions :
    (w : Worker) (l : ClaimedLease) (h : Host) (commands : List (List (List ℕ)))
    → pick as_completion (run_commands w l h commands).0 ≡ []
unfolding run_commands run_command pick
run_commands-completions w l h [] = refl
run_commands-completions w l h (args ∷ commands) = elim (Option-cases (h.command args).failure) [
  | inl done ↦
      rw
        (
          done,
          run_commands,
          run_command,
          pick-append as_completion,
          pick-print as_completion as_completion-IsSilent w l (h.command args).output,
          run_commands-completions w l h commands,
        )
        refl
  | inr (f, failed) ↦
      rw
        (
          failed,
          run_commands,
          run_command,
          pick-print as_completion as_completion-IsSilent w l (h.command args).output,
        )
        refl
]

-- A function that picks nothing of the backup.
unkept {ℓ} :
    {A : Type ℓ} (f : Call → Option A) (silent : IsSilent f)
    → f back_up ≡ none
    → (reached : Bool) (xs : List A) → xs ++ kept f silent reached ≡ xs
unkept f silent quiet true xs = rw quiet (append-nil xs)
unkept f silent quiet false xs = append-nil xs

module _ (quote : List ℕ → List ℕ) where
  work_commands :
      (w : Worker) (l : ClaimedLease) (h : Host)
      → pick as_command (work quote w l h) ≡ pick as_command (execute quote w l h).0
  work_commands w l h = pick-work as_command as_command-IsSilent quote w l h ∙ append-nil _

  -- Whatever fails, a round runs no command, or init, plan and apply up to the first that fails,
  -- that one included.
  pub work-up_to_failure :
      (w : Worker) (l : ClaimedLease) (h : Host)
      → (pick as_command (work quote w l h) ≡ [])
        ⊎ ((backend : List (List ℕ)) × (h.backend_args l.workspace_id ≡ arguments backend)
            × (pick as_command (work quote w l h) ≡ up_to_failure h (script backend)))
  work-up_to_failure w l h = elim (execute-Ends as_command as_command-IsSilent quote w l h) [
    | inl (e, nothing, failed) ↦ inl (work_commands w l h ∙ nothing)
    | inr (backend, given, reached, picked, rest) ↦ inr (
      backend,
      given,
      work_commands w l h
          ∙ picked
          ∙ unkept as_command as_command-IsSilent refl reached _
          ∙ run_commands-commands w l h (script backend),
    )
  ]

  -- A round on a lease completes its build exactly once, and with the error that its execution
  -- ended with, if any.
  pub work-completion :
      (w : Worker) (l : ClaimedLease) (h : Host)
      → pick as_completion (work quote w l h) ≡ (execute quote w l h).1 ∷ []
  work-completion w l h = elim (execute-Ends as_completion as_completion-IsSilent quote w l h) [
    | inl (e, nothing, failed) ↦
        pick-work as_completion as_completion-IsSilent quote w l h ∙ rw nothing refl
    | inr (backend, given, reached, picked, rest) ↦
        pick-work as_completion as_completion-IsSilent quote w l h
        ∙ rw
            (
              picked,
              unkept as_completion as_completion-IsSilent refl reached,
              run_commands-completions w l h (script backend),
            )
            refl
  ]
