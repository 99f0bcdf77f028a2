-- ===== src/Auth/Consumed.antt =====
-- internal/server/auth/auth.go: a stored token comes back, and a clone credential comes back once.
use quickworks.Base.{
  ℕ, ◌+◌, ◌*◌, ◌<◌, ◌≡◌, ◌≢◌, refl, ap, ◌∙◌, String, Bool, true, false, not, ◌&&◌, none, some, List,
  [], ◌∷◌, ◌==◌, arith, eq_iff, eq_refl, ltb, nat_eq, length, Bool-cases, Option-cases, inl, inr,
}
use quickworks.Results.{ok}
use quickworks.Table.{count, first, delete, insert}
use quickworks.Table.Counts.{first-none, count-insert, first_holds, count-false}
use quickworks.Table.Keys.{first-insert, count-zero_mono}
use quickworks.Table.Changes.{count-select, first-update, changed}
use quickworks.Auth.Credentials.{
  Box, GithubCredential, CloneRow, CloneCredential, Vault, no_credential, is_unused, usable_at,
  github_credential, store_credential, decrypted, github_token, clone_row, create_clone_credential,
  add_clone, revealed, consume_clone_credential,
}

count-delete {ℓ} :
    {A : Type ℓ} (p q : A → Bool) (xs : List A)
    → ((x : A) → (not (p x) && q x) ≡ false)
    → count q (delete p xs) ≡ 0
unfolding delete
count-delete p q xs none_left =
    count-select q (λ x. not (p x)) xs ∙ count-false (λ x. not (p x) && q x) xs none_left

count-first {ℓ} :
    {A : Type ℓ} (p : A → Bool) (xs : List A) → 0 < count p xs → (x : A) × (first p xs ≡ some x)
unfolding count first
count-first p [] some_row = absurd (omega arith)
count-first p (x ∷ xs) some_row = elim (Bool-cases (p x)) [
  | inl holds ↦ (x, rw holds refl)
  | inr fails ↦ let (y, found) = count-first p xs (rw fails at some_row) in (y, rw fails found)
]

module _ (box : Box) where
  consume-nothing :
      (now : ℕ) (workspace_id build_id : String) (v : Vault)
      → first (usable_at now workspace_id build_id) v.clone_credentials ≡ none
      → (consume_clone_credential box now workspace_id build_id v).0 ≡ ok no_credential
  unfolding consume_clone_credential
  consume-nothing now workspace_id build_id v nothing = rw (nothing, consume_clone_credential) refl

  -- A credential is only handed out once its row is deleted.
  consume-deletes :
      (now : ℕ) (workspace_id build_id : String) (v : Vault) (c : CloneCredential)
      → (consume_clone_credential box now workspace_id build_id v).0 ≡ ok c
      → c.repository_url ≢ ""
      → (consume_clone_credential box now workspace_id build_id v).1 ≡ record v {
        clone_credentials = delete (is_unused workspace_id build_id) v.clone_credentials;
      }
  unfolding consume_clone_credential
  consume-deletes now workspace_id build_id v c h named =
      elim (Option-cases (first (usable_at now workspace_id build_id) v.clone_credentials)) [
        | inl nothing ↦ absurd (empty (rw (nothing, consume_clone_credential) at h))
        | inr (row, found) ↦ elim (Bool-cases (row.repository_url == "")) [
          | inl blank ↦ absurd (empty (rw blank at (rw (found, consume_clone_credential) at h)))
          | inr filled ↦
              elim (Bool-cases
                (nat_eq (count (is_unused workspace_id build_id) v.clone_credentials) 1)) [
                  | inl one ↦ rw (found, consume_clone_credential) (rw filled (rw one refl))
                  | inr other ↦ absurd (
                      empty
                        (rw other at (rw filled at (rw (found, consume_clone_credential) at h))))
                ]
        ]
      ]
    where
      empty : ok no_credential ≡ ok c → ⊥
      empty e = named cc

  consume-row :
      (now : ℕ) (workspace_id build_id : String) (v : Vault) (row : CloneRow)
      → first (usable_at now workspace_id build_id) v.clone_credentials ≡ some row
      → row.repository_url ≢ ""
      → count (is_unused workspace_id build_id) v.clone_credentials ≡ 1
      → (consume_clone_credential box now workspace_id build_id v).0 ≡ revealed box row
  unfolding consume_clone_credential
  consume-row now workspace_id build_id v row found named one =
      ground (arith, eq_iff row.repository_url "")

  revealed-sealed :
      (nonce : List ℕ) (now : ℕ) (id workspace_id build_id : String) (user_id : ℕ)
      (repository_url token : String)
      → length nonce ≡ box.nonce_size
      → revealed box (clone_row box nonce now id workspace_id build_id user_id repository_url token)
        ≡ ok (record { repository_url = repository_url; token = token })
  unfolding revealed clone_row decrypted
  revealed-sealed nonce now id workspace_id build_id user_id repository_url token sized =
      ground (arith, box.unseal-seal nonce token user_id)

  -- Once a clone credential was handed out, every later reading for the same workspace and build
  -- gets none.
  pub consume_once :
      (now later : ℕ) (workspace_id build_id : String) (v : Vault) (c : CloneCredential)
      → (consume_clone_credential box now workspace_id build_id v).0 ≡ ok c
      → c.repository_url ≢ ""
      → (consume_clone_credential box later workspace_id build_id
          (consume_clone_credential box now workspace_id build_id v).1).0
        ≡ ok no_credential
  consume_once now later workspace_id build_id v c h named =
      rw (consume-deletes now workspace_id build_id v c h named) (
        consume-nothing later workspace_id build_id emptied (
          first-none (usable_at later workspace_id build_id) emptied.clone_credentials (
            count-delete (is_unused workspace_id build_id) (usable_at later workspace_id build_id)
              v.clone_credentials (λ x. ground arith))))
    where
      emptied : Vault
      emptied = record v {
        clone_credentials = delete (is_unused workspace_id build_id) v.clone_credentials;
      }

  -- If the user has a token, the build has no clone credential so far and the nonce has the right
  -- size, then for fifteen minutes after a credential was created for the build its reading gives
  -- the repository's non-empty URL and the user's token.
  pub clone_credential_roundtrip :
      (nonce : List ℕ) (now later : ℕ) (id workspace_id build_id : String) (user_id : ℕ)
      (repository_url token : String) (v v' : Vault)
      → create_clone_credential box nonce now id workspace_id build_id user_id repository_url v
        ≡ ok v'
      → github_token box user_id v ≡ ok token
      → count (λ c. c.build_id == build_id) v.clone_credentials ≡ 0
      → length nonce ≡ box.nonce_size
      → repository_url ≢ ""
      → later < now + 15 * 60
      → (consume_clone_credential box later workspace_id build_id v').0
        ≡ ok (record { repository_url = repository_url; token = token })
  clone_credential_roundtrip nonce now later id workspace_id build_id user_id repository_url token v
        v' h stored free sized named early =
      rw added (
        consume-row later workspace_id build_id after row
          (unfold clone_row in
            (first-insert (usable_at later workspace_id build_id) row v.clone_credentials
              unused_here (ground (arith, eq_refl workspace_id, eq_refl build_id))))
          (unfold clone_row in named)
          (unfold clone_row in
            (ground (
              arith,
              count-insert (is_unused workspace_id build_id) row v.clone_credentials,
              eq_refl workspace_id,
              eq_refl build_id,
              free_here,
            )))
        ∙ revealed-sealed nonce now id workspace_id build_id user_id repository_url token sized)
    where
      row : CloneRow
      row = clone_row box nonce now id workspace_id build_id user_id repository_url token

      free_here : count (is_unused workspace_id build_id) v.clone_credentials ≡ 0
      free_here =
          count-zero_mono _ (λ c. c.build_id == build_id) v.clone_credentials (λ c. ground arith)
            free

      unused_here : count (usable_at later workspace_id build_id) v.clone_credentials ≡ 0
      unused_here =
          count-zero_mono _ (λ c. c.build_id == build_id) v.clone_credentials (λ c. ground arith)
            free

      after : Vault
      after = record v { clone_credentials = insert row v.clone_credentials }

      added : v' ≡ after
      added = unfold create_clone_credential add_clone clone_row in (ground (arith, stored, free))

  sealed-github_token :
      (nonce : List ℕ) (now user_id : ℕ) (token : String) (v : Vault)
      → length nonce ≡ box.nonce_size
      → first (λ y. nat_eq y.user_id user_id) v.github_credentials
        ≡ some (github_credential box nonce user_id token now)
      → github_token box user_id v ≡ ok token
  unfolding github_token github_credential decrypted
  sealed-github_token nonce now user_id token v sized found =
      ground (arith, box.unseal-seal nonce token user_id)

  -- A token that is stored for a user, new or again, under a nonce of the right size is the token
  -- that is read for the user.
  pub store-github_token :
      (nonce : List ℕ) (now user_id : ℕ) (token : String) (v : Vault)
      → length nonce ≡ box.nonce_size
      → github_token box user_id (store_credential box nonce now user_id token v) ≡ ok token
  store-github_token nonce now user_id token v sized =
      sealed-github_token nonce now user_id token (store_credential box nonce now user_id token v)
        sized
        (elim (Bool-cases (ltb 0 (count mine v.github_credentials))) [
          | inl known ↦
              let (x, found) = count-first mine v.github_credentials (ground arith) in
              unfold store_credential github_credential in
              (rw known (
                first-update mine mine (λ y. fresh) v.github_credentials x (λ y. ground arith) found
                ∙ ap some (changed-fresh x (first_holds mine v.github_credentials x found))))
          | inr new ↦
              unfold store_credential github_credential in
              (rw new (first-insert mine fresh v.github_credentials (ground arith) (ground arith)))
        ])
    where
      mine : GithubCredential → Bool
      mine y = nat_eq y.user_id user_id

      fresh : GithubCredential
      fresh = github_credential box nonce user_id token now

      changed-fresh : (x : GithubCredential) → mine x ≡ true → changed mine (λ y. fresh) x ≡ fresh
      changed-fresh x h = rw h refl
