-- ===== src/Auth/Credentials.antt =====
-- internal/server/auth/auth.go: GitHub tokens and one-time clone credentials, stored encrypted.
use quickworks.Base.{
  ℕ, ◌+◌, ◌*◌, ◌≡◌, String, Bool, ◌&&◌, Option, none, some, List, ◌==◌, if◌then◌else◌, ltb, nat_eq,
  length, is_none,
}
use quickworks.Results.{Result, ok, err, credential_missing, credential_corrupt, ◌>>=◌}
use quickworks.Table.{count, first, update, delete, insert}

-- AES-GCM: the associated data are the decimal digits of the user's ID.
pub record Box : Type 0 where
  pub nonce_size : ℕ
  pub seal : List ℕ → String → ℕ → String
  pub unseal : List ℕ → String → ℕ → Option String
  pub unseal-seal :
      (nonce : List ℕ) (token : String) (user_id : ℕ)
      → unseal nonce (seal nonce token user_id) user_id ≡ some token

pub record GithubCredential : Type 0 where
  pub user_id : ℕ
  pub ciphertext : String
  pub nonce : List ℕ
  pub updated_at : ℕ

pub record CloneRow : Type 0 where
  pub id : String
  pub workspace_id : String
  pub build_id : String
  pub user_id : ℕ
  pub repository_url : String
  pub ciphertext : String
  pub nonce : List ℕ
  pub expires_at : ℕ
  pub consumed_at : Option ℕ

pub record CloneCredential : Type 0 where
  pub repository_url : String
  pub token : String

-- The tables github_credentials and clone_credentials.
pub record Vault : Type 0 where
  pub github_credentials : List GithubCredential
  pub clone_credentials : List CloneRow

abbrev pub no_credential : CloneCredential
no_credential = record { repository_url = ""; token = "" }

-- workspace_id = ? AND build_id = ? AND consumed_at IS NULL
abbrev pub is_unused : String → String → CloneRow → Bool
is_unused workspace_id build_id c =
    (c.workspace_id == workspace_id) && ((c.build_id == build_id) && is_none c.consumed_at)

-- ... AND expires_at > ?
abbrev pub usable_at : ℕ → String → String → CloneRow → Bool
usable_at now workspace_id build_id c = is_unused workspace_id build_id c && ltb now c.expires_at

module _ (box : Box) where
  unfoldable pub github_credential : List ℕ → ℕ → String → ℕ → GithubCredential
  github_credential nonce user_id token now = record {
    user_id = user_id;
    ciphertext = box.seal nonce token user_id;
    nonce = nonce;
    updated_at = now;
  }

  -- storeCredential; `nonce` is what encryptToken draws.
  unfoldable pub store_credential : List ℕ → ℕ → ℕ → String → Vault → Vault
  store_credential nonce now user_id token v =
      let c = github_credential nonce user_id token now in
      record v {
        github_credentials =
            if ltb 0 (count (λ x. nat_eq x.user_id user_id) v.github_credentials)
            then update (λ x. nat_eq x.user_id user_id) (λ x. c) v.github_credentials
            else insert c v.github_credentials;
      }

  unfoldable pub decrypted : List ℕ → String → ℕ → Result String
  decrypted nonce ciphertext user_id = elim (box.unseal nonce ciphertext user_id) [
    | none ↦ err credential_corrupt
    | some token ↦ ok token
  ]

  -- GitHubToken; without a row the nonce is empty.
  unfoldable pub github_token : ℕ → Vault → Result String
  github_token user_id v = elim (first (λ x. nat_eq x.user_id user_id) v.github_credentials) [
    | none ↦
        if nat_eq 0 box.nonce_size then decrypted List.[] "" user_id else err credential_missing
    | some c ↦
        if nat_eq (length c.nonce) box.nonce_size
        then decrypted c.nonce c.ciphertext user_id
        else err credential_missing
  ]

  unfoldable pub clone_row : List ℕ → ℕ → String → String → String → ℕ → String → String → CloneRow
  clone_row nonce now id workspace_id build_id user_id repository_url token = record {
    id = id;
    workspace_id = workspace_id;
    build_id = build_id;
    user_id = user_id;
    repository_url = repository_url;
    ciphertext = box.seal nonce token user_id;
    nonce = nonce;
    expires_at = now + 15 * 60;
    consumed_at = none;
  }

  -- INSERT ... ON CONFLICT(build_id) DO NOTHING
  unfoldable pub add_clone : CloneRow → Vault → Vault
  add_clone row v =
      if ltb 0 (count (λ c. c.build_id == row.build_id) v.clone_credentials)
      then v
      else record v { clone_credentials = insert row v.clone_credentials }

  -- CreateCloneCredential
  unfoldable pub create_clone_credential :
      List ℕ → ℕ → String → String → String → ℕ → String → Vault → Result Vault
  create_clone_credential nonce now id workspace_id build_id user_id repository_url v = do
    token ← github_token user_id v
    ok (add_clone (clone_row nonce now id workspace_id build_id user_id repository_url token) v)

  -- What follows the transaction that took the row out.
  unfoldable pub revealed : CloneRow → Result CloneCredential
  revealed c =
      if nat_eq (length c.nonce) box.nonce_size
      then (decrypted c.nonce c.ciphertext c.user_id
          >>= (λ token. ok (record { repository_url = c.repository_url; token = token })))
      else err credential_corrupt

  -- ConsumeCloneCredential: the row is gone before it is decrypted.
  unfoldable pub consume_clone_credential :
      ℕ → String → String → Vault → Result CloneCredential × Vault
  consume_clone_credential now workspace_id build_id v =
      elim (first (usable_at now workspace_id build_id) v.clone_credentials) [
        | none ↦ (ok no_credential, v)
        | some c ↦
            if c.repository_url == ""
            then (ok no_credential, v)
            else (if nat_eq (count (is_unused workspace_id build_id) v.clone_credentials) 1
                then (
                  revealed c,
                  record v {
                    clone_credentials =
                        delete (is_unused workspace_id build_id) v.clone_credentials;
                  },
                )
                else (ok no_credential, v))
      ]
