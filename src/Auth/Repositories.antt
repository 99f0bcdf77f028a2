-- ===== src/Auth/Repositories.antt =====
-- internal/server/auth/auth.go: Repository, the lookup of a repository with the user's own token. `escape`
-- stands for url.PathEscape and `origin` for url.Parse, up to the scheme and host.
use quickworks.Base.{
  ℕ, ◌<◌, ◌≡◌, refl, ap, String, Bool, true, false, not, ◌&&◌, ◌||◌, Option, none, some, List, [],
  ◌∷◌, ◌++◌, ◌==◌, if◌then◌else◌, leb, nat_eq, length, all, ℤ, is_positive, arith, Bool-cases, ◌≢◌,
  pos, negsuc, Option-cases, eq_iff, inl, inr,
}
use quickworks.Results.{ok, err, credential_missing, Result-cases}
use quickworks.Table.{first, delete, select}
use quickworks.Text.{bytes, contains}
use quickworks.Auth.Credentials.{Box, Vault, github_token}

abbrev pub is_letter_or_digit : ℕ → Bool
is_letter_or_digit c =
    (leb b'A' c && leb c b'Z') || ((leb b'a' c && leb c b'z') || (leb b'0' c && leb c b'9'))

abbrev pub is_name_byte : ℕ → Bool
is_name_byte c = is_letter_or_digit c || (nat_eq c b'.' || (nat_eq c b'_' || nat_eq c b'-'))

abbrev pub ends_well : List ℕ → Bool
ends_well [] = false
ends_well (c ∷ []) = is_letter_or_digit c
ends_well (c ∷ d ∷ rest) = ends_well (d ∷ rest)

-- githubName
unfoldable pub github_name : List ℕ → Bool
github_name [] = false
github_name (c ∷ rest) =
    is_letter_or_digit c
    && (all is_name_byte rest && (ends_well (c ∷ rest) && leb (length rest) 99))

pub record Metadata : Type 0 where
  pub id : ℤ
  pub full_name : String
  pub clone_url : String
  pub default_branch : String
  pub private : Bool

pub data Reply : Type 0 where
  failed : Reply
  replied : ℕ → Option Metadata → Reply

unfoldable pub is_canonical : (String → Option (String × String)) → Metadata → Bool
is_canonical origin m = elim (origin m.clone_url) [
  | none ↦ false
  | some (scheme, host) ↦
      (scheme == "https")
      && ((host == "github.com")
          && (is_positive m.id && (not (m.full_name == "") && not (m.default_branch == ""))))
]

unfoldable pub endpoint : (List ℕ → List ℕ) → List ℕ → List ℕ → List ℕ
endpoint escape owner name =
    bytes "https://api.github.com/repos/" ++ (escape owner ++ (b'/' ∷ escape name))

-- DELETE FROM github_credentials WHERE user_id = ?
unfoldable pub forget_credential : ℕ → Vault → Vault
forget_credential user_id v = record v {
  github_credentials = delete (λ c. nat_eq c.user_id user_id) v.github_credentials;
}

-- Repository, once GitHub has replied
unfoldable pub answer_repository :
    (String → Option (String × String)) → ℕ → Reply → Vault → Option Metadata × Vault
answer_repository origin user_id failed v = (none, v)
answer_repository origin user_id (replied status body) v =
    if nat_eq status 401
    then (none, forget_credential user_id v)
    else (if not (nat_eq status 200) then (none, v) else elim body [
      | none ↦ (none, v)
      | some m ↦ (if is_canonical origin m then some m else none, v)
    ])

-- A repository that is accepted was in a good answer, and the credentials stay.
answer_repository-some :
    (origin : String → Option (String × String)) (user_id : ℕ) (answer : Reply) (v v' : Vault)
    (m : Metadata)
    → answer_repository origin user_id answer v ≡ (some m, v')
    → (answer ≡ replied 200 (some m)) × (is_canonical origin m ≡ true) × (v' ≡ v)
unfolding answer_repository
answer_repository-some origin user_id failed v v' m h = absurd (ground arith)
answer_repository-some origin user_id (replied status none) v v' m h = absurd (ground arith)
answer_repository-some origin user_id (replied status (some n)) v v' m h =
    elim (Bool-cases (nat_eq status 401)) [
      | inl expired ↦ absurd (ground arith)
      | inr other ↦ elim (Bool-cases (nat_eq status 200)) [
        | inr bad ↦ absurd (ground arith)
        | inl fine ↦ elim (Bool-cases (is_canonical origin n)) [
          | inr foreign ↦ absurd (ground arith)
          | inl canonical ↦
              let same_m : n ≡ m = ground arith in
              let is_200 : status ≡ 200 = ground arith in
              (rw (same_m, is_200) refl, (rw same_m at canonical), ground arith)
        ]
      ]
    ]

-- What is known of the metadata of an accepted repository.
pub record IsCanonical (origin : String → Option (String × String)) (m : Metadata) : Type 0 where
  pub at_github : origin m.clone_url ≡ some ("https", "github.com")
  pub numbered : (n : ℕ) × (m.id ≡ pos n) × (0 < n)
  pub named : m.full_name ≢ ""
  pub on_branch : m.default_branch ≢ ""

numbered : (i : ℤ) → is_positive i ≡ true → (n : ℕ) × (i ≡ pos n) × (0 < n)
numbered (pos n) h = (n, refl, ground arith)
numbered (negsuc n) h = absurd (ground arith)

is_canonical-IsCanonical :
    (origin : String → Option (String × String)) (m : Metadata)
    → is_canonical origin m ≡ true
    → IsCanonical origin m
unfolding is_canonical
is_canonical-IsCanonical origin m h = elim (Option-cases (origin m.clone_url)) [
  | inl unparsed ↦ absurd (ground arith)
  | inr ((scheme, host), parsed) ↦
      let https : scheme ≡ "https" = ground (arith, eq_iff scheme "https") in
      let github : host ≡ "github.com" = ground (arith, eq_iff host "github.com") in
      record {
        at_github = rw (parsed, https, github) refl;
        numbered = numbered m.id (ground arith);
        named = λ e. ground (arith, eq_iff m.full_name "");
        on_branch = λ e. ground (arith, eq_iff m.default_branch "");
      }
]

name_bytes-plain : (s : List ℕ) → all is_name_byte s ≡ true → contains b'/' s ≡ false
unfolding contains
name_bytes-plain [] h = refl
name_bytes-plain (c ∷ s) h = ground (arith, name_bytes-plain s)

github_name-plain : (s : List ℕ) → github_name s ≡ true → contains b'/' s ≡ false
unfolding github_name contains
github_name-plain [] h = refl
github_name-plain (c ∷ s) h = ground (arith, name_bytes-plain s)

first-delete {ℓ} : {A : Type ℓ} (p : A → Bool) (xs : List A) → first p (delete p xs) ≡ none
unfolding first delete select
first-delete p [] = refl
first-delete p (x ∷ xs) = ground (arith, first-delete p xs)

module _ (box : Box) (escape : List ℕ → List ℕ) (origin : String → Option (String × String))
    (fetch : List ℕ → String → Reply) where
  -- Repository
  unfoldable pub repository : ℕ → List ℕ → List ℕ → Vault → Option Metadata × Vault
  repository user_id owner name v =
      if not (github_name owner) || not (github_name name)
      then (none, v)
      else elim (github_token box user_id v) [
        | err e ↦ (none, v)
        | ok token ↦ answer_repository origin user_id (fetch (endpoint escape owner name) token) v
      ]

  -- What GitHub said of a repository that is accepted.
  pub record IsFound (user_id : ℕ) (owner name : List ℕ) (v : Vault) (m : Metadata) : Type 0 where
    pub token : String
    pub own : github_token box user_id v ≡ ok token
    pub asked : fetch (endpoint escape owner name) token ≡ replied 200 (some m)
    pub canonical : IsCanonical origin m
    pub plain : (contains b'/' owner ≡ false) × (contains b'/' name ≡ false)

  -- If Repository gives a repository, then GitHub was asked with the user's own token and answered
  -- it with 200; the scheme and host of its clone URL are https and github.com, its ID is above 0,
  -- its full name and default branch are not empty, the owner and name asked for hold no slash, and
  -- the credentials are as they were.
  pub repository-IsFound :
      (user_id : ℕ) (owner name : List ℕ) (v v' : Vault) (m : Metadata)
      → repository user_id owner name v ≡ (some m, v')
      → IsFound user_id owner name v m × (v' ≡ v)
  unfolding repository answer_repository
  repository-IsFound user_id owner name v v' m h =
      elim (Bool-cases (not (github_name owner) || not (github_name name))) [
        | inl bad ↦ absurd (ground arith)
        | inr good ↦ elim (Result-cases (github_token box user_id v)) [
          | inr (e, missing) ↦ absurd (ground arith)
          | inl (token, own) ↦
              let (asked, canonical, kept) =
                answer_repository-some origin user_id (fetch (endpoint escape owner name) token) v
                  v' m (rw (good, own) at h) in
              (
                record {
                  token = token;
                  own = own;
                  asked = asked;
                  canonical = is_canonical-IsCanonical origin m canonical;
                  plain = (
                    github_name-plain owner (ground arith),
                    github_name-plain name (ground arith),
                  );
                },
                kept,
              )
        ]
      ]

  -- When GitHub answers a lookup of a well-formed name with 401, Repository fails and deletes the
  -- user's credential: GitHubToken finds none afterwards.
  pub repository_expired :
      (user_id : ℕ) (owner name : List ℕ) (v : Vault) (token : String) (body : Option Metadata)
      → github_name owner ≡ true
      → github_name name ≡ true
      → github_token box user_id v ≡ ok token
      → fetch (endpoint escape owner name) token ≡ replied 401 body
      → 0 < box.nonce_size
      → (repository user_id owner name v).0 ≡ none
        × (github_token box user_id (repository user_id owner name v).1 ≡ err credential_missing)
  unfolding repository answer_repository forget_credential github_token
  repository_expired user_id owner name v token body fine fine' own asked sealed =
      let forgotten : repository user_id owner name v ≡ (none, forget_credential user_id v) =
        rw (repository, fine, fine', own, asked) refl in
      (
        ap (λ p. p.0) forgotten,
        rw forgotten
            (ground (arith, first-delete (λ c. nat_eq c.user_id user_id) v.github_credentials)),
      )
