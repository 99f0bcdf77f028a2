-- ===== src/Identity/Kept.antt =====
-- internal/agent/identity.go: an identity that was made is kept, and the call ends.
use quickworks.Base.{
  ℕ, ◌≡◌, ◌≢◌, refl, true, some, List, [], ◌∷◌, All, length, arith, Option-cases, inl, inr, ◌⊎◌,
}
use quickworks.Identity.{
  KeyFile, absent, unreadable, stored, FileCalls, Loaded, failed, identity, repeated,
  private_key_size, read_identity, write_identity, create_identity, load_once,
  load_or_create_identity,
}

-- ed25519.GenerateKey gives keys of 64 bytes.
abbrev pub IsKeyed : FileCalls → Type 0
IsKeyed a = (key : List ℕ) → a.generated ≡ some key → length key ≡ private_key_size

-- A file that another process makes is there.
abbrev pub IsMade : FileCalls → Type 0
IsMade a = a.appeared ≢ some absent

Loaded-cases :
    (r : Loaded) → (r ≡ failed) ⊎ ((r ≡ repeated) ⊎ ((key : List ℕ) × (r ≡ identity key)))
Loaded-cases failed = inl refl
Loaded-cases repeated = inr (inl refl)
Loaded-cases (identity key) = inr (inr (key, refl))

load_once-identity :
    (a : FileCalls) (file file' : KeyFile) (key : List ℕ)
    → IsKeyed a
    → load_once a file ≡ (identity key, file')
    → (file' ≡ stored key 384) × (length key ≡ private_key_size)
unfolding load_once read_identity create_identity write_identity
load_once-identity a unreadable file' key keyed h = absurd (ground arith)
load_once-identity a (stored k permissions) file' key keyed h = ground arith
load_once-identity a absent file' key keyed h = elim (Option-cases a.generated) [
  | inl none_made ↦ absurd (ground arith)
  | inr (k, made) ↦ ground (arith, keyed k made)
]

loads :
    (a : FileCalls) (attempts : List FileCalls) (key : List ℕ)
    → a.makes_directory ≡ true
    → a.stats ≡ true
    → length key ≡ private_key_size
    → load_or_create_identity (a ∷ attempts) (stored key 384) ≡ (identity key, stored key 384)
unfolding load_or_create_identity load_once read_identity
loads a attempts key made stats sized = ground arith

load_or_create_identity-stored :
    (attempts : List FileCalls) (file file' : KeyFile) (key : List ℕ)
    → All IsKeyed attempts
    → load_or_create_identity attempts file ≡ (identity key, file')
    → (file' ≡ stored key 384) × (length key ≡ private_key_size)
unfolding load_or_create_identity
load_or_create_identity-stored [] file file' key keyed h = absurd (ground arith)
load_or_create_identity-stored (a ∷ attempts) file file' key (this, others) h =
    elim (Loaded-cases (load_once a file).0) [
      | inl lost ↦ absurd (ground arith)
      | inr (inl again) ↦
          load_or_create_identity-stored attempts (load_once a file).1 file' key others
            (rw (again, load_or_create_identity) at h)
      | inr (inr (k, found)) ↦ load_once-identity a file file' key this (ground arith)
    ]

-- When LoadOrCreateIdentity has given an identity, made or read, a later call whose directory and
-- file can be looked at gives the same one and leaves the file as it is, if generated keys have 64
-- bytes.
pub identity_again :
    (attempts later : List FileCalls) (a : FileCalls) (file file' : KeyFile) (key : List ℕ)
    → All IsKeyed attempts
    → load_or_create_identity attempts file ≡ (identity key, file')
    → a.makes_directory ≡ true
    → a.stats ≡ true
    → load_or_create_identity (a ∷ later) file' ≡ (identity key, file')
identity_again attempts later a file file' key keyed h made stats =
    let (is_stored, sized) = load_or_create_identity-stored attempts file file' key keyed h in
    rw is_stored (loads a later key made stats sized)

load_once_ends : (a : FileCalls) (file : KeyFile) → file ≢ absent → (load_once a file).0 ≢ repeated
unfolding load_once read_identity
load_once_ends a absent there = absurd (there refl)
load_once_ends a unreadable there = λ e. ground arith
load_once_ends a (stored k p) there = λ e. ground arith

-- A call that calls itself left a file.
load_once_made :
    (a : FileCalls) (file : KeyFile)
    → IsMade a
    → (load_once a file).0 ≡ repeated
    → (load_once a file).1 ≢ absent
unfolding load_once read_identity create_identity write_identity
load_once_made a unreadable made h = absurd (ground arith)
load_once_made a (stored k p) made h = absurd (ground arith)
load_once_made a absent made h = λ gone. elim (Option-cases a.generated) [
  | inl nothing ↦ ground arith
  | inr (k, found) ↦ elim (Option-cases a.appeared) [
    | inl alone ↦ ground arith
    | inr (f, appeared) ↦ made (ground arith)
  ]
]

-- LoadOrCreateIdentity calls itself at most once, whatever the file and its calls come to, if a
-- file that another process has made is still there.
pub load_or_create_identity_ends :
    (a b : FileCalls) (attempts : List FileCalls) (file : KeyFile)
    → IsMade a
    → (load_or_create_identity (a ∷ b ∷ attempts) file).0 ≢ repeated
unfolding load_or_create_identity
load_or_create_identity_ends a b attempts file made e = elim (Loaded-cases (load_once a file).0) [
  | inl lost ↦ ground arith
  | inr (inr (k, found)) ↦ ground arith
  | inr (inl again) ↦
      let ends = load_once_ends b (load_once a file).1 (load_once_made a file made again) in
      elim (Loaded-cases (load_once b (load_once a file).1).0) [
        | inl lost ↦ ground arith
        | inr (inl repeats) ↦ ends repeats
        | inr (inr (k, found)) ↦ ground arith
      ]
]
