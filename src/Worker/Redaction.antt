-- ===== src/Worker/Redaction.antt =====
-- internal/provisioner/worker.go: what is left of a secret in the logs that the worker sends.
use quickworks.Base.{
  ℕ, zero, suc, ◌-◌, ◌≡◌, ◌≢◌, refl, true, false, List, [], ◌∷◌, ◌++◌, any, length, arith,
  Bool-cases, inl, inr,
}
use quickworks.Text.{bytes, same, has_prefix, contains, contains_text}
use quickworks.Text.Laws.{same-eq}
use quickworks.Worker.{ClaimedLease, Worker, redacted, replace_from, redact_all, redact, secrets_of}

-- A secret with something to it: no bracket, and no part of the word in the brackets.
pub record IsOpaque (secret : List ℕ) : Type 0 where
  pub nonempty : secret ≢ []
  pub no_open : contains b'[' secret ≡ false
  pub no_close : contains b']' secret ≡ false
  pub no_word : contains_text secret (bytes "REDACTED") ≡ false

-- A prefix without the separator ends before it.
has_prefix-apart :
    (c : ℕ) (p a b : List ℕ)
    → contains c p ≡ false
    → has_prefix p (a ++ c ∷ b) ≡ true
    → has_prefix p a ≡ true
unfolding has_prefix contains
has_prefix-apart c [] a b apart h = refl
has_prefix-apart c (x ∷ p) [] b apart h = absurd (ground arith)
has_prefix-apart c (x ∷ p) (y ∷ a) b apart h = ground (arith, has_prefix-apart c p a b)

-- A part without the separator stands on one of its sides.
contains_text-apart :
    (c : ℕ) (p a b : List ℕ)
    → p ≢ []
    → contains c p ≡ false
    → contains_text p a ≡ false
    → contains_text p b ≡ false
    → contains_text p (a ++ c ∷ b) ≡ false
unfolding contains_text
contains_text-apart c p [] b named apart left right = ground (arith, has_prefix-apart c p [] b)
contains_text-apart c p (y ∷ a) b named apart left right =
    ground (arith, has_prefix-apart c p (y ∷ a) b, contains_text-apart c p a b)

contains_text-nothing : (p : List ℕ) → p ≢ [] → contains_text p [] ≡ false
unfolding contains_text has_prefix
contains_text-nothing [] named = absurd (named refl)
contains_text-nothing (x ∷ p) named = refl

-- A redaction adds no secret.
contains_text-redacted :
    (p b : List ℕ)
    → IsOpaque p
    → contains_text p b ≡ false
    → contains_text p (redacted ++ b) ≡ false
contains_text-redacted p b opaque h =
    contains_text-apart b'[' p [] (bytes "REDACTED]" ++ b) opaque.nonempty opaque.no_open
      (contains_text-nothing p opaque.nonempty)
      (contains_text-apart b']' p (bytes "REDACTED") b opaque.nonempty opaque.no_close
        opaque.no_word h)

-- What the redacted text begins with, the text itself did.
has_prefix-replace :
    (p old m : List ℕ)
    → contains b'[' p ≡ false
    → has_prefix p (replace_from old 0 m) ≡ true
    → has_prefix p m ≡ true
unfolding has_prefix contains replace_from
has_prefix-replace [] old m apart h = refl
has_prefix-replace (x ∷ p) old [] apart h = h
has_prefix-replace (x ∷ p) old (b ∷ m) apart h = elim (Bool-cases (has_prefix old (b ∷ m))) [
  | inl found ↦ absurd (ground arith)
  | inr absent ↦ ground (arith, has_prefix-replace p old m)
]

unreplaced :
    (old : List ℕ) (b : ℕ) (m : List ℕ)
    → has_prefix old (b ∷ m) ≡ false
    → replace_from old 0 (b ∷ m) ≡ b ∷ replace_from old 0 m
unfolding replace_from
unreplaced old b m absent = rw (absent, replace_from) refl

-- A byte that is kept begins no secret that did not begin there.
kept_byte :
    (p old : List ℕ) (b : ℕ) (m : List ℕ)
    → contains b'[' p ≡ false
    → has_prefix old (b ∷ m) ≡ false
    → has_prefix p (b ∷ m) ≡ false
    → contains_text p (replace_from old 0 m) ≡ false
    → contains_text p (replace_from old 0 (b ∷ m)) ≡ false
unfolding contains_text
kept_byte p old b m apart absent head tail =
    let kept = unreplaced old b m absent in
    elim (Bool-cases (has_prefix p (b ∷ replace_from old 0 m))) [
      | inl begins ↦
          absurd (ground (arith, has_prefix-replace p old (b ∷ m) apart (rw kept begins)))
      | inr not_there ↦ rw (kept, contains_text) (ground arith)
    ]

-- The replacement of any text brings no opaque secret in.
contains_text-replace :
    (p old : List ℕ) (k : ℕ) (m : List ℕ)
    → IsOpaque p
    → contains_text p m ≡ false
    → contains_text p (replace_from old k m) ≡ false
unfolding contains_text replace_from
contains_text-replace p old k [] opaque h = h
contains_text-replace p old (suc k) (b ∷ m) opaque h =
    contains_text-replace p old k m opaque (ground arith)
contains_text-replace p old zero (b ∷ m) opaque h = elim (Bool-cases (has_prefix old (b ∷ m))) [
  | inl found ↦
      rw (found, replace_from)
        (contains_text-redacted p _ opaque
          (contains_text-replace p old (length old - 1) m opaque (ground arith)))
  | inr absent ↦
      kept_byte p old b m opaque.no_open absent (ground arith)
        (contains_text-replace p old 0 m opaque (ground arith))
]

-- The replacement of an opaque secret leaves none of it.
replace_from-hides :
    (old : List ℕ) (k : ℕ) (m : List ℕ)
    → IsOpaque old
    → contains_text old (replace_from old k m) ≡ false
unfolding contains_text replace_from
replace_from-hides old k [] opaque = contains_text-nothing old opaque.nonempty
replace_from-hides old (suc k) (b ∷ m) opaque = replace_from-hides old k m opaque
replace_from-hides old zero (b ∷ m) opaque = elim (Bool-cases (has_prefix old (b ∷ m))) [
  | inl found ↦
      rw (found, replace_from)
        (contains_text-redacted old _ opaque (replace_from-hides old (length old - 1) m opaque))
  | inr absent ↦
      kept_byte old old b m opaque.no_open absent absent (replace_from-hides old 0 m opaque)
]

redact_all-keeps :
    (p : List ℕ) (secrets : List (List ℕ)) (m : List ℕ)
    → IsOpaque p
    → contains_text p m ≡ false
    → contains_text p (redact_all secrets m) ≡ false
unfolding redact_all
redact_all-keeps p [] m opaque h = h
redact_all-keeps p ([] ∷ secrets) m opaque h = redact_all-keeps p secrets m opaque h
redact_all-keeps p ((b ∷ s) ∷ secrets) m opaque h =
    redact_all-keeps p secrets _ opaque (contains_text-replace p (b ∷ s) 0 m opaque h)

redact_all-hides :
    (p : List ℕ) (secrets : List (List ℕ)) (m : List ℕ)
    → IsOpaque p
    → any (same p) secrets ≡ true
    → contains_text p (redact_all secrets m) ≡ false
unfolding redact_all same
redact_all-hides p [] m opaque among = absurd (ground arith)
redact_all-hides [] ([] ∷ secrets) m opaque among = absurd (opaque.nonempty refl)
redact_all-hides (x ∷ p) ([] ∷ secrets) m opaque among =
    redact_all-hides (x ∷ p) secrets m opaque (ground arith)
redact_all-hides p ((b ∷ s) ∷ secrets) m opaque among = elim (Bool-cases (same p (b ∷ s))) [
  | inl this ↦ redact_all-keeps p secrets _ opaque (
      rw (same-eq p (b ∷ s) this)
        (replace_from-hides (b ∷ s) 0 m (rw (same-eq p (b ∷ s) this) at opaque)))
  | inr other ↦ redact_all-hides p secrets _ opaque (ground arith)
]

-- A message to be logged holds none of the worker's token, the lease ID and the agent's token any
-- more, as long as that secret is not empty, has no square bracket and is no part of the word
-- REDACTED; the order of the replacements does not matter.
pub redact-hides :
    (w : Worker) (l : ClaimedLease) (message secret : List ℕ)
    → any (same secret) (secrets_of w l) ≡ true
    → IsOpaque secret
    → contains_text secret (redact w l message) ≡ false
unfolding redact
redact-hides w l message secret among opaque =
    redact_all-hides secret (secrets_of w l) message opaque among
