-- ===== src/Results.antt =====
-- Go's (value, error) results: the errors that the modelled packages return, and chains of calls.
use quickworks.Base.{Bool, true, false, ◌≡◌, ◌⊎◌, inl, inr, refl}

-- One constructor for each errors.New or gorm error that a caller can tell apart.
pub data Error : Type 0 where
  display_name_too_long name_space_exhausted key_too_long key_reused retry_limit : Error
  repository_invalid not_found invalid_transition workspace_deleted active_build : Error
  workspace_quota running_quota duplicated_key foreign_key : Error
  lease_expired public_key_invalid enrollment_invalid session_missing session_invalid : Error
  agent_gone no_ready_agent credential_missing credential_corrupt : Error

-- The second component of Go's pair where it is not nil, and else the first.
pub data Result {ℓ} (Value : Type ℓ) : Type ℓ where
  err : Error → Result Value
  ok : Value → Result Value

-- `if test { return failure }`
abbrev pub refuse : Bool → Error → Result (Unit {0})
refuse false failure = ok tt
refuse true failure = err failure

infixl 5 ◌>>=◌
-- `value, err := ...; if err != nil { return err }`
abbrev pub ◌>>=◌ {ℓ κ} :
    {Value : Type ℓ} {Next : Type κ} → Result Value → (Value → Result Next) → Result Next
err failure >>= next = err failure
ok value >>= next = next value

infixl 5 ◌>>◌
abbrev pub ◌>>◌ {κ} : {Next : Type κ} → Result (Unit {0}) → Result Next → Result Next
err failure >> next = err failure
ok tt >> next = next

abbrev pub is_duplicated_key : Error → Bool
is_duplicated_key duplicated_key = true
is_duplicated_key _ = false

-- A chain that succeeded had a first call that did.
pub >>=-first {ℓ κ} :
    {Value : Type ℓ} {Next : Type κ} (call : Result Value) (next : Value → Result Next)
    {last : Next}
    → (call >>= next) ≡ ok last
    → (value : Value) × (call ≡ ok value)
>>=-first (err failure) next done = cc
>>=-first (ok value) next done = (value, refl)

pub Result-cases {ℓ} :
    {A : Type ℓ} (m : Result A) → ((a : A) × (m ≡ ok a)) ⊎ ((e : Error) × (m ≡ err e))
Result-cases (ok a) = inl (a, refl)
Result-cases (err e) = inr (e, refl)
