-- ===== src/Auth.antt =====
-- internal/server/auth/auth.go: who a browser request is from, the CSRF check and the return address.
-- `verify` stands for the JWT library: the user ID that a browser session with a valid signature,
-- audience, issuer and time carries. A text is the list of its bytes where they are compared.
pub mod Bits
pub mod Requests
pub mod Credentials
pub mod Consumed
pub mod SignIn
pub mod SignedIn
pub mod Welcome
pub mod Repositories
pub mod Arrivals
pub mod Examples
use quickworks.Base.{
  ℕ, suc, zero, String, Bool, true, false, not, ◌&&◌, ◌||◌, Option, none, some, List, [], ◌∷◌, ◌==◌,
  if◌then◌else◌, nat_eq, length, ℤ, any, is_positive, ◌%◌, ◌/◌,
}
use quickworks.Table.{first}
use quickworks.Text.{bytes, has_prefix, contains}

pub record User : Type 0 where
  pub id : ℤ
  pub github_user_id : ℤ
  pub github_login : String
  pub avatar_url : String

-- What the checks read of a request; `form_token` is none where ParseForm fails.
pub record Request : Type 0 where
  pub method : String
  pub uri : List ℕ
  pub session_cookie : Option (List ℕ)
  pub csrf_cookie : Option (List ℕ)
  pub csrf_header : List ℕ
  pub form_token : Option (List ℕ)

-- The bits of a byte, the lowest first.
unfoldable pub bits : ℕ → ℕ → List Bool
bits zero c = []
bits (suc n) c = nat_eq (c % 2) 1 ∷ bits n (c / 2)

abbrev pub xor : Bool → Bool → Bool
xor true b = not b
xor false b = b

-- `^` and `|` of two bytes, bit by bit.
unfoldable pub xor_bits : List Bool → List Bool → List Bool
xor_bits (a ∷ s) (b ∷ t) = xor a b ∷ xor_bits s t
xor_bits _ _ = []

unfoldable pub or_bits : List Bool → List Bool → List Bool
or_bits (a ∷ s) (b ∷ t) = (a || b) ∷ or_bits s t
or_bits _ _ = []

-- The loop of subtleEqual over two texts of one length.
unfoldable pub difference : List Bool → List ℕ → List ℕ → List Bool
difference result (a ∷ s) (b ∷ t) = difference (or_bits result (xor_bits (bits 8 a) (bits 8 b))) s t
difference result _ _ = result

abbrev pub no_bits : List Bool
no_bits = false ∷ false ∷ false ∷ false ∷ false ∷ false ∷ false ∷ false ∷ []

-- subtleEqual
unfoldable pub subtle_equal : List ℕ → List ℕ → Bool
unfolding difference
subtle_equal left right =
    if not (nat_eq (length left) (length right))
    then false
    else not (any (λ b. b) (difference no_bits left right))

-- isUnsafeMethod
abbrev pub is_unsafe_method : String → Bool
is_unsafe_method m = not ((m == "GET") || ((m == "HEAD") || (m == "OPTIONS")))

abbrev pub is_nil : List ℕ → Bool
is_nil [] = true
is_nil (b ∷ bs) = false

-- The token of the header, or of the form where the header has none.
unfoldable pub sent_token : Request → Option (List ℕ)
sent_token r = if is_nil r.csrf_header then r.form_token else some r.csrf_header

-- validCSRF
unfoldable pub valid_csrf : Request → Bool
unfolding sent_token
valid_csrf r = elim r.csrf_cookie [
  | none ↦ false
  | some cookie ↦
      if is_nil cookie
      then false
      else elim (sent_token r) [ none ↦ false | some token ↦ subtle_equal cookie token ]
]

abbrev pub same_id : ℤ → ℤ → Bool
same_id (ℤ.pos m) (ℤ.pos n) = nat_eq m n
same_id (ℤ.negsuc m) (ℤ.negsuc n) = nat_eq m n
same_id _ _ = false

abbrev pub is_allowed : List ℤ → User → Bool
is_allowed allowed u = any (λ a. same_id a u.github_user_id) allowed

-- The user under a valid session, if it still exists and may sign in.
unfoldable pub user_of : List User → List ℤ → ℤ → Option User
user_of users allowed id =
    if not (is_positive id) then none else elim (first (λ u. same_id u.id id) users) [
      | none ↦ none
      | some u ↦ if is_allowed allowed u then some u else none
    ]

-- Current
unfoldable pub current : (List ℕ → Option ℤ) → List User → List ℤ → Request → Option User
current verify users allowed r = elim r.session_cookie [
  | none ↦ none
  | some cookie ↦ elim (verify cookie) [ none ↦ none | some id ↦ user_of users allowed id ]
]

-- safeReturnTo
unfoldable pub safe_return_to : List ℕ → List ℕ
safe_return_to value =
    if is_nil value
      || (not (has_prefix (b'/' ∷ []) value)
          || (has_prefix (b'/' ∷ b'/' ∷ []) value || contains b'\\' value))
    then b'/' ∷ []
    else value

-- What a guard makes of a request: an error status, the sign-in page, or the handler behind it.
pub data Gate : Type 0 where
  stopped : ℕ → Gate
  sign_in : List ℕ → Gate
  let_through : User → Gate

unfoldable pub past_csrf : Request → User → Gate
past_csrf r u =
    if is_unsafe_method r.method && not (valid_csrf r) then stopped 403 else let_through u

module _ (verify : List ℕ → Option ℤ) (users : List User) (allowed : List ℤ) where
  -- Require
  unfoldable pub require : Request → Gate
  unfolding past_csrf
  require r = elim (current verify users allowed r) [ none ↦ stopped 401 | some u ↦ past_csrf r u ]

  -- RequirePage
  unfoldable pub require_page : Request → Gate
  unfolding past_csrf
  require_page r = elim (current verify users allowed r) [
    | none ↦ sign_in (safe_return_to r.uri)
    | some u ↦ past_csrf r u
  ]

  -- RequireWorkbench
  unfoldable pub require_workbench : Request → Gate
  require_workbench r = elim (current verify users allowed r) [
    | none ↦ sign_in (safe_return_to r.uri)
    | some u ↦ let_through u
  ]
