-- ===== src/Auth/Requests.antt =====
-- internal/server/auth/auth.go: what a request that a guard lets through has shown.
use quickworks.Base.{
  ℕ, ◌<◌, ◌≡◌, ◌≢◌, refl, ap, Bool, true, false, not, ◌||◌, Option, some, List, [], ◌∷◌, arith,
  Bool-cases, Option-cases, inl, inr, All, ℤ,
}
use quickworks.Text.{has_prefix, contains}
use quickworks.Auth.{
  User, Request, is_unsafe_method, sent_token, valid_csrf, subtle_equal, current, let_through,
  past_csrf, require, safe_return_to, is_nil,
}
use quickworks.Auth.Bits.{subtle_equal-eq}

abbrev pub AreBytes : List ℕ → Type 0
AreBytes = All (λ c. c < 256)

valid_csrf-token :
    (r : Request)
    → ((t : List ℕ) → r.csrf_cookie ≡ some t → AreBytes t)
    → ((t : List ℕ) → sent_token r ≡ some t → AreBytes t)
    → valid_csrf r ≡ true
    → (t : List ℕ) × (r.csrf_cookie ≡ some t) × (sent_token r ≡ some t) × (t ≢ [])
unfolding valid_csrf
valid_csrf-token r cookie_bytes token_bytes valid = elim (Option-cases r.csrf_cookie) [
  | inl no_cookie ↦ absurd (ground arith)
  | inr (c, e) ↦ elim (Option-cases (sent_token r)) [
    | inl no_token ↦ absurd (ground arith)
    | inr (t, f) ↦
        let equal : subtle_equal c t ≡ true = ground arith in
        let filled : is_nil c ≡ false = ground arith in
        let same : c ≡ t = (subtle_equal-eq c t (cookie_bytes c e) (token_bytes t f)).0 equal in
        (c, e, rw same f, (λ empty. absurd (ground (arith, ap is_nil empty))))
  ]
]

-- If the CSRF cookie and the sent token consist of bytes, a request with an unsafe method that the
-- guard lets through is from the current user of its session, and carries a non-empty CSRF cookie
-- and the same token beside it.
pub require-let_through :
    (verify : List ℕ → Option ℤ) (users : List User) (allowed : List ℤ) (r : Request) (u : User)
    → ((t : List ℕ) → r.csrf_cookie ≡ some t → AreBytes t)
    → ((t : List ℕ) → sent_token r ≡ some t → AreBytes t)
    → require verify users allowed r ≡ let_through u
    → is_unsafe_method r.method ≡ true
    → (current verify users allowed r ≡ some u)
      × ((t : List ℕ) × (r.csrf_cookie ≡ some t) × (sent_token r ≡ some t) × (t ≢ []))
unfolding require past_csrf
require-let_through verify users allowed r u cookie_bytes token_bytes passed unsafe =
    elim (Option-cases (current verify users allowed r)) [
      | inl nobody ↦ absurd (ground arith)
      | inr (v, e) ↦ elim (Bool-cases (valid_csrf r)) [
        | inl valid ↦ (ground arith, valid_csrf-token r cookie_bytes token_bytes valid)
        | inr invalid ↦ absurd (ground arith)
      ]
    ]

-- The test that keeps an address.
abbrev leaves : List ℕ → Bool
leaves value =
    is_nil value
    || (not (has_prefix (b'/' ∷ []) value)
        || (has_prefix (b'/' ∷ b'/' ∷ []) value || contains b'\\' value))

abbrev pub IsLocal : List ℕ → Type 0
IsLocal value =
    (has_prefix (b'/' ∷ []) value ≡ true)
    × (has_prefix (b'/' ∷ b'/' ∷ []) value ≡ false)
    × (contains b'\\' value ≡ false)

root-IsLocal : IsLocal (b'/' ∷ [])
unfolding has_prefix contains
root-IsLocal = (refl, refl, refl)

sent_home : (value : List ℕ) → leaves value ≡ true → safe_return_to value ≡ b'/' ∷ []
unfolding safe_return_to
sent_home value away = rw away refl

kept : (value : List ℕ) → leaves value ≡ false → safe_return_to value ≡ value
unfolding safe_return_to
kept value stays = rw stays refl

-- The return address that is kept starts with one slash and not with two, holds no backslash, and
-- passes the check unchanged.
pub safe_return_to-IsLocal :
    (value : List ℕ)
    → IsLocal (safe_return_to value)
      × (safe_return_to (safe_return_to value) ≡ safe_return_to value)
safe_return_to-IsLocal value = elim (Bool-cases (leaves value)) [
  | inl away ↦
      rw (sent_home value away) (root-IsLocal, unfold safe_return_to has_prefix contains in refl)
  | inr stays ↦ rw (kept value stays) ((ground arith, ground arith, ground arith), kept value stays)
]
