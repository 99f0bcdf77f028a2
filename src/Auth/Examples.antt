-- ===== src/Auth/Examples.antt =====
-- A request that a guard lets through, and a clone credential from its creation to its second reading.
use quickworks.Base.{
  ℕ, true, ◌↔◌, ◌≡◌, ◌≢◌, refl, String, Option, none, some, List, [], ◌∷◌, arith, eq_iff, ℤ, pos,
}
use quickworks.Table.{first}
use quickworks.Auth.{
  User, Request, bits, xor_bits, or_bits, difference, subtle_equal, sent_token, valid_csrf, user_of,
  current, let_through, past_csrf, require,
}
use quickworks.Auth.Bits.{subtle_equal-eq}
use quickworks.Auth.Requests.{AreBytes, require-let_through}
use quickworks.Auth.Credentials.{Box, Vault, github_credential}

abbrev verify : List ℕ → Option ℤ
verify cookie = some (pos 7)

abbrev pub octocat : User
octocat = record {
  id = pos 7;
  github_user_id = pos 1;
  github_login = "octocat";
  avatar_url = "https://github.com/octocat.png";
}

abbrev pub users : List User
users = octocat ∷ []

abbrev pub post : Request
post = record {
  method = "POST";
  uri = 47 ∷ [];
  session_cookie = some (115 ∷ []);
  csrf_cookie = some (65 ∷ 66 ∷ []);
  csrf_header = 65 ∷ 66 ∷ [];
  form_token = none;
}

passes : require verify users (pos 1 ∷ []) post ≡ let_through octocat
unfolding require current user_of first past_csrf valid_csrf sent_token subtle_equal difference bits
    xor_bits or_bits
passes = refl

cookie_bytes : (t : List ℕ) → post.csrf_cookie ≡ some t → AreBytes t
cookie_bytes [] e = tt
cookie_bytes (a ∷ []) e = cc
cookie_bytes (a ∷ b ∷ []) e = (ground arith, (ground arith, tt))
cookie_bytes (a ∷ b ∷ c ∷ t) e = cc

token_bytes : (t : List ℕ) → sent_token post ≡ some t → AreBytes t
unfolding sent_token
token_bytes [] e = tt
token_bytes (a ∷ []) e = cc
token_bytes (a ∷ b ∷ []) e = (ground arith, (ground arith, tt))
token_bytes (a ∷ b ∷ c ∷ t) e = cc

require-let_through_example :
    (current verify users (pos 1 ∷ []) post ≡ some octocat)
    × ((t : List ℕ) × (post.csrf_cookie ≡ some t) × (sent_token post ≡ some t) × (t ≢ []))
require-let_through_example =
    require-let_through verify users (pos 1 ∷ []) post octocat cookie_bytes token_bytes passes refl

-- A box that keeps the token as it is.
abbrev pub open_box : Box
open_box = record {
  nonce_size = 1;
  seal = λ nonce token user_id. token;
  unseal = λ nonce ciphertext user_id. some ciphertext;
  unseal-seal = λ nonce token user_id. refl;
}

abbrev pub empty_vault : Vault
empty_vault = record { github_credentials = []; clone_credentials = [] }

abbrev pub with_token : Vault
with_token = record empty_vault {
  github_credentials = github_credential open_box (9 ∷ []) 7 "gh" 100 ∷ [];
}

pub url_named : ◌≢◌ {A = String} "https://github.com/o/r" ""
url_named = ground (arith, eq_iff "https://github.com/o/r" "")

subtle_equal-eq_example :
    (subtle_equal (65 ∷ []) (66 ∷ []) ≡ true) ↔ (◌≡◌ {A = List ℕ} (65 ∷ []) (66 ∷ []))
subtle_equal-eq_example = subtle_equal-eq (65 ∷ []) (66 ∷ []) (ground arith, tt) (ground arith, tt)
