-- ===== src/Auth/Arrivals.antt =====
-- A first sign-in of an account, its session, and a repository that it looks up.
use quickworks.Base.{
  ℕ, ◌<◌, ◌≡◌, refl, String, true, Option, none, some, List, [], ◌∷◌, ℤ, pos, negsuc, arith,
}
use quickworks.Results.{err, credential_missing}
use quickworks.Table.{count, first, insert}
use quickworks.Text.{bytes, same}
use quickworks.Auth.{User, Request, same_id, current}
use quickworks.Auth.Credentials.{github_token, github_credential, decrypted}
use quickworks.Auth.Examples.{open_box, empty_vault, with_token, post}
use quickworks.Auth.SignIn.{
  new_writer, set_cookie, write_status, SignIn, GithubAccount, looked_up, session_of, SignInDraw,
  Outside, SignInState, issue, first_or_create, clear_oauth_cookies, signed_in, identified,
  callback_body, callback,
}
use quickworks.Auth.SignedIn.{
  IsAuthorized, is_session, is_deletion, callback-session, callback_keeps_cookies,
}
use quickworks.Auth.Welcome.{IsKeyed, callback-current}
use quickworks.Auth.Repositories.{
  Metadata, Reply, replied, github_name, is_canonical, answer_repository, repository, IsFound,
  repository-IsFound, repository_expired,
}

abbrev account : GithubAccount
account = record { id = pos 1; login = "octocat"; avatar_url = "https://github.com/octocat.png" }

abbrev sign : ℤ → ℕ → List ℕ → Option (List ℕ)
sign (pos n) now token_id = some (n ∷ [])
sign (negsuc n) now token_id = none

abbrev outside : Outside
outside = record {
  exchange = λ code verifier. some "gh";
  user = λ token. looked_up 200 (some account);
  sign = sign;
}

abbrev verify : List ℕ → Option ℤ
verify [] = none
verify (n ∷ s) = some (pos n)

abbrev draws : SignInDraw
draws = record { now = 100; nonce = 9 ∷ []; token_id = []; csrf = 65 ∷ []; new_id = pos 8 }

abbrev returning : SignIn
returning = record {
  state_cookie = some (1 ∷ []);
  verifier_cookie = some (2 ∷ []);
  return_cookie = none;
  state = 1 ∷ [];
  code = 3 ∷ [];
}

abbrev before : SignInState
before = record { users = []; vault = empty_vault }

sends_session :
    first is_session
      (callback outside open_box (pos 1 ∷ []) draws returning before new_writer).0.cookies
    ≡ some (session_of (8 ∷ []))
unfolding callback callback_body identified signed_in issue first_or_create first insert same
    write_status set_cookie clear_oauth_cookies
sends_session = refl

session_counted :
    0
    < count is_session
        (callback outside open_box (pos 1 ∷ []) draws returning before new_writer).0.cookies
unfolding callback callback_body identified signed_in issue first_or_create first insert same
    write_status set_cookie clear_oauth_cookies count
session_counted = ground arith

callback-session_example : IsAuthorized outside open_box (pos 1 ∷ []) returning
callback-session_example =
    callback-session outside open_box (pos 1 ∷ []) draws returning before session_counted

callback_keeps_cookies_example :
    count is_deletion
      (callback outside open_box (pos 1 ∷ []) draws returning before new_writer).0.cookies
    ≡ 0
callback_keeps_cookies_example =
    callback_keeps_cookies outside open_box (pos 1 ∷ []) draws returning before

verifies : (id : ℤ) (t : List ℕ) → sign id 100 [] ≡ some t → verify t ≡ some id
verifies (pos n) t h = ground arith
verifies (negsuc n) t h = cc

no_users-IsKeyed : IsKeyed []
unfolding count
no_users-IsKeyed = record { once = λ id. omega arith; positive = refl }

abbrev browsing : Request
browsing = record post { session_cookie = some (8 ∷ []) }

callback-current_example :
    (h : IsAuthorized outside open_box (pos 1 ∷ []) returning) × (u : User) × (current verify
        (callback outside open_box (pos 1 ∷ []) draws returning before new_writer).1.users
        (pos 1 ∷ [])
        browsing
      ≡ some u)
    × (same_id u.github_user_id h.account.id ≡ true)
unfolding count
callback-current_example =
    callback-current outside open_box (pos 1 ∷ []) verify draws returning before browsing (8 ∷ [])
      verifies no_users-IsKeyed refl refl refl sends_session refl

abbrev metadata : Metadata
metadata = record {
  id = pos 5;
  full_name = "o/r";
  clone_url = "https://github.com/o/r.git";
  default_branch = "main";
  private = true;
}

abbrev plain : List ℕ → List ℕ
plain name = name

abbrev origin : String → Option (String × String)
origin address = some ("https", "github.com")

abbrev found : List ℕ → String → Reply
found address token = replied 200 (some metadata)

abbrev expired : List ℕ → String → Reply
expired address token = replied 401 none

finds :
    repository open_box plain origin found 7 (bytes "o") (bytes "r") with_token
    ≡ (some metadata, with_token)
unfolding repository answer_repository is_canonical github_name github_token github_credential first
    decrypted
finds = refl

repository-IsFound_example :
    IsFound open_box plain origin found 7 (bytes "o") (bytes "r") with_token metadata
    × (with_token ≡ with_token)
repository-IsFound_example =
    repository-IsFound open_box plain origin found 7 (bytes "o") (bytes "r") with_token with_token
      metadata finds

repository_expired_example :
    ((repository open_box plain origin expired 7 (bytes "o") (bytes "r") with_token).0 ≡ none)
    × (github_token open_box 7
          (repository open_box plain origin expired 7 (bytes "o") (bytes "r") with_token).1
        ≡ err credential_missing)
unfolding github_name github_token github_credential first decrypted
repository_expired_example =
    repository_expired open_box plain origin expired 7 (bytes "o") (bytes "r") with_token "gh" none
      refl refl refl refl (ground arith)
