-- ===== src/Auth/SignIn.antt =====
-- internal/server/auth/auth.go: Begin and Callback, the OAuth sign-in at GitHub, and the session that it
-- issues. A Writer keeps what of a response is sent: a cookie set after the status is not.
use quickworks.Base.{
  ℕ, String, Bool, true, false, not, ◌||◌, Option, none, some, List, [], ◌∷◌, ◌++◌, if◌then◌else◌,
  ◌==◌, nat_eq, any, ℤ, pos, negsuc,
}
use quickworks.Table.{first, update, insert}
use quickworks.Text.{bytes, same}
use quickworks.Auth.{User, is_nil, same_id, safe_return_to}
use quickworks.Auth.Credentials.{Box, Vault, store_credential}

pub record Cookie : Type 0 where
  pub name : String
  pub value : List ℕ
  pub http_only : Bool
  pub max_age : ℤ

-- The status of a response once it is written, its Location, and the cookies that go out with it.
pub record Writer : Type 0 where
  pub status : Option ℕ
  pub location : List ℕ
  pub cookies : List Cookie

abbrev pub new_writer : Writer
new_writer = record { status = none; location = []; cookies = [] }

-- http.SetCookie
unfoldable pub set_cookie : Cookie → Writer → Writer
set_cookie c w = elim w.status [ none ↦ record w { cookies = w.cookies ++ c ∷ [] } | some n ↦ w ]

-- http.Error, and http.Redirect where there is a location
unfoldable pub write_status : ℕ → List ℕ → Writer → Writer
write_status n location w = elim w.status [
  | none ↦ record w { status = some n; location = location }
  | some m ↦ w
]

-- What Begin leaves with the browser, and what Callback is sent.
pub record SignIn : Type 0 where
  pub state_cookie : Option (List ℕ)
  pub verifier_cookie : Option (List ℕ)
  pub return_cookie : Option (List ℕ)
  pub state : List ℕ
  pub code : List ℕ

pub record GithubAccount : Type 0 where
  pub id : ℤ
  pub login : String
  pub avatar_url : String

-- GitHub's answer to the user lookup; an undecodable body is `none`.
pub data Lookup : Type 0 where
  unreachable : Lookup
  looked_up : ℕ → Option GithubAccount → Lookup

abbrev pub session_cookie : String
session_cookie = "quickworks_session"

abbrev pub oauth_cookie : String → List ℕ → ℤ → Cookie
oauth_cookie name value max_age = record {
  name = name;
  value = value;
  http_only = true;
  max_age = max_age;
}

-- clearOAuthCookies
unfoldable pub clear_oauth_cookies : Writer → Writer
clear_oauth_cookies w = set_cookie (oauth_cookie "quickworks_oauth_return" [] (negsuc 0)) (
    set_cookie (oauth_cookie "quickworks_oauth_verifier" [] (negsuc 0))
      (set_cookie (oauth_cookie "quickworks_oauth_state" [] (negsuc 0)) w))

-- Begin, with its random state and verifier; `url` is where AuthCodeURL leads.
unfoldable pub begin : List ℕ → List ℕ → List ℕ → List ℕ → Writer → Writer
begin state verifier return_to url w = write_status 302 url (
    set_cookie (oauth_cookie "quickworks_oauth_return" (safe_return_to return_to) (pos 600)) (
      set_cookie (oauth_cookie "quickworks_oauth_verifier" verifier (pos 600))
        (set_cookie (oauth_cookie "quickworks_oauth_state" state (pos 600)) w)))

-- Where(User{GitHubUserID: id}): a zero field makes no condition.
unfoldable pub is_account : ℤ → User → Bool
is_account id u = same_id id (pos 0) || same_id u.github_user_id id

-- Assign(User{...}): a zero field is not assigned.
abbrev pub assigned : String → String → String
assigned value old = if value == "" then old else value

abbrev pub refreshed : GithubAccount → User → User
refreshed a u = record u {
  github_login = assigned a.login u.github_login;
  avatar_url = assigned a.avatar_url u.avatar_url;
}

-- Where(...).Assign(...).FirstOrCreate; `new_id` is the key that a created row gets.
unfoldable pub first_or_create : ℤ → GithubAccount → List User → User × List User
first_or_create new_id a users = elim (first (is_account a.id) users) [
  | none ↦
      let u : User = record {
        id = new_id;
        github_user_id = a.id;
        github_login = a.login;
        avatar_url = a.avatar_url;
      } in
      (u, insert u users)
  | some u ↦ (refreshed a u, update (λ x. same_id x.id u.id) (refreshed a) users)
]

-- A positive ID as the number that the credentials are filed under.
abbrev pub number_of : ℤ → ℕ
number_of (pos n) = n
number_of (negsuc n) = 0

-- The random values of a callback, its time, and the key of a new row.
pub record SignInDraw : Type 0 where
  pub now : ℕ
  pub nonce : List ℕ
  pub token_id : List ℕ
  pub csrf : List ℕ
  pub new_id : ℤ

-- The outside: the token exchange, the user lookup, and the signature of a session, whose claims are the
-- user ID, the time and the token ID.
pub record Outside : Type 0 where
  pub exchange : List ℕ → List ℕ → Option String
  pub user : String → Lookup
  pub sign : ℤ → ℕ → List ℕ → Option (List ℕ)

pub record SignInState : Type 0 where
  pub users : List User
  pub vault : Vault

abbrev pub session_of : List ℕ → Cookie
session_of value = record {
  name = session_cookie;
  value = value;
  http_only = true;
  max_age = pos 86400;
}

abbrev pub csrf_of : List ℕ → Cookie
csrf_of value = record {
  name = "quickworks_csrf";
  value = value;
  http_only = false;
  max_age = pos 86400;
}

-- issue: the session and CSRF cookies, or none
unfoldable pub issue : Outside → SignInDraw → ℤ → Writer → Option Writer
issue o d user_id w = elim (o.sign user_id d.now d.token_id) [
  | none ↦ none
  | some token ↦ some (set_cookie (csrf_of d.csrf) (set_cookie (session_of token) w))
]

abbrev pub return_to_of : Option (List ℕ) → List ℕ
return_to_of none = bytes "/"
return_to_of (some value) = safe_return_to value

module _ (o : Outside) (box : Box) (allowed : List ℤ) where
  -- Callback, once GitHub has named an account that may sign in
  unfoldable pub signed_in :
      SignInDraw → List ℕ → String → GithubAccount → SignInState → Writer → Writer × SignInState
  signed_in d return_to token a s w =
      let (u, users) = first_or_create d.new_id a s.users in
      let next : SignInState = record {
        users = users;
        vault = store_credential box d.nonce d.now (number_of u.id) token s.vault;
      } in
      elim (issue o d u.id w) [
        | none ↦ (write_status 500 [] w, next)
        | some w' ↦ (write_status 303 return_to w', next)
      ]

  -- Callback, with the answer to the user lookup
  unfoldable pub identified :
      SignInDraw → List ℕ → String → Lookup → SignInState → Writer → Writer × SignInState
  identified d return_to token unreachable s w = (write_status 502 [] w, s)
  identified d return_to token (looked_up status none) s w =
      (write_status (if nat_eq status 200 then 403 else 502) [] w, s)
  identified d return_to token (looked_up status (some a)) s w =
      if not (nat_eq status 200)
      then (write_status 502 [] w, s)
      else (if not (any (λ id. same_id id a.id) allowed)
          then (write_status 403 [] w, s)
          else signed_in d return_to token a s w)

  -- Callback up to its deferred call
  unfoldable pub callback_body : SignInDraw → SignIn → SignInState → Writer → Writer × SignInState
  callback_body d r s w =
      let return_to = return_to_of r.return_cookie in
      elim r.state_cookie [
        | none ↦ (write_status 400 [] w, s)
        | some state ↦
            if is_nil r.state || not (same state r.state)
            then (write_status 400 [] w, s)
            else elim r.verifier_cookie [
              | none ↦ (write_status 400 [] w, s)
              | some verifier ↦ elim (o.exchange r.code verifier) [
                | none ↦ (write_status 502 [] w, s)
                | some token ↦ identified d return_to token (o.user token) s w
              ]
            ]
      ]

  -- Callback
  unfoldable pub callback : SignInDraw → SignIn → SignInState → Writer → Writer × SignInState
  callback d r s w = let (w', s') = callback_body d r s w in (clear_oauth_cookies w', s')
