-- ===== src/Auth/SignedIn.antt =====
-- internal/server/auth/auth.go: who gets a session from Callback, what it is good for, and what is left of
-- the cookies of the sign-in.
use quickworks.Base.{
  ℕ, ◌≤◌, ◌<◌, ◌≡◌, refl, ap, ◌∙◌, String, Bool, true, false, not, ◌||◌, none, some, List, [], ◌∷◌,
  ◌==◌, nat_eq, any, ℤ, is_positive, is_some, arith, Bool-cases, Option-cases, inl, inr, ◌⊎◌,
}
use quickworks.Table.{count}
use quickworks.Text.{same}
use quickworks.Text.Laws.{same-eq}
use quickworks.Auth.{is_nil, same_id}
use quickworks.Auth.Credentials.{Box}
use quickworks.Auth.SignIn.{
  Cookie, Writer, new_writer, set_cookie, write_status, SignIn, GithubAccount, Lookup, unreachable,
  looked_up, session_cookie, clear_oauth_cookies, first_or_create, SignInDraw, Outside, SignInState,
  session_of, csrf_of, issue, return_to_of, signed_in, identified, callback_body, callback,
}

abbrev pub is_session : Cookie → Bool
is_session c = c.name == session_cookie

-- A cookie that is told to go.
abbrev pub is_deletion : Cookie → Bool
is_deletion c = not (is_positive c.max_age)

pub write_status-cookies :
    (n : ℕ) (location : List ℕ) (w : Writer) → (write_status n location w).cookies ≡ w.cookies
unfolding write_status
write_status-cookies n location w = ground arith

write_status-done :
    (n : ℕ) (location : List ℕ) (w : Writer) → is_some (write_status n location w).status ≡ true
unfolding write_status
write_status-done n location w = ground arith

-- Nothing is added to a response whose status was written.
clear_oauth_cookies-done : (w : Writer) → is_some w.status ≡ true → clear_oauth_cookies w ≡ w
unfolding clear_oauth_cookies set_cookie
clear_oauth_cookies-done w h = elim (Option-cases w.status) [
  | inl unwritten ↦ absurd (ground arith)
  | inr (n, written) ↦ ground arith
]

module _ (o : Outside) (box : Box) (allowed : List ℤ) where
  -- The account that GitHub named for the code of a sign-in that Begin started in this browser.
  pub record IsAuthorized (r : SignIn) : Type 0 where
    pub verifier : List ℕ
    pub token : String
    pub account : GithubAccount
    pub matched : r.state_cookie ≡ some r.state
    pub filled : is_nil r.state ≡ false
    pub kept : r.verifier_cookie ≡ some verifier
    pub exchanged : o.exchange r.code verifier ≡ some token
    pub named : o.user token ≡ looked_up 200 (some account)
    pub admitted : any (λ id. same_id id account.id) allowed ≡ true

  -- A callback that is turned away.
  abbrev IsRefused : SignInState → Writer → Writer × SignInState → Type 0
  IsRefused s w result = (n : ℕ) × (400 ≤ n) × (result ≡ (write_status n [] w, s))

  identified-cases :
      (d : SignInDraw) (return_to : List ℕ) (token : String) (found : Lookup) (s : SignInState)
      (w : Writer)
      → IsRefused s w (identified o box allowed d return_to token found s w)
        ⊎ ((a : GithubAccount) × (found ≡ looked_up 200 (some a))
            × (any (λ id. same_id id a.id) allowed ≡ true)
            × (identified o box allowed d return_to token found s w
                ≡ signed_in o box allowed d return_to token a s w))
  unfolding identified
  identified-cases d return_to token unreachable s w = inl (502, omega arith, refl)
  identified-cases d return_to token (looked_up status none) s w =
      elim (Bool-cases (nat_eq status 200)) [
        | inl fine ↦ inl (403, omega arith, rw fine refl)
        | inr bad ↦ inl (502, omega arith, rw bad refl)
      ]
  identified-cases d return_to token (looked_up status (some a)) s w =
      elim (Bool-cases (nat_eq status 200)) [
        | inr bad ↦ inl (502, omega arith, rw bad refl)
        | inl fine ↦ elim (Bool-cases (any (λ id. same_id id a.id) allowed)) [
          | inr stranger ↦ inl (403, omega arith, rw (fine, stranger) refl)
          | inl member ↦ inr (a, ground arith, member, rw (fine, member) refl)
        ]
      ]

  callback_body-cases :
      (d : SignInDraw) (r : SignIn) (s : SignInState) (w : Writer)
      → IsRefused s w (callback_body o box allowed d r s w)
        ⊎ ((h : IsAuthorized r) × (callback_body o box allowed d r s w
              ≡ signed_in o box allowed d (return_to_of r.return_cookie) h.token h.account s w))
  unfolding callback_body
  callback_body-cases d r s w = elim (Option-cases r.state_cookie) [
    | inl missing ↦ inl (400, omega arith, rw (missing, callback_body) refl)
    | inr (state, sent) ↦ elim (Bool-cases (is_nil r.state || not (same state r.state))) [
      | inl bad ↦ inl (400, omega arith, rw (sent, bad, callback_body) refl)
      | inr good ↦ elim (Option-cases r.verifier_cookie) [
        | inl gone ↦ inl (400, omega arith, rw (sent, good, gone, callback_body) refl)
        | inr (verifier, kept) ↦ elim (Option-cases (o.exchange r.code verifier)) [
          | inl failed ↦ inl (502, omega arith, rw (sent, good, kept, failed, callback_body) refl)
          | inr (token, exchanged) ↦
              elim (identified-cases d (return_to_of r.return_cookie) token (o.user token) s w) [
                | inl (n, high, refused) ↦
                    inl (n, high, rw (sent, good, kept, exchanged, callback_body) refused)
                | inr (a, named, admitted, result) ↦ inr (
                  record {
                    verifier = verifier;
                    token = token;
                    account = a;
                    matched = sent ∙ ap (λ x. some x) (same-eq state r.state (ground arith));
                    filled = ground arith;
                    kept = kept;
                    exchanged = exchanged;
                    named = named;
                    admitted = admitted;
                  },
                  rw (sent, good, kept, exchanged, callback_body) result,
                )
              ]
        ]
      ]
    ]
  ]

  -- What a sign-in that went through sends.
  abbrev pub welcome : List ℕ → SignInDraw → List ℕ → Writer
  welcome return_to d token = record {
    status = some 303;
    location = return_to;
    cookies = session_of token ∷ csrf_of d.csrf ∷ [];
  }

  sends :
      (return_to : List ℕ) (d : SignInDraw) (t : List ℕ)
      → write_status 303 return_to
          (set_cookie (csrf_of d.csrf) (set_cookie (session_of t) new_writer))
        ≡ welcome return_to d t
  unfolding write_status set_cookie
  sends return_to d t = refl

  signed_in-users :
      (d : SignInDraw) (return_to : List ℕ) (token : String) (a : GithubAccount) (s : SignInState)
      → (signed_in o box allowed d return_to token a s new_writer).1.users
        ≡ (first_or_create d.new_id a s.users).1
  unfolding signed_in
  signed_in-users d return_to token a s = ground arith

  signed_in-cases :
      (d : SignInDraw) (return_to : List ℕ) (token : String) (a : GithubAccount) (s : SignInState)
      → ((signed_in o box allowed d return_to token a s new_writer).0
          ≡ write_status 500 [] new_writer)
        ⊎ ((t : List ℕ) × (o.sign (first_or_create d.new_id a s.users).0.id d.now d.token_id
              ≡ some t)
            × ((signed_in o box allowed d return_to token a s new_writer).0
                ≡ welcome return_to d t))
  unfolding signed_in issue
  signed_in-cases d return_to token a s =
      elim (Option-cases (o.sign (first_or_create d.new_id a s.users).0.id d.now d.token_id)) [
        | inl unsigned ↦ inl (rw (unsigned, signed_in, issue) refl)
        | inr (t, signed) ↦ inr (t, signed, rw (signed, signed_in, issue) (sends return_to d t))
      ]

  -- How a callback to a fresh response ends.
  pub callback-cases :
      (d : SignInDraw) (r : SignIn) (s : SignInState)
      → ((n : ℕ) × (400 ≤ n)
          × ((callback o box allowed d r s new_writer).0 ≡ write_status n [] new_writer))
        ⊎ ((h : IsAuthorized r) × (t : List ℕ) × (o.sign
                (first_or_create d.new_id h.account s.users).0.id
                d.now
                d.token_id
              ≡ some t)
            × ((callback o box allowed d r s new_writer).0
                ≡ welcome (return_to_of r.return_cookie) d t)
            × ((callback o box allowed d r s new_writer).1.users
                ≡ (first_or_create d.new_id h.account s.users).1))
  unfolding callback
  callback-cases d r s = elim (callback_body-cases d r s new_writer) [
    | inl (n, high, refused) ↦
        inl (n, high, rw refused (clear_oauth_cookies-done _ (write_status-done n [] new_writer)))
    | inr (h, body) ↦ elim (signed_in-cases d (return_to_of r.return_cookie) h.token h.account s) [
      | inl unsigned ↦ inl (
        500,
        omega arith,
        rw (body, unsigned) (clear_oauth_cookies-done _ (write_status-done 500 [] new_writer)),
      )
      | inr (t, signed, sent) ↦ inr (
        h,
        t,
        signed,
        rw (body, sent) (clear_oauth_cookies-done _ refl),
        rw body (signed_in-users d (return_to_of r.return_cookie) h.token h.account s),
      )
    ]
  ]

  -- If the response of Callback, whatever the exchange and the lookup answer, sets a session
  -- cookie, then the state of the request was not empty and the one of the browser's cookie, the
  -- browser kept a verifier that the code was exchanged with, and GitHub answered the lookup with
  -- 200 and an account that is on the list.
  pub callback-session :
      (d : SignInDraw) (r : SignIn) (s : SignInState)
      → 0 < count is_session (callback o box allowed d r s new_writer).0.cookies
      → IsAuthorized r
  unfolding count
  callback-session d r s sent = elim (callback-cases d r s) [
    | inl (n, high, refused) ↦
        absurd (ground (arith, ap (λ w. w.cookies) refused, write_status-cookies n [] new_writer))
    | inr (h, t, signed, welcomed, users) ↦ h
  ]

  -- No cookie that a response of Callback sends is one to delete, however Callback ends: the
  -- deletions of clearOAuthCookies come after the status.
  pub callback_keeps_cookies :
      (d : SignInDraw) (r : SignIn) (s : SignInState)
      → count is_deletion (callback o box allowed d r s new_writer).0.cookies ≡ 0
  unfolding count
  callback_keeps_cookies d r s = elim (callback-cases d r s) [
    | inl (n, high, refused) ↦
        rw (ap (λ w. w.cookies) refused, write_status-cookies n [] new_writer) refl
    | inr (h, t, signed, welcomed, users) ↦ rw welcomed refl
  ]
