-- ===== src/Auth/Welcome.antt =====
-- internal/server/auth/auth.go: the session of a callback, read back by Current.
use quickworks.Base.{
  ℕ, ◌≤◌, ◌≡◌, ap, ◌∙◌, Bool, true, false, not, Option, some, List, [], ◌∷◌, any, ℤ, pos, negsuc,
  is_positive, arith, Bool-cases, Option-cases, inl, inr,
}
use quickworks.Table.{count, first, update}
use quickworks.Table.Counts.{first_holds, first-count}
use quickworks.Table.Keys.{first-insert}
use quickworks.Table.Changes.{first-update}
use quickworks.Auth.{User, Request, same_id, user_of, current}
use quickworks.Auth.Credentials.{Box}
use quickworks.Auth.SignIn.{
  new_writer, SignIn, GithubAccount, is_account, refreshed, first_or_create, SignInDraw, Outside,
  SignInState, session_of, callback,
}
use quickworks.Auth.SignedIn.{IsAuthorized, is_session, callback-cases, write_status-cookies}

same_id-eq : (a b : ℤ) → same_id a b ≡ true → a ≡ b
same_id-eq (pos m) (pos n) h = ap pos (ground arith)
same_id-eq (negsuc m) (negsuc n) h = ap negsuc (ground arith)
same_id-eq (pos m) (negsuc n) h = cc
same_id-eq (negsuc m) (pos n) h = cc

same_id_self : (a : ℤ) → same_id a a ≡ true
same_id_self (pos n) = ground arith
same_id_self (negsuc n) = ground arith

-- A row that is found by any test is the row of its ID.
first-id :
    (p : User → Bool) (users : List User) (u : User)
    → count (λ x. same_id x.id u.id) users ≤ 1
    → first p users ≡ some u
    → first (λ x. same_id x.id u.id) users ≡ some u
unfolding count first
first-id p [] u once h = cc
first-id p (x ∷ users) u once h = elim (Bool-cases (p x)) [
  | inl here ↦ ground (arith, same_id_self u.id)
  | inr later ↦
      let found : first p users ≡ some u = ground arith in
      ground (
        arith,
        first-id p users u,
        first-count p (λ y. same_id y.id u.id) users u found (same_id_self u.id),
      )
]

-- The table of users: IDs are positive and belong to one row each.
pub record IsKeyed (users : List User) : Type 0 where
  pub once : (id : ℤ) → count (λ u. same_id u.id id) users ≤ 1
  pub positive : count (λ u. not (is_positive u.id)) users ≡ 0

-- The row that a sign-in finds or makes.
record IsRowOf (a : GithubAccount) (found : User × List User) : Type 0 where
  reads : first (λ x. same_id x.id found.0.id) found.1 ≡ some found.0
  is_positive_id : is_positive found.0.id ≡ true
  of_account : same_id found.0.github_user_id a.id ≡ true

abbrev created : ℤ → GithubAccount → User
created new_id a = record {
  id = new_id;
  github_user_id = a.id;
  github_login = a.login;
  avatar_url = a.avatar_url;
}

updated :
    (a : GithubAccount) (users : List User) (u : User)
    → first (λ x. same_id x.id u.id) users ≡ some u
    → first (λ x. same_id x.id u.id) (update (λ x. same_id x.id u.id) (refreshed a) users)
      ≡ some (refreshed a u)
updated a users u found =
    first-update (λ x. same_id x.id u.id) (λ x. same_id x.id u.id) (refreshed a) users u
      (λ y. ground arith) found
    ∙ ground (arith, same_id_self u.id)

found_positive :
    (p : User → Bool) (users : List User) (u : User)
    → count (λ x. not (is_positive x.id)) users ≡ 0
    → first p users ≡ some u
    → is_positive u.id ≡ true
found_positive p users u none_bad found = elim (Bool-cases (is_positive u.id)) [
  | inl fine ↦ fine
  | inr bad ↦ absurd (ground (arith, first-count p (λ x. not (is_positive x.id)) users u found))
]

first_or_create-IsRowOf :
    (new_id : ℤ) (a : GithubAccount) (users : List User)
    → IsKeyed users
    → is_positive new_id ≡ true
    → count (λ u. same_id u.id new_id) users ≡ 0
    → same_id a.id (pos 0) ≡ false
    → IsRowOf a (first_or_create new_id a users)
unfolding first_or_create is_account
first_or_create-IsRowOf new_id a users keyed fresh unused named =
    elim (Option-cases (first (is_account a.id) users)) [
      | inl stranger ↦
          rw (stranger, first_or_create)
            (record {
              reads =
                  first-insert (λ x. same_id x.id new_id) (created new_id a) users unused
                    (same_id_self new_id);
              is_positive_id = fresh;
              of_account = same_id_self a.id;
            })
      | inr (u, known) ↦
          rw (known, first_or_create)
            (record {
              reads =
                  updated a users u (first-id (is_account a.id) users u (keyed.once u.id) known);
              is_positive_id = found_positive (is_account a.id) users u keyed.positive known;
              of_account = ground (arith, first_holds (is_account a.id) users u known);
            })
    ]

-- An account that may sign in is not numbered 0.
named_account :
    (allowed : List ℤ) (id : ℤ)
    → any (λ x. same_id x (pos 0)) allowed ≡ false
    → any (λ x. same_id x id) allowed ≡ true
    → same_id id (pos 0) ≡ false
named_account allowed id no_zero admitted = elim (Bool-cases (same_id id (pos 0))) [
  | inr other ↦ other
  | inl zero_id ↦ absurd (ground (arith, no_zero, (rw (same_id-eq id (pos 0) zero_id) at admitted)))
]

-- The user under a session, read back from the table.
reads_back :
    (verify : List ℕ → Option ℤ) (users : List User) (allowed : List ℤ) (q : Request)
    (token : List ℕ) (a : GithubAccount) (u : User)
    → IsRowOf a (u, users)
    → q.session_cookie ≡ some token
    → verify token ≡ some u.id
    → any (λ id. same_id id a.id) allowed ≡ true
    → current verify users allowed q ≡ some u
unfolding current user_of
reads_back verify users allowed q token a u row sent verified admitted =
    let may : any (λ x. same_id x u.github_user_id) allowed ≡ true =
      rw (same_id-eq u.github_user_id a.id row.of_account) admitted in
    ground (arith, row.reads, row.is_positive_id, sent, verified, may)

-- If a signed session verifies as its user, user IDs are positive and unique, the ID of a new row
-- is free and the list does not admit the account 0, then a browser that sends back the session
-- that Callback has set is, to Current, signed in as a user with the GitHub account that was looked
-- up and admitted.
pub callback-current :
    (o : Outside) (box : Box) (allowed : List ℤ) (verify : List ℕ → Option ℤ) (d : SignInDraw)
    (r : SignIn) (s : SignInState) (q : Request) (token : List ℕ)
    → ((id : ℤ) (t : List ℕ) → o.sign id d.now d.token_id ≡ some t → verify t ≡ some id)
    → IsKeyed s.users
    → is_positive d.new_id ≡ true
    → count (λ u. same_id u.id d.new_id) s.users ≡ 0
    → any (λ id. same_id id (pos 0)) allowed ≡ false
    → first is_session (callback o box allowed d r s new_writer).0.cookies ≡ some (session_of token)
    → q.session_cookie ≡ some token
    → (h : IsAuthorized o box allowed r) × (u : User) × (current verify
          (callback o box allowed d r s new_writer).1.users
          allowed
          q
        ≡ some u)
      × (same_id u.github_user_id h.account.id ≡ true)
unfolding first
callback-current o box allowed verify d r s q token verifies keyed fresh unused no_zero sent
      carried =
    elim (callback-cases o box allowed d r s) [
      | inl (n, high, refused) ↦
          absurd (ground (arith, ap (λ w. w.cookies) refused, write_status-cookies n [] new_writer))
      | inr (h, t, signed, welcomed, users) ↦
          let row =
            first_or_create-IsRowOf d.new_id h.account s.users keyed fresh unused
              (named_account allowed h.account.id no_zero h.admitted) in
          let same_token : t ≡ token =
            ground (arith, ap (λ w. first is_session w.cookies) welcomed) in
          (
            h,
            (first_or_create d.new_id h.account s.users).0,
            rw users (
                reads_back verify (first_or_create d.new_id h.account s.users).1 allowed q token
                  h.account (first_or_create d.new_id h.account s.users).0 row carried
                  (verifies _ token (rw same_token at signed)) h.admitted),
            row.of_account,
          )
    ]
