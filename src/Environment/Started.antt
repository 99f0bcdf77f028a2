-- ===== src/Environment/Started.antt =====
-- internal/agent/supervisor.go: the user, the group and the environment that the workbench starts with.
use quickworks.Base.{
  ℕ, ◌≡◌, ◌∙◌, ap, refl, Bool, false, ◌||◌, some, List, [], ◌∷◌, if◌then◌else◌, arith, Bool-cases,
  Option-cases, inl, inr,
}
use quickworks.Text.{bytes, same, contains}
use quickworks.Text.Laws.{same-eq, same_iff}
use quickworks.Environment.{Variables, assign, lookup, variables, parse_dotenv}
use quickworks.Environment.Dotenv.{contains-key, parse_dotenv-keeps}
use quickworks.Environment.Merge.{get, merge_environment}
use quickworks.Environment.Merged.{IsUnique, AreVariables, merge_environment-get}
use quickworks.Environment.Workbench.{
  WorkbenchConfig, Account, Machine, Command, parse_uint32, read_dotenv, workbench_state_dir,
  base_path_of, login_values, additions, command_of, input_refused, command,
}

lookup-assign :
    (k j v : List ℕ) (m : Variables)
    → lookup j (assign k v m) ≡ (if same k j then some v else lookup j m)
unfolding lookup assign
lookup-assign k j v [] = ground arith
lookup-assign k j v ((i, w) ∷ m) =
    ground (arith, same_iff k j, same_iff i k, same_iff i j, lookup-assign k j v m)

assign-AreVariables :
    (k v : List ℕ) (m : Variables)
    → contains b'=' k ≡ false
    → AreVariables m
    → AreVariables (assign k v m)
unfolding assign lookup
assign-AreVariables k v [] plain h = (plain, refl, tt)
assign-AreVariables k v ((j, w) ∷ m) plain (bare, once, rest) = elim (Bool-cases (same j k)) [
  | inl t ↦ rw t (plain, rw (same-eq j k t) at once, rest)
  | inr t ↦ rw t (
    bare,
    ground (arith, lookup-assign k j v m, same_iff j k, same_iff k j),
    assign-AreVariables k v m plain rest,
  )
]

parse_dotenv-AreVariables :
    (input : List ℕ) (m : Variables) → parse_dotenv input ≡ variables m → AreVariables m
parse_dotenv-AreVariables input m ran =
    parse_dotenv-keeps AreVariables
      (λ k v m valid h. assign-AreVariables k v m (contains-key b'=' k refl valid) h) tt input m ran

login_values-AreVariables :
    (home user : List ℕ) (m : Variables) → AreVariables m → AreVariables (login_values home user m)
unfolding login_values contains
login_values-AreVariables home user m h = assign-AreVariables (bytes "LOGNAME") user _ refl (
    assign-AreVariables (bytes "USER") user _ refl
      (assign-AreVariables (bytes "HOME") home m refl h))

read_dotenv-parsed :
    (m : Machine) (path : List ℕ) (values : Variables)
    → read_dotenv m path ≡ some values
    → (input : List ℕ) × (m.read_file path ≡ some input) × (parse_dotenv input ≡ variables values)
unfolding read_dotenv
read_dotenv-parsed m path values ran = elim (Option-cases (m.read_file path)) [
  | inl gone ↦ absurd (ground arith)
  | inr (input, found) ↦ (input, found, ground arith)
]

-- The parts of a command that was made.
pub record Made (m : Machine) (c : WorkbenchConfig) (made : Command) : Type 0 where
  pub values : Variables
  pub account : Account
  pub group : List ℕ
  pub uid : ℕ
  pub gid : ℕ
  pub state_dir : List ℕ
  pub read : read_dotenv m c.env_file ≡ some values
  pub user_found : m.lookup_user c.user ≡ some account
  pub group_found : m.lookup_group c.group ≡ some group
  pub uid_parsed : parse_uint32 account.uid ≡ some uid
  pub gid_parsed : parse_uint32 group ≡ some gid
  pub accepted : input_refused c ≡ false
  pub is_made : made ≡ command_of m c values account uid gid state_dir

command-Made :
    (m : Machine) (c : WorkbenchConfig) (made : Command) → command m c ≡ some made → Made m c made
unfolding command
command-Made m c made ran = elim (Bool-cases (input_refused c)) [
  | inl refused ↦ absurd (ground arith)
  | inr accepted ↦ elim (Option-cases (read_dotenv m c.env_file)) [
    | inl unread ↦ absurd (ground arith)
    | inr (values, read) ↦ elim (Option-cases (m.lookup_user c.user)) [
      | inl nobody ↦ absurd (ground arith)
      | inr (account, user_found) ↦ elim (Option-cases (m.lookup_group c.group)) [
        | inl nobody ↦ absurd (ground arith)
        | inr (group, group_found) ↦ elim (Option-cases (parse_uint32 account.uid)) [
          | inl bad ↦ absurd (ground arith)
          | inr (uid, uid_parsed) ↦ elim (Option-cases (parse_uint32 group)) [
            | inl bad ↦ absurd (ground arith)
            | inr (gid, gid_parsed) ↦ elim (Option-cases (workbench_state_dir account.home_dir)) [
              | inl bad ↦ absurd (ground arith)
              | inr (state_dir, state_found) ↦ record {
                values = values;
                account = account;
                group = group;
                uid = uid;
                gid = gid;
                state_dir = state_dir;
                read = read;
                user_found = user_found;
                group_found = group_found;
                uid_parsed = uid_parsed;
                gid_parsed = gid_parsed;
                accepted = accepted;
                is_made = ground arith;
              }
            ]
          ]
        ]
      ]
    ]
  ]
]

lookup-login_values :
    (home user k : List ℕ) (m : Variables)
    → lookup k (login_values home user m) ≡ (
        if same (bytes "LOGNAME") k
        then some user
        else if same (bytes "USER") k
        then some user
        else if same (bytes "HOME") k
        then some home
        else lookup k m)
unfolding login_values
lookup-login_values home user k m =
    lookup-assign (bytes "LOGNAME") k user _
    ∙ ap (λ o. if same (bytes "LOGNAME") k then some user else o)
        (lookup-assign (bytes "USER") k user _
          ∙ ap (λ o. if same (bytes "USER") k then some user else o)
              (lookup-assign (bytes "HOME") k home m))

abbrev pub is_login_name : List ℕ → Bool
is_login_name k = same (bytes "LOGNAME") k || same (bytes "USER") k || same (bytes "HOME") k

merged_env : Machine → WorkbenchConfig → Variables → Account → List (List ℕ)
merged_env m c values account =
    merge_environment m.environ (login_values account.home_dir c.user values)
      (additions (base_path_of c.base_path))

merged_env-lem :
    (m : Machine) (c : WorkbenchConfig) (values : Variables) (account : Account) (input : List ℕ)
    → parse_dotenv input ≡ variables values
    → IsUnique (merged_env m c values account)
      × ((k v : List ℕ)
          → lookup k (login_values account.home_dir c.user values) ≡ some v
          → get k (merged_env m c values account) ≡ some v)
unfolding merged_env
merged_env-lem m c values account input parsed =
    let (unique, gets) =
      merge_environment-get m.environ (additions (base_path_of c.base_path))
        (login_values account.home_dir c.user values)
        (login_values-AreVariables account.home_dir c.user values
          (parse_dotenv-AreVariables input values parsed)) in
    (unique, λ k v found. gets k ∙ rw found refl)

Made-env :
    (m : Machine) (c : WorkbenchConfig) (made : Command) (parts : Made m c made)
    → made.env ≡ merged_env m c parts.values parts.account
unfolding merged_env command_of
Made-env m c made parts = ap (λ x. x.env) parts.is_made

-- A Workbench command that is made has a readable environment file and a user that is known; its
-- environment has each name once, HOME is the user's home and USER and LOGNAME the user whatever
-- the file says, and every other variable of the file has the file's value.
pub command-environment :
    (m : Machine) (c : WorkbenchConfig) (made : Command)
    → command m c ≡ some made
    → (values : Variables) × (account : Account) × (read_dotenv m c.env_file ≡ some values)
      × (m.lookup_user c.user ≡ some account)
      × IsUnique made.env
      × (get (bytes "HOME") made.env ≡ some account.home_dir)
      × (get (bytes "USER") made.env ≡ some c.user)
      × (get (bytes "LOGNAME") made.env ≡ some c.user)
      × ((k v : List ℕ)
          → is_login_name k ≡ false
          → lookup k values ≡ some v
          → get k made.env ≡ some v)
unfolding same
command-environment m c made ran =
    let parts = command-Made m c made ran in
    let (input, found, parsed) = read_dotenv-parsed m c.env_file parts.values parts.read in
    let (unique, gets) = merged_env-lem m c parts.values parts.account input parsed in
    (
      parts.values,
      parts.account,
      parts.read,
      parts.user_found,
      rw (Made-env m c made parts) unique,
      ap (get _) (Made-env m c made parts)
          ∙ gets (bytes "HOME") parts.account.home_dir (lookup-login_values _ _ (bytes "HOME") _),
      ap (get _) (Made-env m c made parts)
          ∙ gets (bytes "USER") c.user (lookup-login_values _ _ (bytes "USER") _),
      ap (get _) (Made-env m c made parts)
          ∙ gets (bytes "LOGNAME") c.user (lookup-login_values _ _ (bytes "LOGNAME") _),
      λ k v other value.
          ap (get k) (Made-env m c made parts)
          ∙ gets k v (lookup-login_values _ _ k _ ∙ ground arith),
    )
