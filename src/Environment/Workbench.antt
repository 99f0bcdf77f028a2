-- ===== src/Environment/Workbench.antt =====
-- internal/agent/supervisor.go: Command, waitForHealth and RunWithRestart. The accounts, the files and
-- the child process are arguments; of an error only its kind is kept.
use quickworks.Base.{
  ℕ, ◌+◌, ◌-◌, ◌*◌, ◌^◌, Bool, true, false, not, ◌&&◌, ◌||◌, Option, none, some, List, [], ◌∷◌,
  if◌then◌else◌, ltb, leb,
}
use quickworks.Text.{bytes}
use quickworks.Text.Paths.{is_abs, join_path}
use quickworks.Environment.{
  Variables, assign, variables, invalid_entry, line_too_long, parse_dotenv,
}
use quickworks.Environment.Merge.{item_of, merge_environment}

pub record WorkbenchConfig : Type 0 where
  pub entrypoint : List ℕ
  pub env_file : List ℕ
  pub byok_config_file : List ℕ
  pub workspace_dir : List ℕ
  pub user : List ℕ
  pub group : List ℕ
  pub base_path : List ℕ

-- What user.Lookup knows of an account.
pub record Account : Type 0 where
  pub uid : List ℕ
  pub home_dir : List ℕ

-- `owners_set` and `settings_written`: the calls that change files succeed.
pub record Machine : Type 0 where
  pub read_file : List ℕ → Option (List ℕ)
  pub lookup_user : List ℕ → Option Account
  pub lookup_group : List ℕ → Option (List ℕ)
  pub environ : List (List ℕ)
  pub owners_set : Bool
  pub settings_written : Bool

pub record Command : Type 0 where
  pub path : List ℕ
  pub arguments : List (List ℕ)
  pub dir : List ℕ
  pub env : List (List ℕ)
  pub uid : ℕ
  pub gid : ℕ

unfoldable pub parse_digits : ℕ → List ℕ → Option ℕ
parse_digits value [] = some value
parse_digits value (c ∷ s) =
    let rest = parse_digits (value * 10 + (c - b'0')) s in
    if leb b'0' c && leb c b'9' then rest else none

-- strconv.ParseUint(s, 10, 32)
unfoldable pub parse_uint32 : List ℕ → Option ℕ
parse_uint32 [] = none
parse_uint32 (c ∷ s) = elim (parse_digits 0 (c ∷ s)) [
  | none ↦ none
  | some value ↦ if ltb value (2 ^ 32) then some value else none
]

abbrev pub is_empty : List ℕ → Bool
is_empty [] = true
is_empty (b ∷ s) = false

unfoldable pub read_dotenv : Machine → List ℕ → Option Variables
read_dotenv m path = elim (m.read_file path) [
  | none ↦ none
  | some input ↦ elim (parse_dotenv input) [
    | variables values ↦ some values
    | invalid_entry line ↦ none
    | line_too_long ↦ none
  ]
]

unfoldable pub workbench_state_dir : List ℕ → Option (List ℕ)
workbench_state_dir home_dir =
    if is_abs home_dir then some (join_path home_dir (bytes ".quickworks")) else none

abbrev pub base_path_of : List ℕ → List ℕ
base_path_of [] = bytes "/"
base_path_of (b ∷ path) = b ∷ path

-- `values` with HOME, USER and LOGNAME.
unfoldable pub login_values : List ℕ → List ℕ → Variables → Variables
login_values home user values =
    assign (bytes "LOGNAME") user (assign (bytes "USER") user (assign (bytes "HOME") home values))

unfoldable pub arguments_of : WorkbenchConfig → List ℕ → List (List ℕ)
arguments_of c state_dir =
    bytes "--auth"
    ∷ bytes "none"
    ∷ bytes "--bind-addr"
    ∷ bytes "127.0.0.1:3000"
    ∷ bytes "--disable-update-check"
    ∷ bytes "--agents-byok-config"
    ∷ c.byok_config_file
    ∷ bytes "--user-data-dir"
    ∷ join_path state_dir (bytes "user-data")
    ∷ bytes "--extensions-dir"
    ∷ join_path state_dir (bytes "extensions")
    ∷ c.workspace_dir
    ∷ []

abbrev pub additions : List ℕ → List (List ℕ)
additions base_path =
    item_of (bytes "WORKBENCH_BASE_PATH") base_path
    ∷ item_of (bytes "VSCODE_AGENT_HOST_BYOK_MODELS_ENABLED") (bytes "true")
    ∷ []

unfoldable pub command_of :
    Machine → WorkbenchConfig → Variables → Account → ℕ → ℕ → List ℕ → Command
command_of m c values account uid gid state_dir = record {
  path = c.entrypoint;
  arguments = arguments_of c state_dir;
  dir = c.workspace_dir;
  env =
      merge_environment m.environ (login_values account.home_dir c.user values)
        (additions (base_path_of c.base_path));
  uid = uid;
  gid = gid;
}

abbrev pub input_refused : WorkbenchConfig → Bool
input_refused c =
    not (is_abs c.entrypoint)
    || not (is_abs c.env_file)
    || not (is_abs c.byok_config_file)
    || not (is_abs c.workspace_dir)
    || is_empty c.user
    || is_empty c.group

-- WorkbenchConfig.Command
unfoldable pub command : Machine → WorkbenchConfig → Option Command
command m c = if input_refused c then none else elim (read_dotenv m c.env_file) [
  | none ↦ none
  | some values ↦ elim (m.lookup_user c.user) [
    | none ↦ none
    | some account ↦ elim (m.lookup_group c.group) [
      | none ↦ none
      | some group ↦ elim (parse_uint32 account.uid) [
        | none ↦ none
        | some uid ↦ elim (parse_uint32 group) [
          | none ↦ none
          | some gid ↦ elim (workbench_state_dir account.home_dir) [
            | none ↦ none
            | some state_dir ↦
                if m.owners_set && m.settings_written && is_abs (base_path_of c.base_path)
                then some (command_of m c values account uid gid state_dir)
                else none
          ]
        ]
      ]
    ]
  ]
]
