-- ===== src/Environment.antt =====
-- internal/agent/dotenv.go: ParseDotenv. A text is the list of its bytes; a map[string]string lists its
-- entries. The scanner is that of bufio, whose lines hold less than 64 KiB.
pub mod Dotenv
pub mod Merge
pub mod Merged
pub mod Workbench
pub mod Started
pub mod Restart
pub mod Examples
use quickworks.Base.{
  ℕ, zero, suc, ◌*◌, Bool, true, false, not, ◌&&◌, ◌||◌, Option, none, some, List, [], ◌∷◌, ◌++◌,
  if◌then◌else◌, ltb, leb, nat_eq, length, all,
}
use quickworks.Text.{same, has_prefix, split, cut}

abbrev pub Variables : Type 0
Variables = List (List ℕ × List ℕ)

-- values[key] = value
unfoldable pub assign : List ℕ → List ℕ → Variables → Variables
assign k v [] = (k, v) ∷ []
assign k v ((j, w) ∷ m) = let rest = assign k v m in if same j k then (k, v) ∷ m else (j, w) ∷ rest

unfoldable pub lookup : List ℕ → Variables → Option (List ℕ)
lookup k [] = none
lookup k ((j, v) ∷ m) = if same j k then some v else lookup k m

-- The ASCII white space of strings.TrimSpace.
abbrev pub is_space : ℕ → Bool
is_space c = nat_eq c b' ' || (leb 9 c && leb c 13)

unfoldable pub trim_start : List ℕ → List ℕ
trim_start [] = []
trim_start (b ∷ s) = if is_space b then trim_start s else b ∷ s

unfoldable pub trim_end : List ℕ → List ℕ
trim_end [] = []
trim_end (b ∷ s) = elim (trim_end s) [ [] ↦ if is_space b then [] else b ∷ [] | d ∷ r ↦ b ∷ d ∷ r ]

-- The scanner drops what follows the last newline if it is empty, and a carriage return before one.
unfoldable pub drop_empty_last : List (List ℕ) → List (List ℕ)
drop_empty_last [] = []
drop_empty_last ([] ∷ []) = []
drop_empty_last ((b ∷ s) ∷ []) = (b ∷ s) ∷ []
drop_empty_last (part ∷ next ∷ parts) = part ∷ drop_empty_last (next ∷ parts)

unfoldable pub drop_return : List ℕ → List ℕ
drop_return [] = []
drop_return (b ∷ []) = if nat_eq b 13 then [] else b ∷ []
drop_return (b ∷ c ∷ s) = b ∷ drop_return (c ∷ s)

abbrev pub max_scan_token_size : ℕ
max_scan_token_size = 64 * 1024

abbrev pub is_key_start : ℕ → Bool
is_key_start c = (leb b'A' c && leb c b'Z') || nat_eq c b'_'

abbrev pub is_key_byte : ℕ → Bool
is_key_byte c = is_key_start c || (leb b'0' c && leb c b'9')

unfoldable pub valid_environment_key : List ℕ → Bool
valid_environment_key [] = false
valid_environment_key (c ∷ key) = is_key_start c && all is_key_byte key

pub data Line : Type 0 where
  skipped invalid : Line
  entry : List ℕ → List ℕ → Line

abbrev pub is_comment : List ℕ → Bool
is_comment [] = true
is_comment (b ∷ s) = nat_eq b b'#'

-- One round of the loop, on a line of the scanner.
unfoldable pub parse_line : List ℕ → Line
parse_line text =
    let line = trim_end (trim_start text) in
    if is_comment line then skipped else elim (cut b'=' line) [
      | none ↦ invalid
      | some (key, value) ↦ if valid_environment_key key then entry key value else invalid
    ]

pub data Parsed : Type 0 where
  variables : Variables → Parsed
  invalid_entry : ℕ → Parsed
  line_too_long : Parsed

unfoldable pub parse_lines : ℕ → Variables → List (List ℕ) → Parsed
parse_lines line_number values [] = variables values
parse_lines line_number values (line ∷ lines) = elim (leb max_scan_token_size (length line)) [
  | true ↦ line_too_long
  | false ↦ elim (parse_line (drop_return line)) [
    | skipped ↦ parse_lines (suc line_number) values lines
    | invalid ↦ invalid_entry (suc line_number)
    | entry key value ↦ parse_lines (suc line_number) (assign key value values) lines
  ]
]

unfoldable pub parse_dotenv : List ℕ → Parsed
parse_dotenv input = parse_lines 0 [] (drop_empty_last (split 10 input))
