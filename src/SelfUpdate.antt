-- ===== src/SelfUpdate.antt =====
-- internal/agent/selfupdate.go: a check for an update, over the responses of the server and the files
-- of the VM. An error is only logged, so it is `none` or `failed`. `sha256` gives hexadecimal digits,
-- `unpack` stands for gzip and tar: the entries of an archive up to its end or to damage.
pub mod Machine
pub mod Released
pub mod Again
mod Examples
use quickworks.Base.{
  ℕ, ◌+◌, ◌*◌, ◌%◌, Bool, true, false, not, ◌&&◌, ◌||◌, Option, none, some, List, [], ◌∷◌,
  if◌then◌else◌, map, all, length, take, ltb, leb, nat_eq,
}
use quickworks.Text.{bytes, same, to_lower}
use quickworks.Environment.{is_space}

-- A body: the bytes that arrive, and whether an error follows them in place of its end.
pub record Stream : Type 0 where
  pub sent : List ℕ
  pub breaks : Bool

-- io.ReadAll(io.LimitReader(body, n)), which does not look behind its n bytes
unfoldable pub read_limited : ℕ → Stream → Option (List ℕ)
read_limited n body =
    if body.breaks && ltb (length body.sent) n then none else some (take n body.sent)

-- An answer of the server; an unknown length is `none`.
pub record Response : Type 0 where
  pub status : ℕ
  pub content_length : Option ℕ
  pub body : Stream

abbrev pub max_agent_archive_bytes : ℕ
max_agent_archive_bytes = 128 * 1048576

abbrev pub starts_field : List ℕ → Bool
starts_field [] = false
starts_field (b ∷ s) = not (is_space b)

abbrev pub prepend : ℕ → List (List ℕ) → List (List ℕ)
prepend b [] = []
prepend b (f ∷ fs) = (b ∷ f) ∷ fs

-- strings.Fields, with ASCII white space
unfoldable pub fields : List ℕ → List (List ℕ)
fields [] = []
fields (b ∷ s) =
    let rest = fields s in
    if is_space b then rest else (if starts_field s then prepend b rest else (b ∷ []) ∷ rest)

abbrev pub is_hex_digit : ℕ → Bool
is_hex_digit c =
    (leb b'0' c && leb c b'9') || (leb b'a' c && leb c b'f') || (leb b'A' c && leb c b'F')

-- Whether hex.DecodeString accepts the text.
unfoldable pub decodes_hex : List ℕ → Bool
decodes_hex s = nat_eq (length s % 2) 0 && all is_hex_digit s

unfoldable pub checksum_of : List (List ℕ) → Option (List ℕ)
checksum_of [] = none
checksum_of (f ∷ fs) =
    if not (nat_eq (length f) 64) || not (decodes_hex f) then none else some (map to_lower f)

-- fetchChecksum; `none` is a failed request
unfoldable pub fetch_checksum : Option Response → Option (List ℕ)
fetch_checksum none = none
fetch_checksum (some response) =
    if not (nat_eq response.status 200) then none else elim (read_limited 1024 response.body) [
      | none ↦ none
      | some content ↦ checksum_of (fields content)
    ]

pub record Header : Type 0 where
  pub name : List ℕ
  pub is_regular : Bool
  pub size : ℕ

-- What tarReader.Next gives before the end of the archive.
pub data Item : Type 0 where
  entry : Header → Stream → Item
  damaged : Item

abbrev pub has_layout : Header → Bool
has_layout h =
    same h.name (bytes "quickworks")
    && h.is_regular
    && leb 1 h.size
    && leb h.size max_agent_archive_bytes

abbrev pub at_end : List Item → Bool
at_end [] = true
at_end _ = false

-- The binary, if the entry holds all of it and the archive ends there.
unfoldable pub read_binary : ℕ → List Item → Option (List ℕ) → Option (List ℕ)
read_binary size rest none = none
read_binary size rest (some binary) =
    if not (nat_eq (length binary) size) || not (at_end rest) then none else some binary

unfoldable pub extract_items : List Item → Option (List ℕ)
extract_items [] = none
extract_items (damaged ∷ rest) = none
extract_items (entry h content ∷ rest) =
    if not (has_layout h) then none else read_binary h.size rest (read_limited (h.size + 1) content)

module _ (sha256 : List ℕ → List ℕ) (unpack : List ℕ → Option (List Item)) where
  -- extractAgentBinary
  unfoldable pub extract_agent_binary : List ℕ → Option (List ℕ)
  extract_agent_binary archive = elim (unpack archive) [
    | none ↦ none
    | some items ↦ extract_items items
  ]

  -- The archive of a response, if its size and checksum are right.
  unfoldable pub check_archive : List ℕ → Option (List ℕ) → Option (List ℕ)
  check_archive expected none = none
  check_archive expected (some archive) =
      if ltb max_agent_archive_bytes (length archive) || not (same (sha256 archive) expected)
      then none
      else extract_agent_binary archive

  abbrev pub is_too_long : Option ℕ → Bool
  is_too_long none = false
  is_too_long (some n) = ltb max_agent_archive_bytes n

  -- downloadAgentBinary
  unfoldable pub download_agent_binary : Option Response → List ℕ → Option (List ℕ)
  download_agent_binary none expected = none
  download_agent_binary (some response) expected =
      if not (nat_eq response.status 200) || is_too_long response.content_length
      then none
      else check_archive expected (read_limited (max_agent_archive_bytes + 1) response.body)
