-- ===== src/SelfUpdate/Machine.antt =====
-- internal/agent/selfupdate.go: replaceExecutable, writeUpdateMarker, UpdateSelf and
-- MaintainSelfUpdate. A Disk says which of the calls on its files succeed; os.Remove of a file does.
use quickworks.Base.{
  ℕ, String, Bool, true, false, not, ◌&&◌, ◌||◌, Option, none, some, List, [], ◌∷◌, ◌++◌, ◌==◌,
  if◌then◌else◌,
}
use quickworks.Text.{bytes, same, has_prefix}
use quickworks.Environment.{trim_start, trim_end}
use quickworks.SelfUpdate.{Response, Item, fetch_checksum, download_agent_binary}

-- What lies at the path of the executable; a link leads to the content of a file or to none.
pub data Node : Type 0 where
  missing : Node
  regular : List ℕ → ℕ → Node
  link : Option (List ℕ) → Node
  other : Node

pub data Stored : Type 0 where
  absent unreadable : Stored
  content : List ℕ → Stored

pub record Machine : Type 0 where
  pub executable : Node
  pub marker : Stored
  pub temporary : Option (List ℕ × ℕ)
  pub marker_temporary : Option (List ℕ)

pub record Disk : Type 0 where
  pub makes_directory : Bool
  pub creates : Bool
  pub writes : Bool
  pub changes_mode : Bool
  pub syncs : Bool
  pub closes : Bool
  pub renames : Bool

abbrev pub drop_temporary : Machine → Machine
drop_temporary m = record m { temporary = none }

abbrev pub drop_marker_temporary : Machine → Machine
drop_marker_temporary m = record m { marker_temporary = none }

-- replaceExecutable on a regular file, with its deferred os.Remove; true for no error.
unfoldable pub replace_regular : Disk → List ℕ → Machine → Bool × Machine
replace_regular d binary m =
    let created : Machine = record m { temporary = some ([], 384) } in
    let written : Machine = record created { temporary = some (binary, 384) } in
    let executable : Machine = record written { temporary = some (binary, 493) } in
    let renamed : Machine = record executable {
      executable = regular binary 493;
      temporary = none;
    } in
    if not d.creates
    then (false, m)
    else (if not d.writes
        then (false, drop_temporary created)
        else (if not d.changes_mode
            then (false, drop_temporary written)
            else (if not d.syncs || not d.closes || not d.renames
                then (false, drop_temporary executable)
                else (true, drop_temporary renamed))))

abbrev pub is_regular_file : Node → Bool
is_regular_file (regular file mode) = true
is_regular_file _ = false

-- replaceExecutable
unfoldable pub replace_executable : Disk → List ℕ → Machine → Bool × Machine
replace_executable d binary m =
    if is_regular_file m.executable then replace_regular d binary m else (false, m)

-- writeUpdateMarker
unfoldable pub write_update_marker : Disk → List ℕ → Machine → Bool × Machine
write_update_marker d checksum m =
    let line = checksum ++ 10 ∷ [] in
    let created : Machine = record m { marker_temporary = some [] } in
    let written : Machine = record created { marker_temporary = some line } in
    let renamed : Machine = record written { marker = content line; marker_temporary = none } in
    if not d.makes_directory || not d.creates
    then (false, m)
    else (if not d.changes_mode || not d.writes
        then (false, drop_marker_temporary created)
        else (if not d.closes || not d.renames
            then (false, drop_marker_temporary written)
            else (true, drop_marker_temporary renamed)))

-- The agent control URL, as url.Parse reads it.
pub record Url : Type 0 where
  pub scheme : String
  pub host : String

abbrev pub is_control_url : Option Url → Bool
is_control_url none = false
is_control_url (some u) = (u.scheme == "https" || u.scheme == "http") && not (u.host == "")

pub data Checked : Type 0 where
  failed unchanged updated : Checked

-- The answers to the two requests of a check, and the disks of the executable and of the marker.
pub record Round : Type 0 where
  pub checksum : Option Response
  pub archive : Option Response
  pub disk : Disk
  pub marker_disk : Disk

pub data Marked : Type 0 where
  current stale unknown : Marked

-- What the marker says of a checksum.
unfoldable pub read_marker : Stored → List ℕ → Marked
read_marker absent checksum = stale
read_marker unreadable checksum = unknown
read_marker (content text) checksum =
    if same (trim_end (trim_start text)) checksum then current else stale

-- fileSHA256
unfoldable pub file_sha256 : (List ℕ → List ℕ) → Node → Option (List ℕ)
file_sha256 sha256 (regular file mode) = some (sha256 file)
file_sha256 sha256 (link (some file)) = some (sha256 file)
file_sha256 sha256 _ = none

abbrev pub if_written : Bool × Machine → Checked × Machine
if_written (true, m) = (unchanged, m)
if_written (false, m) = (failed, m)

-- The marker after a replacement, whose error is only logged.
abbrev pub record_marker : Disk → List ℕ → Bool × Machine → Checked × Machine
record_marker d checksum (false, m) = (failed, m)
record_marker d checksum (true, m) = (updated, (write_update_marker d checksum m).1)

module _ (sha256 : List ℕ → List ℕ) (unpack : List ℕ → Option (List Item)) where
  -- UpdateSelf, once a binary was downloaded
  unfoldable pub install : Round → List ℕ → List ℕ → Machine → Checked × Machine
  install r checksum binary m = elim (file_sha256 sha256 m.executable) [
    | none ↦ (failed, m)
    | some digest ↦
        if same digest (sha256 binary)
        then if_written (write_update_marker r.marker_disk checksum m)
        else record_marker r.marker_disk checksum (replace_executable r.disk binary m)
  ]

  -- UpdateSelf, once the checksum is known
  unfoldable pub update_to : Round → List ℕ → Machine → Checked × Machine
  update_to r checksum m = elim (read_marker m.marker checksum) [
    | current ↦ (unchanged, m)
    | unknown ↦ (failed, m)
    | stale ↦ elim (download_agent_binary sha256 unpack r.archive checksum) [
      | none ↦ (failed, m)
      | some binary ↦ install r checksum binary m
    ]
  ]

  -- UpdateSelf
  unfoldable pub update_self : Option Url → List ℕ → Round → Machine → Checked × Machine
  update_self base path r m =
      if not (is_control_url base) || not (has_prefix (bytes "/") path)
      then (failed, m)
      else elim (fetch_checksum r.checksum) [
        | none ↦ (failed, m)
        | some checksum ↦ update_to r checksum m
      ]

  -- MaintainSelfUpdate over the rounds before its context ends: the calls of restart, and the machine.
  unfoldable pub maintain_self_update : Option Url → List ℕ → List Round → Machine → ℕ × Machine
  maintain_self_update base path [] m = (0, m)
  maintain_self_update base path (r ∷ rounds) m =
      let (checked, next) = update_self base path r m in
      let rest = maintain_self_update base path rounds next in
      elim checked [ updated ↦ (1, next) | unchanged ↦ rest | failed ↦ rest ]
