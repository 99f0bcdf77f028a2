-- ===== src/Identity.antt =====
-- internal/agent/identity.go: LoadOrCreateIdentity, over the key file of the state directory. An attempt
-- holds what its calls come to, and another process may make the file while it runs.
pub mod Kept
mod Examples
use quickworks.Base.{
  ℕ, Bool, true, false, not, ◌||◌, Option, none, some, List, [], ◌∷◌, if◌then◌else◌, length, take,
  nat_eq,
}

-- The file, with its permissions.
pub data KeyFile : Type 0 where
  absent unreadable : KeyFile
  stored : List ℕ → ℕ → KeyFile

-- A key that is generated, the file that appeared before the open, and how many bytes of a write that
-- fails arrive.
pub record FileCalls : Type 0 where
  pub makes_directory : Bool
  pub stats : Bool
  pub generated : Option (List ℕ)
  pub appeared : Option KeyFile
  pub opens : Bool
  pub cut_at : Option ℕ
  pub closes : Bool

pub data Loaded : Type 0 where
  failed : Loaded
  identity : List ℕ → Loaded
  repeated : Loaded

abbrev pub private_key_size : ℕ
private_key_size = 64

-- The key of a file that was read
unfoldable pub read_identity : FileCalls → List ℕ → ℕ → Loaded
read_identity a key permissions =
    if not a.stats || not (nat_eq permissions 384) || not (nat_eq (length key) private_key_size)
    then failed
    else identity key

-- What follows the creation of the file
unfoldable pub write_identity : FileCalls → List ℕ → Loaded × KeyFile
write_identity a key = elim a.cut_at [
  | some n ↦ (failed, stored (take n key) 384)
  | none ↦ if a.closes then (identity key, stored key 384) else (failed, stored key 384)
]

-- The open with O_EXCL, of a file that was not there
unfoldable pub create_identity : FileCalls → Loaded × KeyFile
create_identity a = elim a.generated [
  | none ↦ (failed, absent)
  | some key ↦ elim a.appeared [
    | some file ↦ (repeated, file)
    | none ↦ if a.opens then write_identity a key else (failed, absent)
  ]
]

-- One call up to its call of itself
unfoldable pub load_once : FileCalls → KeyFile → Loaded × KeyFile
load_once a file = if not a.makes_directory then (failed, file) else elim file [
  | unreadable ↦ (failed, unreadable)
  | stored key permissions ↦ (read_identity a key permissions, stored key permissions)
  | absent ↦ create_identity a
]

-- LoadOrCreateIdentity; `repeated` if the attempts that are listed do not end it
unfoldable pub load_or_create_identity : List FileCalls → KeyFile → Loaded × KeyFile
load_or_create_identity [] file = (repeated, file)
load_or_create_identity (a ∷ attempts) file =
    let (result, next) = load_once a file in
    let rest = load_or_create_identity attempts next in
    elim result [ repeated ↦ rest | failed ↦ (failed, next) | identity key ↦ (identity key, next) ]
