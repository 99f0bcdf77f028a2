-- ===== src/SelfUpdate/Examples.antt =====
-- One release of a server: a check that installs it, a check that finds it installed, and the rounds.
use quickworks.Base.{ℕ, true, false, Option, none, some, List, [], ◌∷◌, ◌++◌, if◌then◌else◌, nat_eq}
use quickworks.Text.{bytes}
use quickworks.SelfUpdate.{Response, Item, entry}
use quickworks.SelfUpdate.Machine.{regular, absent, content, Machine, Disk, Url, Round, update_self}
use quickworks.SelfUpdate.Released.{IsChecked, update_self-IsChecked}

abbrev eight : ℕ → List ℕ
eight c = c ∷ c ∷ c ∷ c ∷ c ∷ c ∷ c ∷ c ∷ []

abbrev sixty_four : ℕ → List ℕ
sixty_four c = eight c ++ eight c ++ eight c ++ eight c ++ eight c ++ eight c ++ eight c ++ eight c

abbrev sha256 : List ℕ → List ℕ
sha256 [] = sixty_four b'a'
sha256 (b ∷ s) = if nat_eq b 1 then sixty_four b'b' else sixty_four b'c'

abbrev unpack : List ℕ → Option (List Item)
unpack archive = some (
    entry (record { name = bytes "quickworks"; is_regular = true; size = 2 })
      (record { sent = 2 ∷ 3 ∷ []; breaks = false })
    ∷ [])

abbrev answer : List ℕ → Option Response
answer body =
    some (record {
      status = 200;
      content_length = none;
      body = record { sent = body; breaks = false };
    })

abbrev working : Disk
working = record {
  makes_directory = true;
  creates = true;
  writes = true;
  changes_mode = true;
  syncs = true;
  closes = true;
  renames = true;
}

abbrev round : Round
round = record {
  checksum = answer (sixty_four b'B' ++ bytes "  archive");
  archive = answer (1 ∷ []);
  disk = working;
  marker_disk = working;
}

abbrev old : Machine
old = record {
  executable = regular [] 493;
  marker = absent;
  temporary = none;
  marker_temporary = none;
}

abbrev new : Machine
new = record old {
  executable = regular (2 ∷ 3 ∷ []) 493;
  marker = content (sixty_four b'b' ++ 10 ∷ []);
}

abbrev control_url : Option Url
control_url = some (record { scheme = "https"; host = "quickworks.example" })

abbrev path : List ℕ
path = bytes "/usr/local/bin/quickworks"

update_self-IsChecked_example :
    IsChecked sha256 unpack round old (update_self sha256 unpack control_url path round old)
update_self-IsChecked_example = update_self-IsChecked sha256 unpack control_url path round old
