-- ===== src/SelfUpdate/Again.antt =====
-- internal/agent/selfupdate.go: the marker, which a second check of the same release reads.
use quickworks.Base.{
  ℕ, ◌≡◌, ◌≢◌, inl, inr, refl, ap, Bool, true, false, not, ◌&&◌, ◌||◌, Option, none, some, List, [],
  ◌∷◌, ◌++◌, map, all, arith, Bool-cases, Option-cases,
}
use quickworks.Text.{bytes, same, has_prefix, to_lower}
use quickworks.Text.Laws.{same_self}
use quickworks.Environment.{is_space, trim_start, trim_end}
use quickworks.SelfUpdate.{
  Response, Item, is_hex_digit, decodes_hex, fields, checksum_of, read_limited, fetch_checksum,
  download_agent_binary,
}
use quickworks.SelfUpdate.Released.{Marked-cases}
use quickworks.SelfUpdate.Machine.{
  content, Machine, Disk, replace_executable, write_update_marker, Url, Checked, failed, unchanged,
  Round, read_marker, current, file_sha256, if_written, record_marker, is_control_url, install,
  update_to, update_self,
}

-- A lowered digit is no white space.
lowered :
    (f : List ℕ) → all is_hex_digit f ≡ true → all (λ c. not (is_space c)) (map to_lower f) ≡ true
lowered [] h = refl
lowered (c ∷ f) h = ground (arith, lowered f)

trim_end-newline : (s : List ℕ) → all (λ c. not (is_space c)) s ≡ true → trim_end (s ++ 10 ∷ []) ≡ s
unfolding trim_end
trim_end-newline [] h = refl
trim_end-newline (b ∷ []) h = ground arith
trim_end-newline (b ∷ c ∷ s) h = rw (trim_end-newline (c ∷ s) (ground arith)) refl

trims :
    (s : List ℕ) → all (λ c. not (is_space c)) s ≡ true → trim_end (trim_start (s ++ 10 ∷ [])) ≡ s
unfolding trim_start trim_end
trims [] h = refl
trims (b ∷ s) h =
    let solid : is_space b ≡ false = ground arith in rw solid (trim_end-newline (b ∷ s) h)

checksum_of-solid :
    (fs : List (List ℕ)) (checksum : List ℕ)
    → checksum_of fs ≡ some checksum
    → all (λ c. not (is_space c)) checksum ≡ true
unfolding checksum_of decodes_hex
checksum_of-solid [] checksum h = absurd (ground arith)
checksum_of-solid (f ∷ fs) checksum h = ground (arith, lowered f)

fetch_checksum-solid :
    (response : Option Response) (checksum : List ℕ)
    → fetch_checksum response ≡ some checksum
    → all (λ c. not (is_space c)) checksum ≡ true
unfolding fetch_checksum
fetch_checksum-solid none checksum h = absurd (ground arith)
fetch_checksum-solid (some response) checksum h =
    elim (Option-cases (read_limited 1024 response.body)) [
      | inl broken ↦ absurd (ground arith)
      | inr (text, read) ↦ checksum_of-solid (fields text) checksum (ground arith)
    ]

abbrev works : Disk → Bool
works d = d.makes_directory && d.creates && d.changes_mode && d.writes && d.closes && d.renames

write_update_marker-marker :
    (d : Disk) (checksum : List ℕ) (m : Machine)
    → works d ≡ true
    → (write_update_marker d checksum m).1.marker ≡ content (checksum ++ 10 ∷ [])
unfolding write_update_marker
write_update_marker-marker d checksum m h = ground arith

written-reads :
    (d : Disk) (checksum : List ℕ) (m : Machine)
    → works d ≡ true
    → all (λ c. not (is_space c)) checksum ≡ true
    → read_marker (write_update_marker d checksum m).1.marker checksum ≡ current
unfolding read_marker
written-reads d checksum m h solid =
    rw
      (
        write_update_marker-marker d checksum m h,
        read_marker,
        trims checksum solid,
        same_self checksum,
      )
      refl

if_written-reads :
    (checksum : List ℕ) (result : Bool × Machine) (c : Checked) (m' : Machine)
    → read_marker result.1.marker checksum ≡ current
    → if_written result ≡ (c, m')
    → read_marker m'.marker checksum ≡ current
if_written-reads checksum (true, m) c m' reads h = rw (ap (λ p. p.1) h) at reads
if_written-reads checksum (false, m) c m' reads h = rw (ap (λ p. p.1) h) at reads

record_marker-reads :
    (d : Disk) (checksum : List ℕ) (result : Bool × Machine) (c : Checked) (m' : Machine)
    → works d ≡ true
    → all (λ c. not (is_space c)) checksum ≡ true
    → record_marker d checksum result ≡ (c, m')
    → c ≢ failed
    → read_marker m'.marker checksum ≡ current
record_marker-reads d checksum (false, m) c m' works_well solid h done = absurd (ground arith)
record_marker-reads d checksum (true, m) c m' works_well solid h done =
    rw (ap (λ p. p.1) h) at (written-reads d checksum m works_well solid)

module _ (sha256 : List ℕ → List ℕ) (unpack : List ℕ → Option (List Item)) where
  install-reads :
      (r : Round) (checksum binary : List ℕ) (m m' : Machine) (c : Checked)
      → works r.marker_disk ≡ true
      → all (λ c. not (is_space c)) checksum ≡ true
      → install sha256 unpack r checksum binary m ≡ (c, m')
      → c ≢ failed
      → read_marker m'.marker checksum ≡ current
  unfolding install
  install-reads r checksum binary m m' c works_well solid h done =
      elim (Option-cases (file_sha256 sha256 m.executable)) [
        | inl unread ↦ absurd (ground arith)
        | inr (digest, read) ↦ elim (Bool-cases (same digest (sha256 binary))) [
          | inl equal ↦
              if_written-reads checksum (write_update_marker r.marker_disk checksum m) c m'
                (written-reads r.marker_disk checksum m works_well solid)
                (rw (read, equal, install) at h)
          | inr differs ↦
              record_marker-reads r.marker_disk checksum (replace_executable r.disk binary m) c m'
                works_well solid (rw (read, differs, install) at h) done
        ]
      ]

  update_to-reads :
      (r : Round) (checksum : List ℕ) (m m' : Machine) (c : Checked)
      → works r.marker_disk ≡ true
      → all (λ c. not (is_space c)) checksum ≡ true
      → update_to sha256 unpack r checksum m ≡ (c, m')
      → c ≢ failed
      → read_marker m'.marker checksum ≡ current
  unfolding update_to
  update_to-reads r checksum m m' c works_well solid h done =
      elim (Marked-cases (read_marker m.marker checksum)) [
        | inl is_current ↦ ground (arith, h, is_current)
        | inr (inl is_unknown) ↦ absurd (ground arith)
        | inr (inr is_stale) ↦
            elim (Option-cases (download_agent_binary sha256 unpack r.archive checksum)) [
              | inl lost ↦ absurd (ground arith)
              | inr (binary, found) ↦
                  install-reads r checksum binary m m' c works_well solid
                    (rw (is_stale, found, update_to) at h) done
            ]
      ]

  -- After a check that did not fail and whose marker could be written, a check that gets the same
  -- checksum finds no update and changes nothing, whatever the archive would be.
  pub update_self_again :
      (base : Option Url) (path : List ℕ) (r r' : Round) (m m' : Machine) (c : Checked)
      → update_self sha256 unpack base path r m ≡ (c, m')
      → c ≢ failed
      → works r.marker_disk ≡ true
      → r'.checksum ≡ r.checksum
      → update_self sha256 unpack base path r' m' ≡ (unchanged, m')
  unfolding update_self update_to
  update_self_again base path r r' m m' c h done works_well repeated =
      elim (Bool-cases (not (is_control_url base) || not (has_prefix (bytes "/") path))) [
        | inl bad ↦ absurd (ground arith)
        | inr good ↦ elim (Option-cases (fetch_checksum r.checksum)) [
          | inl none_fetched ↦ absurd (ground arith)
          | inr (checksum, fetched) ↦
              let reads =
                update_to-reads r checksum m m' c works_well
                  (fetch_checksum-solid r.checksum checksum fetched) (rw (good, fetched) at h)
                  done in
              rw (good, repeated, fetched, update_to, reads) refl
        ]
      ]
