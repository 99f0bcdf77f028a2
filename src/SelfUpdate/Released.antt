-- ===== src/SelfUpdate/Released.antt =====
-- internal/agent/selfupdate.go: what the executable is replaced by, and when the agent restarts.
use quickworks.Base.{
  ℕ, ◌+◌, ◌≡◌, ◌≢◌, ◌⊎◌, inl, inr, refl, ◌∙◌, Bool, true, false, not, ◌||◌, Option, none, some,
  List, [], ◌∷◌, length, arith, Bool-cases, Option-cases,
}
use quickworks.Text.{bytes, same, has_prefix}
use quickworks.Text.Laws.{same_self}
use quickworks.SelfUpdate.{
  Stream, Response, Header, Item, entry, damaged, read_limited, fetch_checksum,
  max_agent_archive_bytes, has_layout, read_binary, extract_items, extract_agent_binary,
  check_archive, download_agent_binary,
}
use quickworks.SelfUpdate.Machine.{
  regular, Machine, Disk, replace_regular, replace_executable, write_update_marker, Url, Checked,
  failed, unchanged, updated, Round, read_marker, Marked, current, stale, unknown, file_sha256,
  if_written, record_marker, is_control_url, install, update_to, update_self, maintain_self_update,
}

write_update_marker-executable :
    (d : Disk) (checksum : List ℕ) (m : Machine)
    → (write_update_marker d checksum m).1.executable ≡ m.executable
unfolding write_update_marker
write_update_marker-executable d checksum m = ground arith

pub Marked-cases : (k : Marked) → (k ≡ current) ⊎ ((k ≡ unknown) ⊎ (k ≡ stale))
Marked-cases current = inl refl
Marked-cases unknown = inr (inl refl)
Marked-cases stale = inr (inr refl)

module _ (sha256 : List ℕ → List ℕ) (unpack : List ℕ → Option (List Item)) where
  -- A binary that is all there is in an archive of the checksum.
  pub record IsRelease (checksum binary : List ℕ) : Type 0 where
    pub archive : List ℕ
    pub header : Header
    pub stream : Stream
    pub digest : same (sha256 archive) checksum ≡ true
    pub unpacked : unpack archive ≡ some (entry header stream ∷ [])
    pub layout : has_layout header ≡ true
    pub content : read_limited (header.size + 1) stream ≡ some binary
    pub whole : length binary ≡ header.size

  extract_items-IsRelease :
      (archive checksum binary : List ℕ) (items : List Item)
      → same (sha256 archive) checksum ≡ true
      → unpack archive ≡ some items
      → extract_items items ≡ some binary
      → IsRelease checksum binary
  unfolding extract_items read_binary
  extract_items-IsRelease archive checksum binary [] digest unpacked h = absurd (ground arith)
  extract_items-IsRelease archive checksum binary (damaged ∷ rest) digest unpacked h =
      absurd (ground arith)
  extract_items-IsRelease archive checksum binary (entry header stream ∷ []) digest unpacked h =
      elim (Option-cases (read_limited (header.size + 1) stream)) [
        | inl broken ↦ absurd (ground arith)
        | inr (found, read) ↦ record {
          archive = archive;
          header = header;
          stream = stream;
          digest = digest;
          unpacked = unpacked;
          layout = ground arith;
          content = ground arith;
          whole = ground arith;
        }
      ]
  extract_items-IsRelease archive checksum binary (entry header stream ∷ next ∷ rest) digest
        unpacked h =
      elim (Option-cases (read_limited (header.size + 1) stream)) [
        | inl broken ↦ absurd (ground arith)
        | inr (found, read) ↦ absurd (ground arith)
      ]

  download_agent_binary-IsRelease :
      (response : Option Response) (checksum binary : List ℕ)
      → download_agent_binary sha256 unpack response checksum ≡ some binary
      → IsRelease checksum binary
  unfolding download_agent_binary check_archive extract_agent_binary
  download_agent_binary-IsRelease none checksum binary h = absurd (ground arith)
  download_agent_binary-IsRelease (some response) checksum binary h =
      elim (Option-cases (read_limited (max_agent_archive_bytes + 1) response.body)) [
        | inl broken ↦ absurd (ground arith)
        | inr (archive, read) ↦ elim (Option-cases (unpack archive)) [
          | inl packed ↦ absurd (ground arith)
          | inr (items, unpacked) ↦
              extract_items-IsRelease archive checksum binary items (ground arith) unpacked
                (ground arith)
        ]
      ]

  -- What a check does to the executable: nothing, or it installs a release and says so.
  pub data IsChecked (r : Round) (m : Machine) : Checked × Machine → Type 0 where
    kept :
        (c : Checked) (m' : Machine)
        → c ≢ updated
        → m'.executable ≡ m.executable
        → IsChecked r m (c, m')
    replaced :
        (checksum binary : List ℕ) (m' : Machine)
        → fetch_checksum r.checksum ≡ some checksum
        → IsRelease checksum binary
        → file_sha256 sha256 m.executable ≢ some (sha256 binary)
        → m'.executable ≡ regular binary 493
        → IsChecked r m (updated, m')

  keep : (r : Round) (m : Machine) → IsChecked r m (failed, m)
  keep r m = kept failed m (ground arith) refl

  written-IsChecked :
      (r : Round) (m : Machine) (result : Bool × Machine)
      → result.1.executable ≡ m.executable
      → IsChecked r m (if_written result)
  written-IsChecked r m (true, m') same = kept unchanged m' (ground arith) same
  written-IsChecked r m (false, m') same = kept failed m' (ground arith) same

  -- A replacement that fails leaves the executable; one that succeeds is the new file.
  replace_executable-cases :
      (d : Disk) (binary : List ℕ) (m : Machine)
      → ((replace_executable d binary m).0 ≡ false)
          × ((replace_executable d binary m).1.executable ≡ m.executable)
        ⊎ ((replace_executable d binary m).0 ≡ true)
          × ((replace_executable d binary m).1.executable ≡ regular binary 493)
  unfolding replace_executable replace_regular
  replace_executable-cases d binary m = ground arith

  recorded-IsChecked :
      (r : Round) (m : Machine) (d : Disk) (checksum binary : List ℕ) (result : Bool × Machine)
      → (result.0 ≡ false) × (result.1.executable ≡ m.executable)
        ⊎ (result.0 ≡ true) × (result.1.executable ≡ regular binary 493)
      → fetch_checksum r.checksum ≡ some checksum
      → IsRelease checksum binary
      → file_sha256 sha256 m.executable ≢ some (sha256 binary)
      → IsChecked r m (record_marker d checksum result)
  recorded-IsChecked r m d checksum binary (false, m') cases fetched release differs =
      kept failed m' (ground arith) (ground (arith, cases))
  recorded-IsChecked r m d checksum binary (true, m') cases fetched release differs =
      replaced checksum binary (write_update_marker d checksum m').1 fetched release differs
        (write_update_marker-executable d checksum m' ∙ ground (arith, cases))

  install-IsChecked :
      (r : Round) (m : Machine) (checksum binary : List ℕ)
      → fetch_checksum r.checksum ≡ some checksum
      → IsRelease checksum binary
      → IsChecked r m (install sha256 unpack r checksum binary m)
  unfolding install
  install-IsChecked r m checksum binary fetched release =
      elim (Option-cases (file_sha256 sha256 m.executable)) [
        | inl unread ↦ rw (unread, install) (keep r m)
        | inr (digest, read) ↦ elim (Bool-cases (same digest (sha256 binary))) [
          | inl equal ↦
              rw (read, equal, install)
                (written-IsChecked r m _ (write_update_marker-executable r.marker_disk checksum m))
          | inr differs ↦
              rw (read, differs, install)
                (recorded-IsChecked r m r.marker_disk checksum binary _
                  (replace_executable-cases r.disk binary m) fetched release
                  (λ e. ground (arith, same_self digest)))
        ]
      ]

  update_to-IsChecked :
      (r : Round) (m : Machine) (checksum : List ℕ)
      → fetch_checksum r.checksum ≡ some checksum
      → IsChecked r m (update_to sha256 unpack r checksum m)
  unfolding update_to
  update_to-IsChecked r m checksum fetched = elim (Marked-cases (read_marker m.marker checksum)) [
    | inl is_current ↦ rw (is_current, update_to) (kept unchanged m (ground arith) refl)
    | inr (inl is_unknown) ↦ rw (is_unknown, update_to) (keep r m)
    | inr (inr is_stale) ↦
        elim (Option-cases (download_agent_binary sha256 unpack r.archive checksum)) [
          | inl lost ↦ rw (is_stale, lost, update_to) (keep r m)
          | inr (binary, found) ↦
              rw (is_stale, found, update_to)
                (install-IsChecked r m checksum binary fetched
                  (download_agent_binary-IsRelease r.archive checksum binary found))
        ]
  ]

  -- Whatever the server answers and whichever calls fail, a check either leaves the executable as
  -- it was and does not report an update, or reports one and has put in its place, with mode 0755,
  -- a binary of another digest that is the whole content of an archive of the fetched checksum.
  pub update_self-IsChecked :
      (base : Option Url) (path : List ℕ) (r : Round) (m : Machine)
      → IsChecked r m (update_self sha256 unpack base path r m)
  unfolding update_self
  update_self-IsChecked base path r m =
      elim (Bool-cases (not (is_control_url base) || not (has_prefix (bytes "/") path))) [
        | inl bad ↦ rw bad (keep r m)
        | inr good ↦ elim (Option-cases (fetch_checksum r.checksum)) [
          | inl none_fetched ↦ rw (good, none_fetched) (keep r m)
          | inr (checksum, fetched) ↦ rw (good, fetched) (update_to-IsChecked r m checksum fetched)
        ]
      ]

  -- What some rounds come to: no restart and the same executable, or one restart with a release.
  pub data IsMaintained (m : Machine) : ℕ × Machine → Type 0 where
    stayed : (m' : Machine) → m'.executable ≡ m.executable → IsMaintained m (0, m')
    restarted :
        (checksum binary : List ℕ) (m' : Machine)
        → IsRelease checksum binary
        → m'.executable ≡ regular binary 493
        → IsMaintained m (1, m')

  later :
      (m next : Machine) (rest : ℕ × Machine)
      → next.executable ≡ m.executable
      → IsMaintained next rest
      → IsMaintained m rest
  later m next _ same (stayed m' e) = stayed m' (e ∙ same)
  later m next _ same (restarted checksum binary m' release is_new) =
      restarted checksum binary m' release is_new

  after :
      (r : Round) (m : Machine) (step : Checked × Machine) (rest : ℕ × Machine)
      → IsChecked r m step
      → IsMaintained step.1 rest
      → IsMaintained m (elim step.0 [ updated ↦ (1, step.1) | unchanged ↦ rest | failed ↦ rest ])
  after r m _ rest (kept unchanged m' differs same) maintained = later m m' rest same maintained
  after r m _ rest (kept failed m' differs same) maintained = later m m' rest same maintained
  after r m _ rest (kept updated m' differs same) maintained = absurd (differs refl)
  after r m _ rest (replaced checksum binary m' fetched release differs is_new) maintained =
      restarted checksum binary m' release is_new

  -- Over any rounds of checks, either there was no restart and the executable is the one from
  -- before, or there was exactly one restart and the executable is a binary that is the whole
  -- content of an archive of a checksum.
  pub maintain-IsMaintained :
      (base : Option Url) (path : List ℕ) (rounds : List Round) (m : Machine)
      → IsMaintained m (maintain_self_update sha256 unpack base path rounds m)
  unfolding maintain_self_update
  maintain-IsMaintained base path [] m = stayed m refl
  maintain-IsMaintained base path (r ∷ rounds) m =
      after r m (update_self sha256 unpack base path r m) _ (update_self-IsChecked base path r m)
        (maintain-IsMaintained base path rounds _)
