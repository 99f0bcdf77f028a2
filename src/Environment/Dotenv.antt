-- ===== src/Environment/Dotenv.antt =====
-- internal/agent/dotenv.go: what ParseDotenv makes of a file, and of variables that were written out.
use quickworks.Base.{
  ℕ, suc, ◌<◌, ◌≡◌, ◌⊎◌, ◌*◌, ◌∙◌, ap, refl, true, false, some, List, [], ◌∷◌, ◌++◌, arith, leb,
  length, all, All, Bool-cases, inl, inr,
}
use quickworks.Text.{same, split, split_parts, cut, contains}
use quickworks.Text.Laws.{split-append, cut-append, contains-append}
use quickworks.Environment.{
  Variables, assign, trim_start, trim_end, drop_empty_last, drop_return, max_scan_token_size,
  is_key_start, is_key_byte, valid_environment_key, Line, skipped, invalid, entry, is_comment,
  parse_line, variables, parse_lines, parse_dotenv,
}

abbrev pub HasKeys : Variables → Type 0
HasKeys = All (λ e. valid_environment_key e.0 ≡ true)

assign-HasKeys :
    (k v : List ℕ) (m : Variables)
    → valid_environment_key k ≡ true
    → HasKeys m
    → HasKeys (assign k v m)
unfolding assign
assign-HasKeys k v [] valid h = (valid, tt)
assign-HasKeys k v ((j, w) ∷ m) valid (h, hs) = elim (Bool-cases (same j k)) [
  | inl t ↦ rw t (valid, hs)
  | inr t ↦ rw t (h, assign-HasKeys k v m valid hs)
]

parse_line-key : (line k v : List ℕ) → parse_line line ≡ entry k v → valid_environment_key k ≡ true
unfolding parse_line
parse_line-key line k v h = ground arith

Line-cases : (l : Line) → (l ≡ skipped) ⊎ (l ≡ invalid) ⊎ ((k v : List ℕ) × (l ≡ entry k v))
Line-cases skipped = inl refl
Line-cases invalid = inr (inl refl)
Line-cases (entry k v) = inr (inr (k, v, refl))

-- What an assignment to an accepted key keeps, the loop keeps.
parse_lines-keeps {κ} :
    (P : Variables → Type κ)
    → ((k v : List ℕ) (m : Variables) → valid_environment_key k ≡ true → P m → P (assign k v m))
    → (n : ℕ) (m : Variables) (lines : List (List ℕ)) {m' : Variables} → P m
    → parse_lines n m lines ≡ variables m'
    → P m'
unfolding parse_lines
parse_lines-keeps P one n m [] {m'} h ran = let e : m' ≡ m = cc in rw e h
parse_lines-keeps P one n m (line ∷ lines) {m'} h ran =
    elim (Bool-cases (leb max_scan_token_size (length line))) [
      | inl long ↦ absurd (ground arith)
      | inr short ↦ elim (Line-cases (parse_line (drop_return line))) [
        | inl skip ↦ parse_lines-keeps P one (suc n) m lines h (ground arith)
        | inr (inl bad) ↦ absurd (ground arith)
        | inr (inr (k, v, e)) ↦
            parse_lines-keeps P one (suc n) (assign k v m) lines
              (one k v m (parse_line-key (drop_return line) k v e) h) (ground arith)
      ]
    ]

pub parse_dotenv-keeps {κ} :
    (P : Variables → Type κ)
    → ((k v : List ℕ) (m : Variables) → valid_environment_key k ≡ true → P m → P (assign k v m))
    → P []
    → (input : List ℕ) (m : Variables) → parse_dotenv input ≡ variables m
    → P m
unfolding parse_dotenv
parse_dotenv-keeps P one h input m ran =
    parse_lines-keeps P one 0 [] (drop_empty_last (split 10 input)) h ran

-- Whatever the file holds, every name that is parsed out of it is an accepted name.
pub parse_dotenv-HasKeys :
    (input : List ℕ) (m : Variables) → parse_dotenv input ≡ variables m → HasKeys m
parse_dotenv-HasKeys input m ran = parse_dotenv-keeps HasKeys assign-HasKeys tt input m ran

-- A variable as a line of the file, and a file of them.
abbrev pub line_of : List ℕ × List ℕ → List ℕ
line_of (k, v) = k ++ b'=' ∷ v

abbrev pub render : Variables → List ℕ
render [] = []
render (e ∷ es) = line_of e ++ 10 ∷ render es

abbrev pub assign_all : Variables → Variables → Variables
assign_all [] m = m
assign_all ((k, v) ∷ es) m = assign_all es (assign k v m)

-- A key that is accepted, and a value on one short line that does not end in white space.
pub record IsPlain (e : List ℕ × List ℕ) : Type 0 where
  pub valid : valid_environment_key e.0 ≡ true
  pub one_line : contains 10 e.1 ≡ false
  pub trimmed : trim_end e.1 ≡ e.1
  pub short : length (line_of e) < 64 * 1024

contains-key_bytes :
    (c : ℕ) (s : List ℕ) → is_key_byte c ≡ false → all is_key_byte s ≡ true → contains c s ≡ false
unfolding contains
contains-key_bytes c [] other h = refl
contains-key_bytes c (b ∷ s) other h = ground (arith, contains-key_bytes c s)

pub contains-key :
    (c : ℕ) (k : List ℕ)
    → is_key_byte c ≡ false
    → valid_environment_key k ≡ true
    → contains c k ≡ false
unfolding valid_environment_key
contains-key c [] other h = cc
contains-key c (b ∷ s) other h = contains-key_bytes c (b ∷ s) other (ground arith)

trim_end-cons : (b c : ℕ) (s : List ℕ) → trim_end (c ∷ s) ≡ c ∷ s → trim_end (b ∷ c ∷ s) ≡ b ∷ c ∷ s
unfolding trim_end
trim_end-cons b c s h = rw (h, trim_end) refl

trim_end-append :
    (k : List ℕ) (c : ℕ) (s : List ℕ)
    → trim_end (c ∷ s) ≡ c ∷ s
    → trim_end (k ++ c ∷ s) ≡ k ++ c ∷ s
trim_end-append [] c s h = h
trim_end-append (b ∷ []) c s h = trim_end-cons b c s h
trim_end-append (b ∷ d ∷ k) c s h = trim_end-cons b d (k ++ c ∷ s) (trim_end-append (d ∷ k) c s h)

trim_end-assignment : (v : List ℕ) → trim_end v ≡ v → trim_end (b'=' ∷ v) ≡ b'=' ∷ v
unfolding trim_end
trim_end-assignment [] h = refl
trim_end-assignment (c ∷ v) h = trim_end-cons b'=' c v h

drop_return-trimmed : (s : List ℕ) → trim_end s ≡ s → drop_return s ≡ s
unfolding drop_return trim_end
drop_return-trimmed [] h = refl
drop_return-trimmed (b ∷ []) h = ground arith
drop_return-trimmed (b ∷ c ∷ s) h = rw (drop_return-trimmed (c ∷ s) tail) refl
  where
    tail : trim_end (c ∷ s) ≡ c ∷ s
    tail = ground arith

parse_line-line_of :
    (k v : List ℕ) → IsPlain (k, v) → parse_line (drop_return (line_of (k, v))) ≡ entry k v
unfolding parse_line
parse_line-line_of [] v plain = unfold valid_environment_key in cc plain.valid
parse_line-line_of (c ∷ k) v plain =
    rw (drop_return-trimmed (line_of (c ∷ k, v)) whole)
      (rw starts (rw whole (rw no_comment (rw found (rw plain.valid refl)))))
  where
    whole : trim_end (line_of (c ∷ k, v)) ≡ line_of (c ∷ k, v)
    whole = trim_end-append (c ∷ k) b'=' v (trim_end-assignment v plain.trimmed)

    first_byte : is_key_start c ≡ true
    first_byte = unfold valid_environment_key in (ground (arith, plain.valid))

    starts : trim_start (line_of (c ∷ k, v)) ≡ line_of (c ∷ k, v)
    starts = unfold trim_start in (ground (arith, first_byte))

    no_comment : is_comment (line_of (c ∷ k, v)) ≡ false
    no_comment = ground (arith, first_byte)

    found : cut b'=' (line_of (c ∷ k, v)) ≡ some (c ∷ k, v)
    found = cut-append b'=' (c ∷ k) v (contains-key b'=' (c ∷ k) refl plain.valid)

drops :
    (line rest : List ℕ)
    → drop_empty_last (line ∷ split 10 rest) ≡ line ∷ drop_empty_last (split 10 rest)
unfolding split drop_empty_last
drops [] rest = refl
drops (b ∷ line) rest = refl

lines_of-cons :
    (line rest : List ℕ)
    → contains 10 line ≡ false
    → drop_empty_last (split 10 (line ++ 10 ∷ rest)) ≡ line ∷ drop_empty_last (split 10 rest)
unfolding split drop_empty_last
lines_of-cons line rest apart =
    ap drop_empty_last (split-append 10 line rest apart) ∙ drops line rest

parse_lines-render :
    (n : ℕ) (es m : Variables)
    → All IsPlain es
    → parse_lines n m (drop_empty_last (split 10 (render es))) ≡ variables (assign_all es m)
unfolding parse_lines
parse_lines-render n [] m plain = unfold split split_parts drop_empty_last in refl
parse_lines-render n ((k, v) ∷ es) m (plain, plains) =
    rw (lines_of-cons (line_of (k, v)) (render es) one_line) (
      rw (short, parse_lines)
        (rw (parse_line-line_of k v plain) (parse_lines-render (suc n) es (assign k v m) plains)))
  where
    one_line : contains 10 (line_of (k, v)) ≡ false
    one_line =
        contains-append 10 k (b'=' ∷ v) (contains-key 10 k refl plain.valid)
          (unfold contains in plain.one_line)

    short : leb max_scan_token_size (length (line_of (k, v))) ≡ false
    short = ground (arith, plain.short)

-- Variables with accepted names and values that hold no newline and do not end in white space, on
-- lines shorter than 64 KiB, are parsed back from their lines, a later one in place of an earlier
-- one of its name.
pub parse_dotenv-render :
    (es : Variables) → All IsPlain es → parse_dotenv (render es) ≡ variables (assign_all es [])
unfolding parse_dotenv
parse_dotenv-render es plain = parse_lines-render 0 es [] plain
