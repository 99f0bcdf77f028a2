-- ===== src/Scheduler/Labels.antt =====
-- internal/server/router.go: validLabels and labelsContain.
use quickworks.Base.{
  ℕ, String, Bool, true, false, ◌&&◌, ◌||◌, not, List, [], ◌∷◌, ◌==◌, if◌then◌else◌, leb, nat_eq,
  length, all, any,
}
use quickworks.Text.{bytes}

abbrev is_label_head : ℕ → Bool
is_label_head c = leb b'a' c && leb c b'z'

abbrev pub is_label_byte : ℕ → Bool
is_label_byte c = (leb b'a' c && leb c b'z') || ((leb b'0' c && leb c b'9') || nat_eq c b'-')

-- labelPattern: [a-z][a-z0-9-]{0,31}
unfoldable pub matches_label : List ℕ → Bool
matches_label [] = false
matches_label (c ∷ rest) = is_label_head c && (all is_label_byte rest && leb (length rest) 31)

-- A label that breaks the pattern or was seen before ends the loop with false.
unfoldable pub labels_from : List String → List String → Bool
labels_from seen [] = true
labels_from seen (l ∷ ls) =
    let rest = labels_from (l ∷ seen) ls in
    if not (matches_label (bytes l)) || any (λ s. s == l) seen then false else rest

unfoldable pub valid_labels : List String → Bool
unfolding labels_from
valid_labels labels = labels_from [] labels

-- Every required label is in the set of those at hand.
unfoldable pub labels_contain : List String → List String → Bool
labels_contain have [] = true
labels_contain have (l ∷ required) =
    let rest = labels_contain have required in if any (λ h. h == l) have then rest else false
