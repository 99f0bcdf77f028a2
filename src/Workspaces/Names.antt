-- ===== src/Workspaces/Names.antt =====
-- internal/server/workspace/service.go: workspace names and the pattern that Get checks them by.
use Prim.Native.String
use quickworks.Base.{
  ℕ, ◌%◌, ◌≡◌, refl, String, Bool, true, false, ◌&&◌, ◌||◌, List, [], ◌∷◌, length, get_or, all, leb,
}
use quickworks.Text.{bytes, split}

abbrev pub adjectives : List String
adjectives =
    "calm" ∷ "bright" ∷ "swift" ∷ "quiet" ∷ "amber" ∷ "clear" ∷ "lunar" ∷ "solid" ∷ "kind" ∷ "fresh"
    ∷ []

abbrev pub nouns : List String
nouns =
    "harbor" ∷ "meadow" ∷ "forest" ∷ "river" ∷ "summit" ∷ "garden" ∷ "canyon" ∷ "island" ∷ "valley"
    ∷ "orbit" ∷ []

-- The byte that crypto/rand draws, reduced to an index.
unfoldable pub random_index : ℕ → ℕ → ℕ
random_index byte n = byte % n

abbrev dashed : String → String → String → String
dashed a b n = String.◌++◌ a (String.◌++◌ "-" (String.◌++◌ b (String.◌++◌ "-" n)))

-- petName, from the three bytes that it draws.
unfoldable pub pet_name : ℕ → ℕ → ℕ → String
unfolding random_index
pet_name a b n =
    dashed (get_or adjectives (random_index a (length adjectives)) "")
      (get_or adjectives (random_index b (length adjectives)) "")
      (get_or nouns (random_index n (length nouns)) "")

-- [a-z] and [a-z0-9]
abbrev is_lower : ℕ → Bool
is_lower c = leb b'a' c && leb c b'z'

abbrev is_lower_or_digit : ℕ → Bool
is_lower_or_digit c = is_lower c || (leb b'0' c && leb c b'9')

-- [a-z][a-z0-9]{1,15}
unfoldable pub is_word : List ℕ → Bool
is_word [] = false
is_word (c ∷ w) = is_lower c && (all is_lower_or_digit w && (leb 1 (length w) && leb (length w) 15))

-- The classes hold no dash, so the pattern's three groups are the parts between the dashes.
three_words : List (List ℕ) → Bool
three_words (a ∷ b ∷ c ∷ []) = is_word a && (is_word b && is_word c)
three_words _ = false

-- idPattern
unfoldable pub matches_id_pattern : String → Bool
unfolding three_words is_word
matches_id_pattern id = three_words (split b'-' (bytes id))

abbrev some_name : String
some_name = dashed "calm" "kind" "orbit"

matches_test : matches_id_pattern some_name ≡ true
unfolding matches_id_pattern split
matches_test = refl

pet_name_test : pet_name 10 8 255 ≡ "calm-kind-garden"
unfolding pet_name
pet_name_test = refl
