-- ===== src/Identity/Examples.antt =====
-- A first start that makes a key, a second that reads it, and one that another process overtakes.
use quickworks.Base.{ℕ, ◌≡◌, ◌≢◌, refl, true, none, some, List, [], ◌∷◌, ◌++◌, length, arith}
use quickworks.Identity.{
  absent, stored, FileCalls, identity, repeated, write_identity, create_identity, load_once,
  load_or_create_identity,
}
use quickworks.Identity.Kept.{identity_again, load_or_create_identity_ends}

abbrev sixteen : List ℕ
sixteen = 1 ∷ 2 ∷ 3 ∷ 4 ∷ 5 ∷ 6 ∷ 7 ∷ 8 ∷ 9 ∷ 10 ∷ 11 ∷ 12 ∷ 13 ∷ 14 ∷ 15 ∷ 16 ∷ []

abbrev key : List ℕ
key = sixteen ++ sixteen ++ sixteen ++ sixteen

abbrev start : FileCalls
start = record {
  makes_directory = true;
  stats = true;
  generated = some key;
  appeared = none;
  opens = true;
  cut_at = none;
  closes = true;
}

abbrev overtaken : FileCalls
overtaken = record start { appeared = some (stored key 384) }

makes : load_or_create_identity (start ∷ []) absent ≡ (identity key, stored key 384)
unfolding load_or_create_identity load_once create_identity write_identity
makes = refl

sized : (k : List ℕ) → some key ≡ some k → length k ≡ 64
sized k e = ground arith

identity_again_example :
    load_or_create_identity (overtaken ∷ []) (stored key 384) ≡ (identity key, stored key 384)
identity_again_example =
    identity_again (start ∷ []) [] overtaken absent (stored key 384) key (sized, tt) makes refl refl

load_or_create_identity_ends_example :
    (load_or_create_identity (overtaken ∷ start ∷ []) absent).0 ≢ repeated
load_or_create_identity_ends_example =
    load_or_create_identity_ends overtaken start [] absent (λ e. ground arith)
