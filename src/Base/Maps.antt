-- ===== src/Base/Maps.antt =====
-- Go's map[string]V as the list of its entries.
use mathlib.Core.Path.{◌≡◌, refl}
use mathlib.Core.Option.{Option, none, some}
use mathlib.Core.List.{List, [], ◌∷◌}
use Prim.Native.String.{String}
use text.Mathlib.Text.{◌==◌}
use text.Mathlib.TextEquality.{eq_iff}
use text.Mathlib.TextPositions.{eq_refl}
use native.Mathlib.Omega.{arith}
use quickworks.Base.Tests.{if◌then◌else◌}

module _ {ℓ} {A : Type ℓ} where
  -- m[k]
  unfoldable pub find : String → List (String × A) → Option A
  find k [] = none
  find k ((j, a) ∷ m) = if j == k then some a else find k m

  -- m[k] = a
  unfoldable pub put : String → A → List (String × A) → List (String × A)
  put k a [] = (k, a) ∷ []
  put k a ((j, b) ∷ m) = let rest = put k a m in if j == k then (k, a) ∷ m else (j, b) ∷ rest

  -- delete(m, k)
  unfoldable pub remove : String → List (String × A) → List (String × A)
  remove k [] = []
  remove k ((j, a) ∷ m) = let rest = remove k m in if j == k then rest else (j, a) ∷ rest

  pub find-put :
      (k j : String) (a : A) (m : List (String × A))
      → find j (put k a m) ≡ (if k == j then some a else find j m)
  unfolding find put
  find-put k j a [] = refl
  find-put k j a ((i, b) ∷ m) = ground (arith, eq_iff k j, eq_iff i k, eq_iff i j, find-put k j a m)

  pub find-put_self : (k : String) (a : A) (m : List (String × A)) → find k (put k a m) ≡ some a
  find-put_self k a m = ground (arith, find-put k k a m, eq_refl k)

  pub find-remove :
      (k j : String) (m : List (String × A))
      → find j (remove k m) ≡ (if k == j then none else find j m)
  unfolding find remove
  find-remove k j [] = ground arith
  find-remove k j ((i, b) ∷ m) =
      ground (arith, eq_iff k j, eq_iff i k, eq_iff i j, find-remove k j m)
