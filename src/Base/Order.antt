-- ===== src/Base/Order.antt =====
-- Go's order on strings, and sort.Slice and sort.Strings as insertion sort.
pub mod Laws
pub mod Sorting
pub mod Last
use Prim.Native.String.{String, compare}
use mathlib.Core.Bool.{Bool}
use mathlib.Core.List.{List, [], ◌∷◌}
use text.Mathlib.Text.{is_le}
use telemetry_operator.Base.Tests.{if◌then◌else◌}

-- s <= t, byte by byte, which is the order by code points
unfoldable pub str_le : String → String → Bool
str_le s t = is_le (compare s t)

module _ {ℓ} {A : Type ℓ} (le : A → A → Bool) where
  unfoldable pub sorted_insert : A → List A → List A
  sorted_insert x [] = x ∷ []
  sorted_insert x (y ∷ l) = if le x y then x ∷ y ∷ l else y ∷ sorted_insert x l

  unfoldable pub sort : List A → List A
  unfolding sorted_insert
  sort [] = []
  sort (x ∷ l) = sorted_insert x (sort l)
