-- ===== src/Common/Sort.antt =====
-- `Array.prototype.sort`, which keeps the order of what is equal, as an insertion of each element.
use Prim.Native.Nat.{ℕ}
use mathlib.Core.Bool.{Bool, true, false, ◌&&◌, ◌||◌}
use mathlib.Core.List.{List, [], ◌∷◌}
use solana_governance.Common.Tests.{ltb, ◌==◌, if◌then◌else◌}
use solana_governance.Common.Text.{Text}
pub mod Laws

module _ {ℓ} {A : Type ℓ} (le : A → A → Bool) where
  -- in front of the first that it may stand before
  unfoldable pub insert : A → List A → List A
  insert x [] = x ∷ []
  insert x (y ∷ ys) = let rest = insert x ys in if le x y then x ∷ y ∷ ys else y ∷ rest

  unfoldable pub sort : List A → List A
  unfolding insert
  sort [] = []
  sort (x ∷ xs) = insert x (sort xs)

-- the order of texts by their code units
unfoldable pub text_le : Text → Text → Bool
text_le [] t = true
text_le (c ∷ s) [] = false
text_le (c ∷ s) (d ∷ t) = ltb c d || (c == d && text_le s t)
