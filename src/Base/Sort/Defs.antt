-- ===== src/Base/Sort/Defs.antt =====
-- The sort, and when no two elements of a list tie.
use mathlib.Core.Path.{◌≡◌}
use mathlib.Core.Bool.{Bool, false, ◌&&◌}
use mathlib.Core.List.{List, [], ◌∷◌}
use x_social_trader.Base.Tests.{if◌then◌else◌}
use x_social_trader.Base.Lists.{All}

module _ {ℓ} {A : Type ℓ} (before : A → A → Bool) where
  unfoldable pub insert : A → List A → List A
  insert x [] = x ∷ []
  insert x (y ∷ ys) = if before x y then x ∷ y ∷ ys else y ∷ insert x ys

  unfoldable pub sorted : List A → List A
  sorted [] = []
  sorted (x ∷ xs) = insert x (sorted xs)

  -- The order puts each of the two before the other.
  abbrev pub ties : A → A → Bool
  ties x y = before x y && before y x

  abbrev pub NoTies : List A → Type 0
  NoTies [] = Unit
  NoTies (x ∷ xs) = All (λ y. ties x y ≡ false) xs × NoTies xs
