-- ===== src/Base/Texts.antt =====
-- Python orders texts by their code points, as `compare` does. Here: that this order is total,
-- transitive and antisymmetric; and `str.strip`.
use Prim.Native.Nat.{ℕ, Ordering}
use Prim.Native.Char.{code}
use Prim.Native.String.compare
use Prim.Native.String.{String, [], ◌∷◌, compare}
use mathlib.Core.Path.{◌≡◌, refl}
use mathlib.Core.Bool.{Bool, true, false, ◌&&◌, ◌||◌}
use native.Mathlib.Omega.{arith}
use text.Mathlib.Text.{◌==◌ as str_eq}
use text.Mathlib.TextEquality.{eq_iff}
use x_social_trader.Base.Tests.{leb, ◌==◌, if◌then◌else◌}

-- `s <= t`
abbrev pub str_leb : String → String → Bool
str_leb s t = elim (compare s t) [ Ordering.gt ↦ false | _ ↦ true ]

abbrev flip : Ordering → Ordering
flip Ordering.lt = Ordering.gt
flip Ordering.eq = Ordering.eq
flip Ordering.gt = Ordering.lt

compare-flip : (s t : String) → compare t s ≡ flip (compare s t)
compare-flip [] [] = refl
compare-flip [] (d ∷ t) = rw (compare.nil-cons, compare.cons-nil)
compare-flip (c ∷ s) [] = rw (compare.nil-cons, compare.cons-nil)
compare-flip (c ∷ s) (d ∷ t) =
    ground (arith, compare.cons-cons c d s t, compare.cons-cons d c t s, compare-flip s t)

pub str_leb_total : (s t : String) → str_leb s t ≡ false → str_leb t s ≡ true
str_leb_total s t h = ground (arith, compare-flip s t)

pub str_leb_antisymm : (s t : String) → str_leb s t ≡ true → str_leb t s ≡ true → s ≡ t
str_leb_antisymm s t h k = ground (arith, compare-flip s t, eq_iff s t)

pub str_leb_trans : (s t u : String) → str_leb s t ≡ true → str_leb t u ≡ true → str_leb s u ≡ true
str_leb_trans [] t [] h k = refl
str_leb_trans [] t (e ∷ u) h k = ground (arith, compare.nil-cons e u)
str_leb_trans (c ∷ s) [] u h k = ground (arith, compare.cons-nil c s)
str_leb_trans (c ∷ s) (d ∷ t) [] h k = ground (arith, compare.cons-nil d t)
str_leb_trans (c ∷ s) (d ∷ t) (e ∷ u) h k = ground (
  arith,
  compare.cons-cons c d s t,
  compare.cons-cons d e t u,
  compare.cons-cons c e s u,
  str_leb_trans s t u,
)

-- `str.isspace`, of one character
unfoldable pub is_space : ℕ → Bool
is_space c =
    (leb 9 c && leb c 13)
    || (leb 28 c && leb c 32)
    || c == 133
    || c == 160
    || c == 5760
    || (leb 8192 c && leb c 8202)
    || c == 8232
    || c == 8233
    || c == 8239
    || c == 8287
    || c == 12288

-- `s.lstrip()`, for the characters that `drop` holds of
unfoldable pub strip_left : (ℕ → Bool) → String → String
strip_left drop [] = []
strip_left drop (c ∷ s) = if drop (code c) then strip_left drop s else c ∷ s

unfoldable pub strip_right : (ℕ → Bool) → String → String
strip_right drop [] = []
strip_right drop (c ∷ s) =
    let rest = strip_right drop s in if drop (code c) && str_eq rest "" then [] else c ∷ rest

-- `s.strip()`
unfoldable pub strip : String → String
unfolding is_space strip_left strip_right
strip s = strip_right is_space (strip_left is_space s)
