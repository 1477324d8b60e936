-- ===== src/Models/Values.antt =====
-- The values of Python that rules, audit rows and events hold, over a type `R` of floats.
use Prim.Native.String.{String}
use mathlib.Core.Bool.{Bool}
use mathlib.Core.List.{List}
use x_social_trader.Base.{ℤ}

-- `other` is a value that is equal to no text and no number and that `float` rejects: a date, a
-- mapping, or a list within a list.
pub data Scalar (R : Type 0) : Type 0 where
  null other : Scalar R
  bool : Bool → Scalar R
  int : ℤ → Scalar R
  float : R → Scalar R
  text : String → Scalar R

-- The `value` of a condition: a scalar, or a list for the operator `in`.
pub data Value (R : Type 0) : Type 0 where
  scalar : Scalar R → Value R
  items : List (Scalar R) → Value R
