-- ===== src/Runtime/Ieee.antt =====
-- Comparison of floats, as IEEE 754 has it. A NaN is a float that is not equal to itself.
use x_social_trader.Base.{true, false, ◌≡◌}
use x_social_trader.Runtime.{Runtime}

module _ {R : Type 0} ⦃py : Runtime R⦄ where
  abbrev pub IsNan : R → Type 0
  IsNan x = py.eq x x ≡ false

  abbrev pub IsNumber : R → Type 0
  IsNumber x = py.eq x x ≡ true

-- The order is total on numbers; no comparison with a NaN holds; products with a NaN are NaN.
pub record Ieee {R : Type 0} (py : Runtime R) : Type 0 where
  pub le_of_not_lt :
      (x y : R) → py.eq x x ≡ true → py.eq y y ≡ true → py.lt x y ≡ false → py.le y x ≡ true
  pub lt_nan : (x y : R) → py.eq x x ≡ false → py.lt x y ≡ false
  pub nan_lt : (x y : R) → py.eq y y ≡ false → py.lt x y ≡ false
  pub le_nan : (x y : R) → py.eq x x ≡ false → py.le x y ≡ false
  pub nan_le : (x y : R) → py.eq y y ≡ false → py.le x y ≡ false
  pub mul_nan : (x y : R) → py.eq y y ≡ false → py.eq (py.mul x y) (py.mul x y) ≡ false
