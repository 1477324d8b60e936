-- ===== src/Runtime/Truth.antt =====
-- The truth of a JSON value, as Python's `or`, `not` and `if` see it.
use x_social_trader.Base.{
  str_eq, Bool, true, false, not, Option, none, some, pos, eq_ℤ, if◌then◌else◌,
}
use x_social_trader.Models.Json.{Json, null, bool, int, float, text, array, object, nil, end}
use x_social_trader.Runtime.{Runtime}

module _ {R : Type 0} ⦃py : Runtime R⦄ where
  -- `bool(value)`
  unfoldable pub is_truthy : Json R → Bool
  is_truthy null = false
  is_truthy (bool b) = b
  is_truthy (int n) = not (eq_ℤ n (pos 0))
  is_truthy (float x) = not (py.eq_int x (pos 0))
  is_truthy (text s) = not (str_eq s "")
  is_truthy (array nil) = false
  is_truthy (array _) = true
  is_truthy (object end) = false
  is_truthy (object _) = true

  -- `value or default`, of a value that may be missing
  unfoldable pub truthy_or : Json R → Option (Json R) → Json R
  unfolding is_truthy
  truthy_or d none = d
  truthy_or d (some v) = if is_truthy v then v else d
