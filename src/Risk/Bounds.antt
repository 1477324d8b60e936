-- ===== src/Risk/Bounds.antt =====
-- What an admission says of the amounts themselves, by the laws of IEEE 754: bounds if they are
-- numbers, and nothing of the order's size if the capital is a NaN.
use x_social_trader.Base.{ℕ, ◌≡◌, Bool, true}
use x_social_trader.Models.{ProposedOrder, ValidationContext, ok}
use x_social_trader.Runtime.{Runtime}
use x_social_trader.Runtime.Ieee.{Ieee, IsNan, IsNumber}
use x_social_trader.Settings.{Settings}
use x_social_trader.World.{World}
use x_social_trader.Risk.Rules.{
  position_size, total_exposure, check, order_notional_usd, limit_usd, projected_exposure_usd,
}
use x_social_trader.Risk.Manager.{build_risk_manager, validate}
use x_social_trader.Risk.Admission.{ok-validate_iff, position_size_passed, total_exposure_passed}

module _ {R : Type 0} ⦃py : Runtime R⦄ (ieee : Ieee py) (s : Settings R) (is_open_at : ℕ → Bool)
    (order : ProposedOrder R) (context : ValidationContext R) where
  -- For floats that compare as IEEE 754 says: if the risk manager lets an order through, and its
  -- notional value, the projected exposure and the two limits are numbers, then the notional value
  -- is at most the position limit and the projected exposure at most the exposure limit.
  pub ok-validate_bounds :
      (w : World R)
      → IsNumber (order_notional_usd order)
      → IsNumber (projected_exposure_usd order context)
      → IsNumber (limit_usd s.max_position_pct context)
      → IsNumber (limit_usd s.max_total_exposure_pct context)
      → ok (validate (build_risk_manager s is_open_at) order context w).0 ≡ true
      → (py.le (order_notional_usd order) (limit_usd s.max_position_pct context) ≡ true)
        × (py.le (projected_exposure_usd order context) (limit_usd s.max_total_exposure_pct context)
            ≡ true)
  ok-validate_bounds w a b c d h =
      let admitted = (ok-validate_iff s is_open_at order context w).0 h in
      (ieee.le_of_not_lt _ _ c a admitted.size, ieee.le_of_not_lt _ _ d b admitted.exposure)

module _ {R : Type 0} ⦃py : Runtime R⦄ (ieee : Ieee py) (order : ProposedOrder R)
    (context : ValidationContext R) where
  -- For floats that compare and multiply as IEEE 754 says: if the capital of the account is a NaN,
  -- the rules on the size of the position and on the total exposure pass every order, whatever its
  -- quantity and price and their caps are.
  nan_capital_passes :
      (max : R)
      → IsNan context.account_capital_usd
      → ((check (position_size max) order context).passed ≡ true)
        × ((check (total_exposure max) order context).passed ≡ true)
  nan_capital_passes max h =
      let limit_nan = ieee.mul_nan (py.div max py.hundred) context.account_capital_usd h in
      (
        rw (position_size_passed order context, ieee.lt_nan (limit_usd max context) _ limit_nan),
        rw (total_exposure_passed order context, ieee.lt_nan (limit_usd max context) _ limit_nan),
      )
