-- ===== src/Risk/Admission.antt =====
-- Which orders the risk manager of `build_risk_manager` lets through.
use x_social_trader.Base.{
  ℕ, ◌≡◌, ◌↔◌, ◌⊎◌, String, Bool, true, false, [], ◌∷◌, ℤ, pos, ltb_ℤ, contains, contains-Absent,
  Absent, all, arith, not, ◌&&◌, ◌||◌,
}
use x_social_trader.Models.{ProposedOrder, ValidationContext, ok}
use x_social_trader.Runtime.{Runtime}
use x_social_trader.Settings.{Settings}
use x_social_trader.World.{World}
use x_social_trader.Risk.Rules.{
  position_size, total_exposure, market_hours, idempotency, max_trades_per_day, daily_drawdown,
  check, order_notional_usd, limit_usd, projected_exposure_usd, drawdown_pct, idempotency_key,
}
use x_social_trader.Risk.Manager.{build_risk_manager, validate, run_checks}

module _ {R : Type 0} ⦃py : Runtime R⦄ where
  pub record Admissible (s : Settings R) (is_open_at : ℕ → Bool) (order : ProposedOrder R)
      (context : ValidationContext R) : Type 0 where
    pub size : py.lt (limit_usd s.max_position_pct context) (order_notional_usd order) ≡ false
    pub exposure :
        py.lt (limit_usd s.max_total_exposure_pct context) (projected_exposure_usd order context)
        ≡ false
    pub trades : ltb_ℤ (pos context.trades_today) s.max_trades_per_day ≡ true
    pub drawdown : py.le s.max_daily_drawdown_pct (drawdown_pct context) ≡ false
    pub session : (s.allow_after_hours ≡ true) ⊎ (is_open_at context.now ≡ true)
    pub event : Absent order.event_id context.seen_event_ids
    pub key :
        Absent (idempotency_key order.event_id order.strategy_id) context.seen_idempotency_keys

  -- What each rule's verdict rests on.
  module _ (order : ProposedOrder R) (context : ValidationContext R) where
    pub position_size_passed :
        (max : R)
        → (check (position_size max) order context).passed
          ≡ not (py.lt (limit_usd max context) (order_notional_usd order))
    unfolding check
    position_size_passed max = ground arith

    pub total_exposure_passed :
        (max : R)
        → (check (total_exposure max) order context).passed
          ≡ not (py.lt (limit_usd max context) (projected_exposure_usd order context))
    unfolding check
    total_exposure_passed max = ground arith

    pub max_trades_per_day_passed :
        (max : ℤ)
        → (check (max_trades_per_day max) order context).passed
          ≡ ltb_ℤ (pos context.trades_today) max
    unfolding check
    max_trades_per_day_passed max = ground arith

    pub daily_drawdown_passed :
        (max : R)
        → (check (daily_drawdown max) order context).passed ≡ not (py.le max (drawdown_pct context))
    unfolding check
    daily_drawdown_passed max = ground arith

    pub market_hours_passed :
        (is_open_at : ℕ → Bool) (allow : Bool)
        → (check (market_hours is_open_at allow) order context).passed
          ≡ (allow || is_open_at context.now)
    unfolding check
    market_hours_passed is_open_at allow = ground arith

    pub idempotency_passed : (check idempotency order context).passed ≡ (
        not (contains order.event_id context.seen_event_ids)
        && not (
            contains
              (idempotency_key order.event_id order.strategy_id)
              context.seen_idempotency_keys))
    unfolding check
    idempotency_passed = ground arith

  module _ (s : Settings R) (is_open_at : ℕ → Bool) (order : ProposedOrder R)
      (context : ValidationContext R) where
    abbrev expected_key : String
    expected_key = idempotency_key order.event_id order.strategy_id

    -- The verdict as one test.
    pub ok-validate :
        (w : World R)
        → ok (validate (build_risk_manager s is_open_at) order context w).0
          ≡ all
              (λ b. b)
              (not (py.lt (limit_usd s.max_position_pct context) (order_notional_usd order))
                ∷ not (
                    py.lt
                      (limit_usd s.max_total_exposure_pct context)
                      (projected_exposure_usd order context))
                ∷ ltb_ℤ (pos context.trades_today) s.max_trades_per_day
                ∷ not (py.le s.max_daily_drawdown_pct (drawdown_pct context))
                ∷ (s.allow_after_hours || is_open_at context.now)
                ∷ (not (contains order.event_id context.seen_event_ids)
                    && not (contains expected_key context.seen_idempotency_keys))
                ∷ [])
    unfolding ok validate build_risk_manager run_checks
    ok-validate w = rw (
      position_size_passed order context,
      total_exposure_passed order context,
      max_trades_per_day_passed order context,
      daily_drawdown_passed order context,
      market_hours_passed order context,
      idempotency_passed order context,
    )

    -- The six rules of `build_risk_manager` all pass exactly if the order is admissible: its
    -- notional value and the projected exposure are not above their shares of the capital, fewer
    -- trades than the cap were made today, the drawdown has not reached its cap (one that is equal to
    -- the cap fails), the market is open or trading after hours is allowed, and neither the event nor
    -- the idempotency key was seen.
    pub ok-validate_iff :
        (w : World R)
        → (ok (validate (build_risk_manager s is_open_at) order context w).0 ≡ true)
          ↔ Admissible s is_open_at order context
    ok-validate_iff w = (
      λ h. ground (
        arith,
        ok-validate w,
        contains-Absent order.event_id context.seen_event_ids,
        contains-Absent expected_key context.seen_idempotency_keys,
      ),
      λ h. ground (
        arith,
        ok-validate w,
        contains-Absent order.event_id context.seen_event_ids,
        contains-Absent expected_key context.seen_idempotency_keys,
      ),
    )
