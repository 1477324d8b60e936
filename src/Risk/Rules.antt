-- ===== src/Risk/Rules.antt =====
-- backend/risk/rules.py. A rule with its configuration is a value of `RiskRule`; the market
-- calendar, which wraps the package exchange_calendars, is a function of the instant.
use x_social_trader.Base.{
  ℕ, String, str_append, Bool, List, [], ◌∷◌, ℤ, pos, leb_ℤ, contains, if◌then◌else◌,
}
use x_social_trader.Models.{
  ProposedOrder, ValidationContext, RuleCheckResult, passing, failing, Scalar, bool, int, float,
  text,
}
use x_social_trader.Runtime.{Runtime, max_zero}

pub data RiskRule (R : Type 0) : Type 0 where
  position_size : R → RiskRule R
  total_exposure : R → RiskRule R
  max_trades_per_day : ℤ → RiskRule R
  daily_drawdown : R → RiskRule R
  market_hours : (ℕ → Bool) → Bool → RiskRule R
  idempotency : RiskRule R

-- f"{event_id}:{strategy_id}"
abbrev pub idempotency_key : String → String → String
idempotency_key event_id strategy_id = str_append event_id (str_append ":" strategy_id)

module _ {R : Type 0} ⦃py : Runtime R⦄ where
  -- `_order_notional_usd`
  abbrev pub order_notional_usd : ProposedOrder R → R
  order_notional_usd order = py.mul_int order.quantity order.reference_price_usd

  -- `(self._max / 100.0) * context.account_capital_usd`
  abbrev pub limit_usd : R → ValidationContext R → R
  limit_usd max_pct context = py.mul (py.div max_pct py.hundred) context.account_capital_usd

  abbrev pub projected_exposure_usd : ProposedOrder R → ValidationContext R → R
  projected_exposure_usd order context =
      py.add context.total_exposure_usd (order_notional_usd order)

  abbrev pub drawdown_pct : ValidationContext R → R
  drawdown_pct context =
      let peak = context.daily_peak_usd in
      if py.le peak py.zero
      then py.zero
      else max_zero
          (py.mul (py.div (py.sub peak (py.add peak context.daily_pnl_usd)) peak) py.hundred)

  position_size_check : R → ProposedOrder R → ValidationContext R → RuleCheckResult R
  position_size_check max order context =
      let notional = order_notional_usd order in
      let limit = limit_usd max context in
      let inputs : List (String × Scalar R) =
        ("notional_usd", float notional)
        ∷ ("limit_usd", float limit)
        ∷ ("max_position_pct", float max)
        ∷ ("account_capital_usd", float context.account_capital_usd)
        ∷ [] in
      let reason = str_append "notional " (
        str_append (py.fixed2 notional) (
          str_append " USD exceeds " (
            str_append (py.fixed2 limit) (
              str_append " USD (" (
                str_append (py.show max) (
                  str_append "% of "
                    (str_append (py.fixed2 context.account_capital_usd) ")"))))))) in
      if py.lt limit notional
      then failing "position_size" reason inputs
      else passing "position_size" inputs

  total_exposure_check : R → ProposedOrder R → ValidationContext R → RuleCheckResult R
  total_exposure_check max order context =
      let notional = order_notional_usd order in
      let projected = projected_exposure_usd order context in
      let limit = limit_usd max context in
      let inputs : List (String × Scalar R) =
        ("notional_usd", float notional)
        ∷ ("current_exposure_usd", float context.total_exposure_usd)
        ∷ ("projected_exposure_usd", float projected)
        ∷ ("limit_usd", float limit)
        ∷ ("max_total_exposure_pct", float max)
        ∷ [] in
      let reason = str_append "projected exposure " (
        str_append (py.fixed2 projected) (
          str_append " USD exceeds " (
            str_append (py.fixed2 limit)
              (str_append " USD (" (str_append (py.show max) "% cap)"))))) in
      if py.lt limit projected
      then failing "total_exposure" reason inputs
      else passing "total_exposure" inputs

  max_trades_per_day_check : ℤ → ProposedOrder R → ValidationContext R → RuleCheckResult R
  max_trades_per_day_check max order context =
      let inputs : List (String × Scalar R) =
        ("trades_today", int (pos context.trades_today)) ∷ ("max_trades_per_day", int max) ∷ [] in
      let reason =
        str_append (py.show_int (pos context.trades_today))
          (str_append " trades already today (cap " (str_append (py.show_int max) ")")) in
      if leb_ℤ max (pos context.trades_today)
      then failing "max_trades_per_day" reason inputs
      else passing "max_trades_per_day" inputs

  daily_drawdown_check : R → ProposedOrder R → ValidationContext R → RuleCheckResult R
  daily_drawdown_check max order context =
      let drawdown = drawdown_pct context in
      let inputs : List (String × Scalar R) =
        ("daily_peak_usd", float context.daily_peak_usd)
        ∷ ("daily_pnl_usd", float context.daily_pnl_usd)
        ∷ ("drawdown_pct", float drawdown)
        ∷ ("max_drawdown_pct", float max)
        ∷ [] in
      let reason = str_append "drawdown " (
        str_append (py.fixed2 drawdown)
          (str_append "% ≥ cap " (str_append (py.show max) "% — KILL-05 trigger"))) in
      if py.le max drawdown
      then failing "daily_drawdown" reason inputs
      else passing "daily_drawdown" inputs

  market_hours_check : (ℕ → Bool) → Bool → ProposedOrder R → ValidationContext R → RuleCheckResult R
  market_hours_check is_open_at allow order context =
      let inputs : List (String × Scalar R) =
        ("allow_after_hours", bool allow) ∷ ("ts", text (py.isoformat context.now)) ∷ [] in
      if allow
      then passing "market_hours" (("reason", text "after-hours allowed") ∷ inputs)
      else if is_open_at context.now
      then passing "market_hours" inputs
      else failing "market_hours" "market is closed at order time" inputs

  idempotency_check : ProposedOrder R → ValidationContext R → RuleCheckResult R
  idempotency_check order context =
      let inputs : List (String × Scalar R) =
        ("event_id", text order.event_id) ∷ ("strategy_id", text order.strategy_id) ∷ [] in
      let expected_key = idempotency_key order.event_id order.strategy_id in
      if contains order.event_id context.seen_event_ids
      then failing "idempotency"
          (str_append "event_id "
            (str_append (py.repr order.event_id) " already produced an order"))
          inputs
      else if contains expected_key context.seen_idempotency_keys
      then failing "idempotency"
          (str_append "idempotency_key " (str_append (py.repr expected_key) " already used")) inputs
      else passing "idempotency" inputs

  -- `rule.check(order, context)`
  unfoldable pub check : RiskRule R → ProposedOrder R → ValidationContext R → RuleCheckResult R
  unfolding position_size_check total_exposure_check max_trades_per_day_check daily_drawdown_check
      market_hours_check idempotency_check
  check (position_size max) = position_size_check max
  check (total_exposure max) = total_exposure_check max
  check (max_trades_per_day max) = max_trades_per_day_check max
  check (daily_drawdown max) = daily_drawdown_check max
  check (market_hours is_open_at allow) = market_hours_check is_open_at allow
  check idempotency = idempotency_check
