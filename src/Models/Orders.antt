-- ===== src/Models/Orders.antt =====
-- `ProposedOrder`, `ValidationContext` and the verdicts (backend/risk/models.py), and the broker's
-- DTOs (backend/providers/base.py). Pydantic admits a quantity above zero only, so quantities of
-- orders are natural numbers; a position's may be negative. Instants are microseconds since the
-- epoch, in UTC.
use Prim.Native.Nat.{ℕ}
use Prim.Native.String.{String}
use mathlib.Core.Bool.{Bool, true, false, not}
use mathlib.Core.Option.{Option}
use mathlib.Core.List.{List}
use x_social_trader.Base.{ℤ, all, keep}
use x_social_trader.Models.Enums.{TradingMode, OrderSide, OrderType}
use x_social_trader.Models.Values.{Scalar}

pub record ProposedOrder (R : Type 0) : Type 0 where
  pub event_id : String
  pub strategy_id : String
  pub trading_mode : TradingMode
  pub side : OrderSide
  pub order_type : OrderType
  pub symbol : String
  pub quantity : ℕ
  pub limit_price : Option R
  pub reference_price_usd : R

pub record ValidationContext (R : Type 0) : Type 0 where
  pub now : ℕ
  pub account_capital_usd : R
  pub total_exposure_usd : R
  pub trades_today : ℕ
  pub daily_pnl_usd : R
  pub daily_peak_usd : R
  pub seen_event_ids : List String
  pub seen_idempotency_keys : List String

pub record RuleCheckResult (R : Type 0) : Type 0 where
  pub rule_name : String
  pub passed : Bool
  pub reason : String
  pub inputs : List (String × Scalar R)

-- `RuleCheckResult.passing`: whatever is passed by keyword is an input, a `reason` too.
abbrev pub passing : {R : Type 0} → String → List (String × Scalar R) → RuleCheckResult R
passing name inputs = record { rule_name = name; passed = true; reason = ""; inputs = inputs }

-- `RuleCheckResult.failing`
abbrev pub failing : {R : Type 0} → String → String → List (String × Scalar R) → RuleCheckResult R
failing name reason inputs = record {
  rule_name = name;
  passed = false;
  reason = reason;
  inputs = inputs;
}

pub record ValidationResult (R : Type 0) : Type 0 where
  pub checks : List (RuleCheckResult R)

-- `ValidationResult.ok`
unfoldable pub ok : {R : Type 0} → ValidationResult R → Bool
ok v = all (λ c. c.passed) v.checks

-- `ValidationResult.failures`
unfoldable pub failures : {R : Type 0} → ValidationResult R → List (RuleCheckResult R)
failures v = keep (λ c. not c.passed) v.checks

pub record ValidatedOrder (R : Type 0) : Type 0 where
  pub idempotency_key : String
  pub event_id : String
  pub strategy_id : String
  pub trading_mode : TradingMode
  pub side : OrderSide
  pub order_type : OrderType
  pub symbol : String
  pub quantity : ℕ
  pub limit_price : Option R

pub record OrderReceipt : Type 0 where
  pub idempotency_key : String
  pub external_id : String
  pub submitted_at : ℕ

pub record Position (R : Type 0) : Type 0 where
  pub symbol : String
  pub quantity : ℤ
  pub avg_price_usd : R

-- `Fill` of the broker
pub record BrokerFill (R : Type 0) : Type 0 where
  pub external_fill_id : String
  pub order_external_id : String
  pub symbol : String
  pub quantity : ℕ
  pub price : R
  pub commission_usd : R
  pub filled_at : ℕ
