-- ===== src/Models/Rows.antt =====
-- The rows of the tables that the modelled code reads and writes. `id` is the primary key; the
-- column `created_at` is kept where the code reads it (orders).
use Prim.Native.Nat.{ℕ}
use Prim.Native.String.{String}
use mathlib.Core.Bool.{Bool}
use mathlib.Core.Option.{Option}
use mathlib.Core.List.{List}
use x_social_trader.Base.{ℤ}
use x_social_trader.Models.Enums.{
  TradingMode, OrderSide, OrderType, RuleOutcome, KillSwitchTrigger, LlmDecisionStatus,
}
use x_social_trader.Models.Values.{Scalar}
use x_social_trader.Models.Orders.{ProposedOrder}
use x_social_trader.Models.Tweets.{LlmDecision}
use x_social_trader.Models.Rules.{ConditionSpec}

pub record Event (R : Type 0) : Type 0 where
  pub id : ℕ
  pub event_id : String
  pub raw_tweet_id : ℕ
  pub llm_decision_id : ℕ
  pub ticker : String
  pub intent : String
  pub confidence : R
  pub time_horizon : String

-- The `inputs` that the rule engine records.
pub record EngineInputs (R : Type 0) : Type 0 where
  pub intent : String
  pub ticker : String
  pub confidence : R
  pub time_horizon : String
  pub rule_conditions : List (ConditionSpec R)
  pub rule_enabled : Bool

-- A JSON column of `rule_evaluations`: the risk manager's payload, or the engine's inputs.
pub data Payload (R : Type 0) : Type 0 where
  risk_payload : List (String × Scalar R) → Payload R
  engine_inputs : EngineInputs R → Payload R

pub record RuleEvaluation (R : Type 0) : Type 0 where
  pub event_id : String
  pub rule_id : String
  pub rule_priority : ℤ
  pub inputs_hash : String
  pub inputs_json : Payload R
  pub outcome : RuleOutcome
  pub proposed_order_json : Option (ProposedOrder R)

pub record Order (R : Type 0) : Type 0 where
  pub id : ℕ
  pub created_at : ℕ
  pub idempotency_key : String
  pub event_id : String
  pub strategy_id : String
  pub external_id : Option String
  pub trading_mode : TradingMode
  pub side : OrderSide
  pub order_type : OrderType
  pub symbol : String
  pub quantity : ℕ
  pub limit_price : Option R

pub record KillSwitchEvent : Type 0 where
  pub id : ℕ
  pub activated : Bool
  pub trigger : KillSwitchTrigger
  pub actor : String
  pub reason : Option String

pub record RawTweetRow : Type 0 where
  pub id : ℕ
  pub tweet_id : String
  pub x_user_id : String
  pub username : String
  pub content : String
  pub lang : Option String
  pub raw_json : String
  pub received_at : ℕ

pub record PositionRow (R : Type 0) : Type 0 where
  pub id : ℕ
  pub symbol : String
  pub quantity : ℤ
  pub avg_price_usd : R
  pub realized_pnl_usd : R

pub record LlmDecisionRow (R : Type 0) : Type 0 where
  pub id : ℕ
  pub raw_tweet_id : ℕ
  pub prompt_version : String
  pub model : String
  pub provider : String
  pub prompt : String
  pub raw_response : String
  pub parsed_decision : LlmDecision R
  pub cost_usd : R
  pub latency_ms : ℕ
  pub status : LlmDecisionStatus

pub record AliasRow : Type 0 where
  pub mention : String
  pub ticker : String
  pub priority : ℤ

-- `WatchedAccount`
pub record WatchedAccountRow : Type 0 where
  pub username : String
  pub active : Bool

-- `Fill`
pub record FillRow (R : Type 0) : Type 0 where
  pub id : ℕ
  pub order_id : ℕ
  pub external_fill_id : String
  pub symbol : String
  pub quantity : ℕ
  pub price : R
  pub commission_usd : R
  pub filled_at : ℕ
