-- ===== src/Models/Rules.antt =====
-- The rule schemas of backend/rules/models.py, as pydantic hands them on after validation.
use Prim.Native.Nat.{ℕ}
use Prim.Native.String.{String}
use mathlib.Core.Bool.{Bool}
use mathlib.Core.Option.{Option}
use mathlib.Core.List.{List}
use x_social_trader.Base.{ℤ}
use x_social_trader.Models.Enums.{TradingMode, OrderSide, OrderType}
use x_social_trader.Models.Values.{Value}

pub data ConditionField : Type 0 where
  intent ticker confidence time_horizon : ConditionField

pub data ConditionOp : Type 0 where
  eq neq gt gte lt lte mem : ConditionOp

pub record ConditionSpec (R : Type 0) : Type 0 where
  pub field : ConditionField
  pub op : ConditionOp
  pub value : Value R

pub record ActionSpec (R : Type 0) : Type 0 where
  pub trading_mode : TradingMode
  pub side : OrderSide
  pub order_type : OrderType
  pub quantity : ℕ
  pub limit_price : Option R
  pub reference_price_usd : R
  pub strategy_id : String

pub record RuleSpec (R : Type 0) : Type 0 where
  pub id : String
  pub priority : ℤ
  pub enabled : Bool
  pub description : String
  pub conditions : List (ConditionSpec R)
  pub action : ActionSpec R
