-- ===== src/Models/Enums.antt =====
-- backend/models/enums.py, with the texts that the members stand for where the program reads them.
use Prim.Native.String.{String}

pub data TradingMode : Type 0 where
  paper live : TradingMode

pub data Intent : Type 0 where
  bullish bearish neutral noise : Intent

pub data TimeHorizon : Type 0 where
  intraday swing long : TimeHorizon

pub data OrderSide : Type 0 where
  buy sell : OrderSide

pub data OrderType : Type 0 where
  market limit : OrderType

pub data LlmDecisionStatus : Type 0 where
  success invalid_json error : LlmDecisionStatus

pub data RuleOutcome : Type 0 where
  matched skipped failed : RuleOutcome

pub data KillSwitchTrigger : Type 0 where
  manual env_var drawdown budget_llm budget_twitterapi : KillSwitchTrigger

-- `Intent.value`
abbrev pub intent_value : Intent → String
intent_value bullish = "bullish"
intent_value bearish = "bearish"
intent_value neutral = "neutral"
intent_value noise = "noise"

-- `TimeHorizon.value`
abbrev pub horizon_value : TimeHorizon → String
horizon_value intraday = "intraday"
horizon_value swing = "swing"
horizon_value long = "long"
