-- ===== src/Models/Tweets.antt =====
-- What the social feed and the LLM hand over (backend/providers/base.py).
use Prim.Native.Nat.{ℕ}
use Prim.Native.String.{String}
use mathlib.Core.Option.{Option}
use mathlib.Core.List.{List}
use x_social_trader.Models.Enums.{Intent, TimeHorizon, LlmDecisionStatus}

pub record RawTweet : Type 0 where
  pub tweet_id : String
  pub x_user_id : String
  pub username : String
  pub content : String
  pub lang : Option String
  pub raw_json : String
  pub received_at : ℕ

pub record LlmDecision (R : Type 0) : Type 0 where
  pub tickers : List String
  pub intent : Intent
  pub confidence : R
  pub time_horizon : TimeHorizon
  pub reasoning : String
  pub model : String
  pub prompt_version : String
  pub cost_usd : R
  pub latency_ms : ℕ

pub record LlmAnalysisResult (R : Type 0) : Type 0 where
  pub decision : LlmDecision R
  pub prompt : String
  pub raw_response : String
  pub status : LlmDecisionStatus
  pub provider : String
