-- ===== src/Providers.antt =====
-- The protocols of backend/providers/base.py, as parameters of the code that uses them.
pub mod Openai
pub mod Feed
pub mod Ib
pub mod Twitterapi
use x_social_trader.Base.{String, Option, none, some, List, ◌∷◌}
use x_social_trader.Models.{ValidatedOrder, OrderReceipt, Position, RawTweet, LlmAnalysisResult}
use x_social_trader.World.{Action, broker_error, llm_error, returned, raised}

-- `BrokerProvider`: its answers depend on the orders that it was given so far; `none` is a raise.
pub record BrokerProvider (R : Type 0) : Type 0 where
  pub account_summary : List (ValidatedOrder R) → Option (List (String × R))
  pub positions : List (ValidatedOrder R) → Option (List (Position R))
  pub accept : List (ValidatedOrder R) → ValidatedOrder R → Option OrderReceipt

module _ {R : Type 0} where
  -- what a call of the broker returns or raises
  abbrev pub answer : {A : Type 0} → Option A → Action R A
  answer none w = (raised broker_error, w)
  answer (some a) w = (returned a, w)

  -- `broker.place_order`: the call is on record whether the broker accepts the order or raises.
  abbrev pub place_order : BrokerProvider R → ValidatedOrder R → Action R OrderReceipt
  place_order broker order w =
      answer (broker.accept w.placed order) (record w { placed = order ∷ w.placed })

-- `LLMProvider`: its answer depends on the tweets that it was given so far; `none` is a raise.
pub record LlmProvider (R : Type 0) : Type 0 where
  pub analysis : List RawTweet → RawTweet → Option (LlmAnalysisResult R)

module _ {R : Type 0} where
  -- `provider.analyze`: the call is on record whether it returns or raises.
  abbrev pub analyze : LlmProvider R → RawTweet → Action R (LlmAnalysisResult R)
  analyze provider t w =
      let w' = record w { analyzed = t ∷ w.analyzed } in
      elim (provider.analysis w.analyzed t) [
        | none ↦ (raised llm_error, w')
        | some result ↦ (returned result, w')
      ]
