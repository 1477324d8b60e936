-- ===== src/Providers/Openai/Parsing.antt =====
-- `_try_parse_decision`: what an answer of the model is read as.

use x_social_trader.Base.{
  ℕ, String, str_eq, true, false, ◌&&◌, Option, none, some, List, [], map, pos, if◌then◌else◌,
}
use x_social_trader.Models.{
  LlmDecision, Intent, bullish, bearish, neutral, noise, TimeHorizon, intraday, swing, long,
}
use x_social_trader.Models.Json.{
  Json, bool, int, float, text, array, object, Fields, get_field, keys, items_of, JsonText,
  characters_of,
}
use x_social_trader.Runtime.{Runtime}

-- A value, an error that `_try_parse_decision` answers with None, or an error that escapes it.
pub data Parse {ℓ} (A : Type ℓ) : Type ℓ where
  parsed : A → Parse A
  rejected escaped : Parse A

infixl 5 ◌>>=◌
unfoldable pub ◌>>=◌ {ℓ κ} : {A : Type ℓ} {B : Type κ} → Parse A → (A → Parse B) → Parse B
parsed a >>= f = f a
rejected >>= f = rejected
escaped >>= f = escaped

-- `Intent(value)`
abbrev pub intent_of : String → Parse Intent
intent_of s =
    if str_eq s "bullish"
    then parsed bullish
    else if str_eq s "bearish"
    then parsed bearish
    else if str_eq s "neutral"
    then parsed neutral
    else if str_eq s "noise"
    then parsed noise
    else rejected

-- `TimeHorizon(value)`
abbrev pub horizon_of : String → Parse TimeHorizon
horizon_of s =
    if str_eq s "intraday"
    then parsed intraday
    else if str_eq s "swing"
    then parsed swing
    else if str_eq s "long"
    then parsed long
    else rejected

abbrev pub or_reject {ℓ} : {A : Type ℓ} → Option A → Parse A
or_reject none = rejected
or_reject (some a) = parsed a

abbrev pub or_escape {ℓ} : {A : Type ℓ} → Option A → Parse A
or_escape none = escaped
or_escape (some a) = parsed a

module _ {R : Type 0} where
  -- `payload[key]` as a member of an enumeration
  abbrev pub text_of : Json R → Parse String
  text_of (text s) = parsed s
  text_of _ = rejected

  -- a payload that is a mapping
  abbrev pub object_of : Option (Json R) → Parse (Fields R)
  object_of (some (object fs)) = parsed fs
  object_of _ = rejected

module _ {R : Type 0} ⦃py : Runtime R⦄ where
  -- `float(value)`: a `ValueError` is answered, a `TypeError` or an `OverflowError` is not.
  unfoldable pub float_of : Json R → Parse R
  float_of (int n) = or_escape (py.of_int n)
  float_of (bool true) = or_escape (py.of_int (pos 1))
  float_of (bool false) = or_escape (py.of_int (pos 0))
  float_of (float x) = parsed x
  float_of (text s) = or_reject (py.of_text s)
  float_of _ = escaped

  -- the check of `LLMDecision` on the confidence
  abbrev pub checked : LlmDecision R → Parse (LlmDecision R)
  checked d = if py.le py.zero d.confidence && py.le d.confidence py.one then parsed d else rejected

module _ {R : Type 0} ⦃py : Runtime R⦄ (json : JsonText R) where
  -- `[str(t).upper() for t in value]`: what is no text, list or mapping cannot be iterated.
  unfoldable pub tickers_of : Json R → Parse (List String)
  tickers_of (array vs) = parsed (map (λ v. py.upper (json.str_of v)) (items_of vs))
  tickers_of (text s) = parsed (map py.upper (characters_of s))
  tickers_of (object fs) = parsed (map py.upper (keys fs))
  tickers_of _ = escaped

  -- `payload.get("tickers", [])`
  unfoldable pub tickers_field : Fields R → Parse (List String)
  unfolding tickers_of
  tickers_field fs = elim (get_field "tickers" fs) [ none ↦ parsed [] | some v ↦ tickers_of v ]

  -- the arguments of `LLMDecision`, in their order
  unfoldable pub decision_of : Fields R → String → R → ℕ → Parse (LlmDecision R)
  unfolding tickers_field float_of
  decision_of fs model cost_usd latency_ms = do
    tickers ← tickers_field fs
    intent_value ← or_reject (get_field "intent" fs)
    intent_text ← text_of intent_value
    intent ← intent_of intent_text
    confidence_value ← or_reject (get_field "confidence" fs)
    confidence ← float_of confidence_value
    horizon_value ← or_reject (get_field "time_horizon" fs)
    horizon_text ← text_of horizon_value
    time_horizon ← horizon_of horizon_text
    checked (record {
      tickers = tickers;
      intent = intent;
      confidence = confidence;
      time_horizon = time_horizon;
      reasoning = elim (get_field "reasoning" fs) [ none ↦ "" | some v ↦ json.str_of v ];
      model = model;
      prompt_version = "v1";
      cost_usd = cost_usd;
      latency_ms = latency_ms;
    })

  -- `_try_parse_decision`; None is `rejected`.
  unfoldable pub try_parse_decision : String → String → R → ℕ → Parse (LlmDecision R)
  try_parse_decision raw model cost_usd latency_ms = do
    fs ← object_of (json.loads raw)
    decision_of fs model cost_usd latency_ms
