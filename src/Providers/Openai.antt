-- ===== src/Providers/Openai.antt =====
-- backend/providers/openai_compatible.py. The server's replies are a function of the requests before
-- and of the request; the parser of JSON texts and `str` of a value are parameters.
pub mod Parsing
pub mod Replies
pub mod Retry
pub mod Bounds
pub mod Escapes
pub mod Provider
use Prim.Native.String
use package.text.Mathlib.Text.{starts_with}
use x_social_trader.Base.{
  ℕ, zero, suc, ◌+◌, String, str_append, str_eq, Bool, true, false, ◌||◌, ◌&&◌, not, leb, Option,
  none, some, List, [], ◌∷◌, ◌++◌, ℤ, pos, negsuc, eq_ℤ, strip, if◌then◌else◌,
}
use x_social_trader.Models.{
  RawTweet, LlmDecision, LlmAnalysisResult, LlmDecisionStatus, success, invalid_json, noise,
  intraday,
}
use x_social_trader.Models.Json.{
  Json, null, bool, int, float, text, array, object, Items, nil, cons, Fields, end, field,
  get_field,
}
use x_social_trader.Models.Json.{JsonText}
use x_social_trader.Runtime.{Runtime}
use x_social_trader.Runtime.Truth.{is_truthy, truthy_or}
use x_social_trader.Providers.Openai.Parsing.{Parse, parsed, rejected, escaped, try_parse_decision}
use x_social_trader.Providers.Openai.Replies.{
  Reply, Called, returned, openai_error, other_error, Client, ◌>>=◌, read_reply,
}

pub record Message : Type 0 where
  pub role : String
  pub content : String

-- A server: its reply to a request, from the requests before it, the newest first.
abbrev pub Server : Type 0 → Type 0
Server R = List (List Message) → List Message → Reply R

-- `text[text.find("## System"):]`, `none` when the marker is missing
abbrev pub system_block : String → Option String
system_block String.[] = none
system_block (String.◌∷◌ c s) =
    let rest = system_block s in
    if starts_with (String.◌∷◌ c s) "## System" then some (String.◌∷◌ c s) else rest

-- `_load_system_prompt`, from the text of the file
unfoldable pub load_system_prompt : String → Called String
load_system_prompt prompt = elim (system_block prompt) [
  | none ↦ openai_error
  | some s ↦ returned (strip s)
]

-- the guards of `OpenAICompatibleProvider.__init__`
unfoldable pub new_client : {R : Type 0} → String → String → String → R → R → Called (Client R)
new_client api_key base_url model cost_in cost_out =
    if str_eq api_key "" || str_eq base_url "" || str_eq model ""
    then openai_error
    else returned (record { model = model; cost_in = cost_in; cost_out = cost_out })

-- `_RETRY_CORRECTION`
abbrev pub retry_correction : String
retry_correction =
    "Your previous response was not valid JSON or did not match the required schema. Respond again with ONLY a JSON object containing keys: tickers (list of uppercase strings), intent (one of bullish/bearish/neutral/noise), confidence (0.0-1.0), time_horizon (intraday/swing/long), reasoning (1-2 sentences). No markdown fences, no commentary."

-- `_user_message`
unfoldable pub user_message : {R : Type 0} → Runtime R → RawTweet → String
user_message py tweet =
    let lang : String = elim tweet.lang [
      | none ↦ "unknown"
      | some s ↦ if str_eq s "" then "unknown" else s
    ] in
    str_append "Tweet from @" (
      str_append tweet.username (
        str_append " (" (
          str_append lang (
            str_append ", posted "
              (str_append (py.isoformat tweet.received_at) (str_append "):\n" tweet.content))))))

-- the messages of the first request, and of the retry after the answer `raw`
abbrev pub first_messages : String → String → List Message
first_messages system user_msg =
    record { role = "system"; content = system } ∷ record { role = "user"; content = user_msg } ∷ []

abbrev pub retry_messages : String → String → String → List Message
retry_messages system user_msg raw =
    first_messages system user_msg
    ++ (record { role = "assistant"; content = raw }
        ∷ record { role = "system"; content = retry_correction }
        ∷ [])

module _ {R : Type 0} ⦃py : Runtime R⦄ where
  -- `_noise_decision`
  unfoldable pub noise_decision : String → ℕ → R → LlmDecision R
  noise_decision model latency_ms cost_usd = record {
    tickers = [];
    intent = noise;
    confidence = py.zero;
    time_horizon = intraday;
    reasoning = "LLM response could not be parsed as the required JSON schema.";
    model = model;
    prompt_version = "v1";
    cost_usd = cost_usd;
    latency_ms = latency_ms;
  }

  abbrev pub result_of : RawTweet → LlmDecision R → String → LlmDecisionStatus → LlmAnalysisResult R
  result_of tweet decision raw status = record {
    decision = decision;
    prompt = user_message py tweet;
    raw_response = raw;
    status = status;
    provider = "openai_compatible";
  }

  module _ (json : JsonText R) (server : Server R) (client : Client R) (system : String)
      (tweet : RawTweet) where
    -- `analyze` from the retry on, `sent` being the requests so far
    unfoldable pub retry :
        List (List Message) → String → R → ℕ → Called (LlmAnalysisResult R) × List (List Message)
    retry sent first_raw first_cost first_latency =
        let messages = retry_messages system (user_message py tweet) first_raw in
        (
          do
            (raw, cost, latency) ← read_reply client (server sent messages)
            let total_cost = py.add first_cost cost
            let total_latency = first_latency + latency
            elim (try_parse_decision json raw client.model total_cost total_latency) [
              | parsed decision ↦ returned (result_of tweet decision raw success)
              | rejected ↦ returned (
                  result_of tweet (noise_decision client.model total_latency total_cost) raw
                    invalid_json)
              | escaped ↦ other_error
            ],
          messages ∷ sent,
        )

    -- `analyze`
    unfoldable pub analyze :
        List (List Message) → Called (LlmAnalysisResult R) × List (List Message)
    analyze sent =
        let messages = first_messages system (user_message py tweet) in
        let sent' = messages ∷ sent in
        elim (read_reply client (server sent messages)) [
          | returned (raw, cost, latency) ↦
              elim (try_parse_decision json raw client.model cost latency) [
                | parsed decision ↦ (returned (result_of tweet decision raw success), sent')
                | rejected ↦ retry sent' raw cost latency
                | escaped ↦ (other_error, sent')
              ]
          | openai_error ↦ (openai_error, sent')
          | other_error ↦ (other_error, sent')
        ]
