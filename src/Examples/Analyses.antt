-- ===== src/Examples/Analyses.antt =====
-- The theorems on the LLM pipeline and on its provider at a stored tweet.
use x_social_trader.Base.{
  ℕ, String, str_eq, ◌≡◌, refl, ◌⊎◌, none, some, List, [], ◌∷◌, ◌++◌, All, pos, arith, Distinct,
  SameTexts, if◌then◌else◌, str_leb, str_leb-IsOrder, IsSorted,
}
use x_social_trader.Models.{
  RawTweet, RawTweetRow, LlmDecisionRow, LlmDecision, AliasRow, bullish, swing, success,
}
use x_social_trader.Models.Json.{
  null, float, text, array, object, nil, cons, Fields, end, field, JsonText,
}
use x_social_trader.Runtime.Sample.{Sample, num, sample}
use x_social_trader.World.{World}
use x_social_trader.Providers.{LlmProvider}
use x_social_trader.Providers.Openai.Parsing.{try_parse_decision, rejected}
use x_social_trader.Providers.Openai.Replies.{Client, Reply, answered, returned, read_reply}
use x_social_trader.Providers.Openai.{
  Server, first_messages, retry_messages, user_message, analyze, result_of,
}
use x_social_trader.Providers.Openai.Retry.{analyze_retries_once, Ends, analyze-Ends}
use x_social_trader.Providers.Openai.Provider.{openai_provider}
use x_social_trader.Services.LlmPipeline.Founding.{IsFounded, run_llm_pipeline-IsFounded}
use x_social_trader.Services.Budget.{LlmBudgetTracker}
use x_social_trader.Services.Aliases.{resolve_tickers}
use x_social_trader.Services.Aliases.Stability.{resolve_tickers-of_same}
use x_social_trader.Services.LlmPipeline.{run_llm_pipeline, to_dto}
use x_social_trader.Services.LlmPipeline.Termination.{HasStopped, run_llm_pipeline-HasStopped}
use x_social_trader.Services.LlmPipeline.Records.{HasRecorded, no_counts}
use x_social_trader.Services.LlmPipeline.Audit.{run_llm_pipeline-HasRecorded}
use x_social_trader.Examples.{quiet, dollars}

abbrev row : RawTweetRow
row = record {
  id = 1;
  tweet_id = "t1";
  x_user_id = "7";
  username = "trader";
  content = "Tesla to the moon";
  lang = none;
  raw_json = "";
  received_at = 1;
}

-- The message names row 1: the sample reads a text as its number of letters.
abbrev waiting : World Sample
waiting = record quiet {
  redis = record quiet.redis { raw_tweets = "1" ∷ [] };
  db = record quiet.db { raw_tweets = row ∷ [] };
}

abbrev bullish_decision : LlmDecision Sample
bullish_decision = record {
  tickers = "TSLA" ∷ [];
  intent = bullish;
  confidence = num (pos 90);
  time_horizon = swing;
  reasoning = "";
  model = "m";
  prompt_version = "v1";
  cost_usd = dollars 1;
  latency_ms = 5;
}

abbrev pub steady : LlmProvider Sample
steady = record { analysis = λ history t. some (result_of t bullish_decision "{}" success) }

abbrev pub large_budget : LlmBudgetTracker Sample
large_budget = record { limit = dollars 25 }

run_llm_pipeline-HasStopped_example : HasStopped (run_llm_pipeline steady large_budget 2 waiting).0
run_llm_pipeline-HasStopped_example =
    run_llm_pipeline-HasStopped steady large_budget 2 waiting (ground arith)

run_llm_pipeline-HasRecorded_example :
    HasRecorded steady no_counts waiting (run_llm_pipeline steady large_budget 2 waiting)
run_llm_pipeline-HasRecorded_example = run_llm_pipeline-HasRecorded steady large_budget 2 waiting tt

abbrev tesla : AliasRow
tesla = record { mention = "tesla"; ticker = "TSLA"; priority = pos 1 }

abbrev mentions : List String
mentions = "tesla" ∷ "AAPL" ∷ []

abbrev more_mentions : List String
more_mentions = "AAPL" ∷ "tesla" ∷ "AAPL" ∷ []

same_mentions : SameTexts mentions more_mentions
same_mentions k = ground arith

resolve_tickers-of_same_example :
    (resolve_tickers sample (tesla ∷ []) mentions
      ≡ resolve_tickers sample (tesla ∷ []) more_mentions)
    × IsSorted str_leb str_leb-IsOrder (resolve_tickers sample (tesla ∷ []) mentions)
    × Distinct (resolve_tickers sample (tesla ∷ []) mentions)
resolve_tickers-of_same_example =
    resolve_tickers-of_same sample (tesla ∷ []) mentions more_mentions same_mentions

-- A server that answers a first request with a text and a retry with another one.
abbrev answer : String → Reply Sample
answer content = answered 200 5 (
    some (
      object (
        field "choices"
          (array
            (cons (object (field "message" (object (field "content" (text content) end)) end)) nil))
          end)))

abbrev server_with : String → String → Server Sample
server_with first second [] messages = answer first
server_with first second (m ∷ ms) messages = answer second

abbrev good : Fields Sample
good =
    field "intent" (text "bullish")
      (field "confidence" (float (num (pos 90))) (field "time_horizon" (text "swing") end))

abbrev some_json : JsonText Sample
some_json = record {
  loads = λ s.
      if str_eq s "good"
      then some (object good)
      else if str_eq s "untagged"
      then some (object (field "tickers" null good))
      else none;
  str_of = λ v. "";
}

abbrev some_client : Client Sample
some_client = record { model = "m"; cost_in = dollars 1; cost_out = dollars 1 }

abbrev some_tweet : RawTweet
some_tweet = to_dto row

analyze_retries_once_example :
    let server = server_with "hello" "good" in
    let first = first_messages "system" (user_message sample some_tweet) in
    let sent' = (analyze some_json server some_client "system" some_tweet []).1 in
    (sent' ≡ first ∷ [])
    ⊎ ((raw : String) × (cost : Sample) × (latency_ms : ℕ) × (sent'
          ≡ retry_messages "system" (user_message sample some_tweet) raw ∷ first ∷ [])
        × (read_reply some_client (server [] first) ≡ returned (raw, cost, latency_ms))
        × (try_parse_decision some_json raw some_client.model cost latency_ms ≡ rejected))
analyze_retries_once_example =
    analyze_retries_once some_json (server_with "hello" "good") some_client "system" some_tweet []

analyze-Ends_example :
    let server = server_with "hello" "good" in
    Ends some_json server some_client "system" some_tweet
      (analyze some_json server some_client "system" some_tweet []).0
analyze-Ends_example =
    analyze-Ends some_json (server_with "hello" "good") some_client "system" some_tweet []

run_llm_pipeline-IsFounded_example :
    let provider = openai_provider some_json (server_with "hello" "good") some_client "system" in
    let (e, w') = run_llm_pipeline provider large_budget 2 waiting in
    (new : List (LlmDecisionRow Sample)) × (w'.db.llm_decisions ≡ new ++ waiting.db.llm_decisions)
    × All (IsFounded some_json (server_with "hello" "good") some_client "system") new
run_llm_pipeline-IsFounded_example =
    run_llm_pipeline-IsFounded some_json (server_with "hello" "good") some_client "system" refl refl
      large_budget 2 waiting tt
