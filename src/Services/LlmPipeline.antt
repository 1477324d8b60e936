-- ===== src/Services/LlmPipeline.antt =====
-- backend/services/llm_pipeline.py, with `drain=True`.
pub mod Rounds
pub mod Effects
pub mod Records
pub mod Termination
pub mod Audit
pub mod Loss
pub mod Founding
use x_social_trader.Base.{
  ℕ, zero, suc, ◌+◌, String, str_append, str_eq, Bool, true, false, ◌||◌, Option, none, some, List,
  [], ◌∷◌, ◌++◌, map, length, ℤ, pos, eq_ℤ, if◌then◌else◌,
}
use x_social_trader.Models.{
  RawTweet, RawTweetRow, LlmDecision, LlmAnalysisResult, LlmDecisionRow, LlmDecisionStatus,
  invalid_json, Intent, noise, Event, AliasRow, intent_value, horizon_value,
}
use x_social_trader.Runtime.{Runtime}
use x_social_trader.World.{
  World, Redis, Db, Result, returned, raised, Action, ◌>>=◌, ◌>>◌, gets, modify, pure, in_session,
}
use x_social_trader.World.Tables.{next_id}
use x_social_trader.Providers.{LlmProvider, analyze}
use x_social_trader.KillSwitch.{is_active}
use x_social_trader.Services.Worker.{Ending, finished, crashed, out_of_fuel}
use x_social_trader.Services.Budget.{
  LlmBudgetTracker, BudgetStatus, record_call, over_budget, trigger_from_llm_budget,
}
use x_social_trader.Services.Aliases.{resolve_tickers}

pub record LlmPipelineReport : Type 0 where
  pub analyzed : ℕ
  pub invalid_json : ℕ
  pub events_published : ℕ
  pub stopped_reason : Option String

-- `_to_dto`
unfoldable pub to_dto : RawTweetRow → RawTweet
to_dto row = record {
  tweet_id = row.tweet_id;
  x_user_id = row.x_user_id;
  username = row.username;
  content = row.content;
  lang = row.lang;
  raw_json = row.raw_json;
  received_at = row.received_at;
}

-- `_build_event_id`
abbrev pub build_event_id : String → String → String
build_event_id tweet_id ticker = str_append tweet_id (str_append ":" ticker)

-- `session.get(DBRawTweet, db_id)`
abbrev pub find_tweet : ℤ → List RawTweetRow → Option RawTweetRow
find_tweet n [] = none
find_tweet n (r ∷ rs) = if eq_ℤ n (pos r.id) then some r else find_tweet n rs

-- `result.status is LLMDecisionStatus.INVALID_JSON`
abbrev pub is_invalid : LlmDecisionStatus → Bool
is_invalid invalid_json = true
is_invalid _ = false

abbrev pub is_noise : Intent → Bool
is_noise noise = true
is_noise _ = false

-- the counters after a tweet with that status and that many new events
abbrev pub tallied : LlmDecisionStatus → ℕ → LlmPipelineReport → LlmPipelineReport
tallied status n t = record t {
  analyzed = suc t.analyzed;
  invalid_json = t.invalid_json + (if is_invalid status then 1 else 0);
  events_published = t.events_published + n;
}

abbrev pub ended_by : Option String → LlmPipelineReport → LlmPipelineReport
ended_by reason t = record t { stopped_reason = reason }

module _ {R : Type 0} where
  -- The row of `llm_decisions`, with the key that `flush` gives it.
  abbrev pub decision_row : RawTweetRow → LlmAnalysisResult R → World R → LlmDecisionRow R
  decision_row row result w = record {
    id = next_id (map (λ (d : LlmDecisionRow R). d.id) w.db.llm_decisions);
    raw_tweet_id = row.id;
    prompt_version = result.decision.prompt_version;
    model = result.decision.model;
    provider = result.provider;
    prompt = result.prompt;
    raw_response = result.raw_response;
    parsed_decision = result.decision;
    cost_usd = result.decision.cost_usd;
    latency_ms = result.decision.latency_ms;
    status = result.status;
  }

  abbrev pub add_decision : LlmDecisionRow R → World R → World R
  add_decision d w =
      let db : Db R = w.db in record w { db = record db { llm_decisions = d ∷ w.db.llm_decisions } }

  -- `select(DBEvent.id).where(DBEvent.event_id == event_id)` finds a row.
  abbrev pub event_known : String → List (Event R) → Bool
  event_known k [] = false
  event_known k (e ∷ es) = str_eq k e.event_id || event_known k es

  -- the row of `events` for a ticker
  abbrev pub event_row : RawTweetRow → ℕ → LlmDecision R → String → World R → Event R
  event_row row decision_id decision ticker w = record {
    id = next_id (map (λ (e : Event R). e.id) w.db.events);
    event_id = build_event_id row.tweet_id ticker;
    raw_tweet_id = row.id;
    llm_decision_id = decision_id;
    ticker = ticker;
    intent = intent_value decision.intent;
    confidence = decision.confidence;
    time_horizon = horizon_value decision.time_horizon;
  }

  abbrev pub store_event : Event R → World R → World R
  store_event e w = let db : Db R = w.db in record w { db = record db { events = e ∷ w.db.events } }

  -- The loop over the tickers: the ids of the events that it adds. The session flushes before each
  -- query, so an event that the loop has added is found.
  unfoldable pub add_events :
      RawTweetRow → ℕ → LlmDecision R → List String → World R → List String × World R
  add_events row decision_id decision [] w = ([], w)
  add_events row decision_id decision (ticker ∷ tickers) w =
      elim (event_known (build_event_id row.tweet_id ticker) w.db.events) [
        | true ↦ add_events row decision_id decision tickers w
        | false ↦
            let e = event_row row decision_id decision ticker w in
            let (ids, w') = add_events row decision_id decision tickers (store_event e w) in
            (e.event_id ∷ ids, w')
      ]

  -- the `rpush` of each event id
  unfoldable pub push_events : List String → World R → World R
  push_events [] w = w
  push_events (k ∷ ks) w =
      let redis : Redis R = w.redis in
      push_events ks (record w { redis = record redis { events = w.redis.events ++ k ∷ [] } })

  -- LPOP of the queue of tweets, when it is not empty
  abbrev pub popped_tweet : List String → World R → World R
  popped_tweet queue w =
      let redis : Redis R = w.redis in record w { redis = record redis { raw_tweets = queue } }

module _ {R : Type 0} ⦃py : Runtime R⦄ where
  -- What follows the decision row: one event for each resolved ticker, unless the tweet is noise.
  unfoldable pub fan_out : RawTweetRow → ℕ → LlmDecision R → World R → List String × World R
  fan_out row decision_id decision w =
      if is_noise decision.intent
      then ([], w)
      else add_events row decision_id decision (resolve_tickers py w.db.aliases decision.tickers) w

  -- Step 3, the body of the session for a tweet that was found.
  unfoldable pub record_analysis :
      LlmProvider R → RawTweetRow → Action R (LlmAnalysisResult R × List String)
  record_analysis provider row = do
    result ← analyze provider (to_dto row)
    d ← gets (decision_row row result)
    modify (add_decision d)
    (λ w. let (ids, w') = fan_out row d.id result.decision w in (returned (result, ids), w'))

  -- Step 5: the reason to stop, if there is one.
  unfoldable pub charge : LlmBudgetTracker R → R → Action R (Option String)
  charge budget cost_usd w = elim (record_call budget cost_usd w).0 [
    | raised e ↦ (raised e, (record_call budget cost_usd w).1)
    | returned status ↦
        let w' = (record_call budget cost_usd w).1 in
        let (activated, w'') = trigger_from_llm_budget status w' in
        if over_budget status
        then (
          returned (
              if activated
              then some (
                  str_append "llm_budget_breached:"
                    (str_append (py.fixed4 status.spend_usd) "_USD"))
              else none),
          w'',
        )
        else (returned none, w')
  ]

  module _ (provider : LlmProvider R) (budget : LlmBudgetTracker R) where
    -- Steps 4 and 5, after the session.
    unfoldable pub publish_and_charge : LlmAnalysisResult R → List String → Action R (Option String)
    publish_and_charge result ids w = charge budget result.decision.cost_usd (push_events ids w)

    -- The loop, with fuel for its rounds.
    unfoldable pub consume_from :
        ℕ → LlmPipelineReport → World R → Ending R LlmPipelineReport × World R
    consume_from zero t w = (out_of_fuel, w)
    consume_from (suc n) t w = elim (is_active w).active [
      | true ↦
          (finished (ended_by (some (str_append "kill_switch_active:" (is_active w).source)) t), w)
      | false ↦ elim w.redis.raw_tweets [
        | [] ↦ (finished t, w)
        | raw_id ∷ queue ↦ elim (py.int_of_text raw_id) [
          | none ↦ consume_from n t (popped_tweet queue w)
          | some db_id ↦ elim (find_tweet db_id w.db.raw_tweets) [
            | none ↦ consume_from n t (popped_tweet queue w)
            | some row ↦ elim (in_session (record_analysis provider row) (popped_tweet queue w)).0 [
              | raised e ↦
                  (crashed e, (in_session (record_analysis provider row) (popped_tweet queue w)).1)
              | returned (result, ids) ↦
                  let w' = (in_session (record_analysis provider row) (popped_tweet queue w)).1 in
                  elim (publish_and_charge result ids w').0 [
                    | raised e ↦ (crashed e, (publish_and_charge result ids w').1)
                    | returned none ↦
                        consume_from n (tallied result.status (length ids) t)
                          (publish_and_charge result ids w').1
                    | returned (some reason) ↦ (
                      finished (ended_by (some reason) (tallied result.status (length ids) t)),
                      (publish_and_charge result ids w').1,
                    )
                  ]
            ]
          ]
        ]
      ]
    ]

    -- `run_llm_pipeline(..., drain=True)`
    unfoldable pub run_llm_pipeline : ℕ → World R → Ending R LlmPipelineReport × World R
    run_llm_pipeline fuel w =
        consume_from fuel
          (record { analyzed = 0; invalid_json = 0; events_published = 0; stopped_reason = none }) w
