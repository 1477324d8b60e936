-- ===== src/Services/LlmPipeline/Effects.antt =====
-- What the parts of a round of the LLM pipeline change.
use mathlib.Core.List.{reverse, append-nil, append_assoc, reverse-append}
use x_social_trader.Base.{
  ℕ, ◌≡◌, ◌≢◌, inl, inr, refl, sym, ◌∙◌, String, eq_iff, false, List, some, [], ◌∷◌, ◌++◌, map,
  arith, All, All-append, Absent, Distinct, length, length-append, Bool-cases, Option-cases,
}
use x_social_trader.Models.{
  RawTweet, RawTweetRow, LlmDecision, LlmAnalysisResult, LlmDecisionRow, Event, Intent, bullish,
  bearish, neutral, noise, intent_value,
}
use x_social_trader.Runtime.{Runtime}
use x_social_trader.World.{World, Redis, returned}
use x_social_trader.Providers.{LlmProvider}
use x_social_trader.KillSwitch.{activate}
use x_social_trader.Services.Budget.{
  LlmBudgetTracker, record_call, trigger_from_llm_budget, add_spend,
}
use x_social_trader.Services.Aliases.{resolve_tickers}
use x_social_trader.Services.LlmPipeline.{
  is_noise, build_event_id, event_known, event_row, store_event, add_events, push_events, fan_out,
  to_dto, decision_row, add_decision, record_analysis, charge,
}

abbrev pub event_ids : {R : Type 0} → List (Event R) → List String
event_ids = map (λ e. e.event_id)

pub event_known-Absent :
    {R : Type 0} (k : String) (es : List (Event R))
    → event_known k es ≡ false
    → Absent k (event_ids es)
event_known-Absent k [] h = tt
event_known-Absent k (e ∷ es) h =
    (ground (arith, h, eq_iff k e.event_id), event_known-Absent k es (ground (arith, h)))

-- A row of `llm_decisions` that holds, in full, what the provider returned for a tweet.
pub record IsAnswer {R : Type 0} (provider : LlmProvider R) (d : LlmDecisionRow R) : Type 0 where
  pub history : List RawTweet
  pub tweet : RawTweet
  pub result : LlmAnalysisResult R
  pub given : provider.analysis history tweet ≡ some result
  pub prompt : d.prompt ≡ result.prompt
  pub raw_response : d.raw_response ≡ result.raw_response
  pub parsed_decision : d.parsed_decision ≡ result.decision
  pub status : d.status ≡ result.status

-- What was added to the tables `events` and `llm_decisions`, where no event id stands twice.
pub record Stored {R : Type 0} (provider : LlmProvider R) (w : World R) (ids : List String) (n : ℕ)
    (w' : World R) : Type 0 where
  pub new : List (Event R)
  pub decisions : List (LlmDecisionRow R)
  pub listed : ids ≡ event_ids (reverse new)
  pub events : w'.db.events ≡ new ++ w.db.events
  pub audited : w'.db.llm_decisions ≡ decisions ++ w.db.llm_decisions
  pub calls : length decisions ≡ n
  pub distinct : Distinct (event_ids w'.db.events)
  pub signals : All (λ (e : Event R). e.intent ≢ "noise") new
  pub answers : All (IsAnswer provider) decisions

not_noise : (i : Intent) → is_noise i ≡ false → intent_value i ≢ "noise"
not_noise bullish h e = cc
not_noise bearish h e = cc
not_noise neutral h e = cc
not_noise noise h e = cc

module _ {R : Type 0} where
  Stored-none :
      (provider : LlmProvider R) (w : World R)
      → Distinct (event_ids w.db.events)
      → Stored provider w [] 0 w
  Stored-none provider w once = record {
    new = [];
    decisions = [];
    listed = refl;
    events = refl;
    audited = refl;
    calls = refl;
    distinct = once;
    signals = tt;
    answers = tt;
  }

  module _ (row : RawTweetRow) (decision_id : ℕ) (decision : LlmDecision R) where
    redis-add_events :
        (ts : List String) (w : World R)
        → (add_events row decision_id decision ts w).1.redis ≡ w.redis
    unfolding add_events
    redis-add_events [] w = refl
    redis-add_events (t ∷ ts) w =
        elim (Bool-cases (event_known (build_event_id row.tweet_id t) w.db.events)) [
          | inl e ↦ ground (arith, e, redis-add_events ts w)
          | inr e ↦ ground (
            arith,
            e,
            redis-add_events ts (store_event (event_row row decision_id decision t w) w),
          )
        ]

    Stored-add_events :
        (provider : LlmProvider R) (ts : List String) (w : World R)
        → is_noise decision.intent ≡ false
        → Distinct (event_ids w.db.events)
        → let (ids, w') = add_events row decision_id decision ts w in Stored provider w ids 0 w'
    unfolding add_events
    Stored-add_events provider [] w h once = Stored-none provider w once
    Stored-add_events provider (t ∷ ts) w h once =
        elim (Bool-cases (event_known (build_event_id row.tweet_id t) w.db.events)) [
          | inl e ↦ rw (e, add_events) (Stored-add_events provider ts w h once)
          | inr e ↦
              let row_of = event_row row decision_id decision t w in
              let rest =
                Stored-add_events provider ts (store_event row_of w) h
                  (event_known-Absent (build_event_id row.tweet_id t) w.db.events e, once) in
              rw (e, add_events)
                (record {
                  new = rest.new ++ row_of ∷ [];
                  decisions = rest.decisions;
                  listed = rw (reverse-append rest.new (row_of ∷ [])) (cc rest.listed);
                  events = rest.events ∙ sym (append_assoc rest.new (row_of ∷ []) w.db.events);
                  audited = rest.audited;
                  calls = rest.calls;
                  distinct = rest.distinct;
                  signals =
                      All-append _ rest.new (row_of ∷ []) rest.signals
                        (not_noise decision.intent h, tt);
                  answers = rest.answers;
                })
        ]

  pub queue-push_events :
      (ks : List String) (w : World R)
      → ((push_events ks w).db ≡ w.db)
        × ((push_events ks w).redis.raw_tweets ≡ w.redis.raw_tweets)
        × ((push_events ks w).redis.events ≡ w.redis.events ++ ks)
  unfolding push_events
  queue-push_events [] w = (refl, refl, sym (append-nil w.redis.events))
  queue-push_events (k ∷ ks) w =
      let redis : Redis R = w.redis in
      let u = record w { redis = record redis { events = w.redis.events ++ k ∷ [] } } in
      let (a, b, c) = queue-push_events ks u in (a, b, c ∙ append_assoc w.redis.events (k ∷ []) ks)

module _ {R : Type 0} ⦃py : Runtime R⦄ where
  Stored-fan_out :
      (provider : LlmProvider R) (row : RawTweetRow) (decision_id : ℕ) (decision : LlmDecision R)
      (w : World R)
      → Distinct (event_ids w.db.events)
      → let (ids, w') = fan_out row decision_id decision w in
        Stored provider w ids 0 w' × (w'.redis ≡ w.redis)
  unfolding fan_out
  Stored-fan_out provider row decision_id decision w once =
      elim (Bool-cases (is_noise decision.intent)) [
        | inl e ↦ rw e (Stored-none provider w once, refl)
        | inr e ↦
            let ts = resolve_tickers py w.db.aliases decision.tickers in
            rw e (
              Stored-add_events row decision_id decision provider ts w e once,
              redis-add_events row decision_id decision ts w,
            )
      ]

  pub charge-frame :
      (budget : LlmBudgetTracker R) (cost_usd : R) (w : World R)
      → let w' = (charge budget cost_usd w).1 in
        (w'.db.events ≡ w.db.events)
        × (w'.db.llm_decisions ≡ w.db.llm_decisions)
        × (w'.redis.raw_tweets ≡ w.redis.raw_tweets)
        × (w'.redis.events ≡ w.redis.events)
  unfolding charge record_call add_spend trigger_from_llm_budget activate
  charge-frame budget cost_usd w = (ground arith, ground arith, ground arith, ground arith)

  pub redis-record_analysis :
      (provider : LlmProvider R) (row : RawTweetRow) (w : World R)
      → (record_analysis provider row w).1.redis ≡ w.redis
  unfolding record_analysis fan_out
  redis-record_analysis provider row w =
      elim (Option-cases (provider.analysis w.analyzed (to_dto row))) [
        | inl a ↦ ground (arith, a)
        | inr (found, a) ↦
            let called : World R = record w { analyzed = to_dto row ∷ w.analyzed } in
            let d = decision_row row found called in
            ground (
              arith,
              a,
              redis-add_events row d.id found.decision
                  (resolve_tickers py w.db.aliases found.decision.tickers) (add_decision d called),
            )
      ]

  -- A tweet that was analysed adds one decision, and the events.
  pub Stored-record_analysis :
      (provider : LlmProvider R) (row : RawTweetRow) (w : World R) (result : LlmAnalysisResult R)
      (ids : List String)
      → Distinct (event_ids w.db.events)
      → (record_analysis provider row w).0 ≡ returned (result, ids)
      → let w' = (record_analysis provider row w).1 in
        Stored provider w ids 1 w' × (w'.redis ≡ w.redis)
  unfolding record_analysis
  Stored-record_analysis provider row w result ids once h =
      elim (Option-cases (provider.analysis w.analyzed (to_dto row))) [
        | inl a ↦ absurd (ground (arith, h, a))
        | inr (found, a) ↦
            let called : World R = record w { analyzed = to_dto row ∷ w.analyzed } in
            let d = decision_row row found called in
            let u = fan_out row d.id found.decision (add_decision d called) in
            let (f, same) =
              Stored-fan_out provider row d.id found.decision (add_decision d called) once in
            let ids_eq : u.0 ≡ ids = ground (arith, h, a) in
            let world_eq : (record_analysis provider row w).1 ≡ u.1 = ground (arith, a) in
            rw world_eq (
              record {
                new = f.new;
                decisions = f.decisions ++ d ∷ [];
                listed = sym ids_eq ∙ f.listed;
                events = f.events;
                audited = f.audited ∙ sym (append_assoc f.decisions (d ∷ []) w.db.llm_decisions);
                calls = omega (arith, f.calls, length-append f.decisions (d ∷ []));
                distinct = f.distinct;
                signals = f.signals;
                answers = All-append (IsAnswer provider) f.decisions (d ∷ []) f.answers (
                  record {
                    history = w.analyzed;
                    tweet = to_dto row;
                    result = found;
                    given = a;
                    prompt = refl;
                    raw_response = refl;
                    parsed_decision = refl;
                    status = refl;
                  },
                  tt,
                );
              },
              same,
            )
      ]
