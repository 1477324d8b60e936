-- ===== src/System/Analyzing.antt =====
-- A run of the LLM pipeline as a sequence of changes.
use mathlib.Core.List.{Mem, mem-cons_self, mem-cons_of_mem}
use x_social_trader.Base.{
  ℕ, zero, suc, ◌≡◌, refl, sym, subst, String, str_append, some, List, [], ◌∷◌, ◌++◌, ℤ, pos, eq_ℤ,
  arith, length, Option-cases, Bool-cases, inl, inr,
}
use x_social_trader.Models.{RawTweetRow, RuleSpec, LlmDecision, LlmAnalysisResult}
use x_social_trader.Runtime.{Runtime}
use x_social_trader.World.{World, Redis, in_session}
use x_social_trader.Providers.{BrokerProvider, LlmProvider}
use x_social_trader.Services.Worker.{Ending}
use x_social_trader.Services.Budget.{
  LlmBudgetTracker, BudgetStatus, record_call, trigger_from_llm_budget, add_spend, spent, day_text,
}
use x_social_trader.Services.LlmPipeline.{
  LlmPipelineReport, is_noise, build_event_id, event_known, event_row, store_event, add_events,
  push_events, fan_out, to_dto, decision_row, add_decision, record_analysis, charge, find_tweet,
  popped_tweet, publish_and_charge, consume_from, run_llm_pipeline, tallied,
}
use x_social_trader.Services.LlmPipeline.Effects.{event_known-Absent}
use x_social_trader.Services.LlmPipeline.Rounds.{
  round, session, charged, halted, drained, skipped, unanalyzed, uncharged, breached, processed,
}
use x_social_trader.System.Switching.{Switches-Change, Switches-trigger_from_llm_budget}
use x_social_trader.System.Changes.{
  Changes, here, next, Changes-trans, Changes-one, messaged, decision_added, event_added, Wrote,
  tweet_keys, decision_keys,
}

find_tweet-mem :
    (n : ℤ) (rs : List RawTweetRow) (row : RawTweetRow)
    → find_tweet n rs ≡ some row
    → Mem row.id (tweet_keys rs)
find_tweet-mem n [] row h = absurd (ground arith)
find_tweet-mem n (r ∷ rs) row h = elim (Bool-cases (eq_ℤ n (pos r.id))) [
  | inl e ↦ let same : r ≡ row = ground (arith, h, e) in rw same mem-cons_self
  | inr e ↦ mem-cons_of_mem r.id (find_tweet-mem n rs row (ground (arith, h, e)))
]

module _ {R : Type 0} where
  Wrote-push_events : (ks : List String) (w : World R) → Wrote w w.db (push_events ks w)
  unfolding push_events
  Wrote-push_events [] w = record { tables = refl; placed = refl; flag = refl }
  Wrote-push_events (k ∷ ks) w =
      let redis : Redis R = w.redis in
      let u = record w { redis = record redis { events = w.redis.events ++ k ∷ [] } } in
      let rest = Wrote-push_events ks u in
      record { tables = rest.tables; placed = rest.placed; flag = rest.flag }

module _ {R : Type 0} (broker : BrokerProvider R) (Admits : RuleSpec R → Type 0) where
  Changes-add_events :
      (row : RawTweetRow) (decision_id : ℕ) (decision : LlmDecision R) (ts : List String)
      (w : World R)
      → Mem row.id (tweet_keys w.db.raw_tweets)
      → Mem decision_id (decision_keys w.db.llm_decisions)
      → Changes broker Admits w (add_events row decision_id decision ts w).1
  unfolding add_events
  Changes-add_events row decision_id decision [] w t d = here
  Changes-add_events row decision_id decision (k ∷ ts) w t d =
      elim (Bool-cases (event_known (build_event_id row.tweet_id k) w.db.events)) [
        | inl e ↦ rw (e, add_events) (Changes-add_events row decision_id decision ts w t d)
        | inr e ↦
            let e_row = event_row row decision_id decision k w in
            rw (e, add_events)
              (Changes-trans
                (Changes-one (
                  event_added e_row
                    (event_known-Absent (build_event_id row.tweet_id k) w.db.events e) t d
                    (record { tables = refl; placed = refl; flag = refl })))
                (Changes-add_events row decision_id decision ts (store_event e_row w) t d))
      ]

module _ {R : Type 0} ⦃py : Runtime R⦄ (broker : BrokerProvider R) (Admits : RuleSpec R → Type 0)
    (provider : LlmProvider R) (budget : LlmBudgetTracker R) where
  Changes-fan_out :
      (row : RawTweetRow) (decision_id : ℕ) (decision : LlmDecision R) (w : World R)
      → Mem row.id (tweet_keys w.db.raw_tweets)
      → Mem decision_id (decision_keys w.db.llm_decisions)
      → Changes broker Admits w (fan_out row decision_id decision w).1
  unfolding fan_out
  Changes-fan_out row decision_id decision w t d = elim (Bool-cases (is_noise decision.intent)) [
    | inl e ↦ rw e here
    | inr e ↦ rw e (Changes-add_events broker Admits row decision_id decision _ w t d)
  ]

  Changes-session :
      (row : RawTweetRow) (queue : List String) (w : World R)
      → Mem row.id (tweet_keys w.db.raw_tweets)
      → Changes broker Admits w (session provider budget row queue w).1
  unfolding in_session record_analysis
  Changes-session row queue w m =
      let p = popped_tweet queue w in
      let called : World R = record p { analyzed = to_dto row ∷ w.analyzed } in
      let s = session provider budget row queue w in
      elim (Option-cases (provider.analysis w.analyzed (to_dto row))) [
        | inl a ↦
            let same : s.1 ≡ called = ground (arith, a) in
            rw same (Changes-one (messaged (record { tables = refl; placed = refl; flag = refl })))
        | inr (found, a) ↦
            let d = decision_row row found called in
            let u = fan_out row d.id found.decision (add_decision d called) in
            let same : s.1 ≡ u.1 = ground (arith, a) in
            rw same (
              Changes-trans
                (Changes-one
                  (decision_added d m (record { tables = refl; placed = refl; flag = refl })))
                (Changes-fan_out row d.id found.decision (add_decision d called) m mem-cons_self))
      ]

  Changes-charge :
      (cost_usd : R) (w : World R) → Changes broker Admits w (charge budget cost_usd w).1
  unfolding charge record_call trigger_from_llm_budget add_spend
  Changes-charge cost_usd w = elim (Bool-cases (py.lt cost_usd py.zero)) [
    | inl e ↦ let same : (charge budget cost_usd w).1 ≡ w = ground (arith, e) in rw same here
    | inr e ↦
        let u = add_spend (str_append "llm_spend:" (day_text py w.now)) cost_usd w in
        let status : BudgetStatus R = record {
          period = day_text py w.now;
          spend_usd = spent (str_append "llm_spend:" (day_text py w.now)) cost_usd w;
          limit_usd = budget.limit;
        } in
        let same : (charge budget cost_usd w).1 ≡ (trigger_from_llm_budget status u).1 =
          ground (arith, e) in
        rw same (
          next (Changes-one (messaged (record { tables = refl; placed = refl; flag = refl })))
            (Switches-Change broker Admits (Switches-trigger_from_llm_budget status u)))
  ]

  Changes-charged :
      (row : RawTweetRow) (queue : List String) (w : World R) (result : LlmAnalysisResult R)
      (ids : List String)
      → Mem row.id (tweet_keys w.db.raw_tweets)
      → Changes broker Admits w (charged provider budget row queue w result ids).1
  unfolding publish_and_charge
  Changes-charged row queue w result ids m =
      let u = (session provider budget row queue w).1 in
      Changes-trans (next (Changes-session row queue w m) (messaged (Wrote-push_events ids u)))
        (Changes-charge result.decision.cost_usd (push_events ids u))

  Changes-popped :
      (queue : List String) (w : World R) → Changes broker Admits w (popped_tweet queue w)
  Changes-popped queue w =
      Changes-one (messaged (record { tables = refl; placed = refl; flag = refl }))

  abbrev Runs : World R → Ending R LlmPipelineReport × World R → Type 0
  Runs w (e, w') = Changes broker Admits w w'

  Changes-consume_from :
      (n : ℕ) (t : LlmPipelineReport) (w : World R)
      → Changes broker Admits w (consume_from provider budget n t w).1
  unfolding consume_from
  Changes-consume_from zero t w = here
  Changes-consume_from (suc n) t w = elim (round provider budget n t w) [
    | halted reason q ↦ subst (Runs w) (sym q) here
    | drained q ↦ subst (Runs w) (sym q) here
    | skipped raw_id queue e q ↦
        subst (Runs w) (sym q)
          (Changes-trans (Changes-popped queue w) (Changes-consume_from n t (popped_tweet queue w)))
    | unanalyzed raw_id queue row x e (n', f) s q ↦
        subst (Runs w) (sym q) (Changes-session row queue w (find_tweet-mem n' _ row f))
    | uncharged raw_id queue row result ids x e (n', f) s q ↦
        subst (Runs w) (sym q) (Changes-charged row queue w result ids (find_tweet-mem n' _ row f))
    | breached raw_id queue row result ids reason e (n', f) s q ↦
        subst (Runs w) (sym q) (Changes-charged row queue w result ids (find_tweet-mem n' _ row f))
    | processed raw_id queue row result ids e (n', f) s q ↦ subst (Runs w) (sym q) (
        Changes-trans (Changes-charged row queue w result ids (find_tweet-mem n' _ row f))
          (Changes-consume_from n (tallied result.status (length ids) t) _))
  ]

  pub Changes-run_llm_pipeline :
      (fuel : ℕ) (w : World R) → Changes broker Admits w (run_llm_pipeline provider budget fuel w).1
  unfolding run_llm_pipeline
  Changes-run_llm_pipeline fuel w = Changes-consume_from fuel _ w
