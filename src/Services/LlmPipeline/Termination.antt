-- ===== src/Services/LlmPipeline/Termination.antt =====
-- A run of the LLM pipeline ends, also where a tweet cannot be analysed.
use x_social_trader.Base.{ℕ, zero, suc, ◌<◌, ◌≤◌, ◌≡◌, sym, subst, String, List, arith, length, ◌∙◌}
use x_social_trader.Models.{RawTweetRow, LlmAnalysisResult, LlmDecisionStatus}
use x_social_trader.Runtime.{Runtime}
use x_social_trader.World.{World, Error, in_session}
use x_social_trader.Providers.{LlmProvider}
use x_social_trader.Services.Worker.{Ending, finished, crashed}
use x_social_trader.Services.Budget.{LlmBudgetTracker}
use x_social_trader.Services.LlmPipeline.{
  LlmPipelineReport, popped_tweet, push_events, publish_and_charge, consume_from, run_llm_pipeline,
  tallied,
}
use x_social_trader.Services.LlmPipeline.Effects.{
  redis-record_analysis, queue-push_events, charge-frame,
}
use x_social_trader.Services.LlmPipeline.Rounds.{
  round, session, charged, halted, drained, skipped, unanalyzed, uncharged, breached, processed,
}

-- A run has ended with a report that counts no more invalid answers than tweets, or with an error.
pub data HasStopped {R : Type 0} : Ending R LlmPipelineReport → Type 0 where
  reported : (t : LlmPipelineReport) → t.invalid_json ≤ t.analyzed → HasStopped (finished t)
  failed_with : (e : Error R) → HasStopped (crashed e)

tallied_le :
    (s : LlmDecisionStatus) (n : ℕ) (t : LlmPipelineReport)
    → t.invalid_json ≤ t.analyzed
    → (tallied s n t).invalid_json ≤ (tallied s n t).analyzed
tallied_le s n t h = ground arith

module _ {R : Type 0} ⦃py : Runtime R⦄ (provider : LlmProvider R)
    (budget : LlmBudgetTracker R) where
  queue-session :
      (row : RawTweetRow) (queue : List String) (w : World R)
      → (session provider budget row queue w).1.redis.raw_tweets ≡ queue
  unfolding in_session
  queue-session row queue w =
      ground (arith, redis-record_analysis provider row (popped_tweet queue w))

  queue-charged :
      (row : RawTweetRow) (queue : List String) (w : World R) (result : LlmAnalysisResult R)
      (ids : List String)
      → (charged provider budget row queue w result ids).1.redis.raw_tweets ≡ queue
  unfolding publish_and_charge
  queue-charged row queue w result ids =
      let u = (session provider budget row queue w).1 in
      let (_, pr, _) = queue-push_events ids u in
      let (_, _, cr, _) = charge-frame budget result.decision.cost_usd (push_events ids u) in
      cr ∙ pr ∙ queue-session row queue w

  abbrev Stops : Ending R LlmPipelineReport × World R → Type 0
  Stops (e, w) = HasStopped e

  consume_from-HasStopped :
      (n : ℕ) (t : LlmPipelineReport) (w : World R)
      → length w.redis.raw_tweets < n
      → t.invalid_json ≤ t.analyzed
      → HasStopped (consume_from provider budget n t w).0
  unfolding consume_from
  consume_from-HasStopped zero t w h b = absurd (omega arith)
  consume_from-HasStopped (suc n) t w h b = elim (round provider budget n t w) [
    | halted reason q ↦ subst Stops (sym q) (reported _ b)
    | drained q ↦ subst Stops (sym q) (reported t b)
    | skipped raw_id queue e q ↦
        subst Stops (sym q)
          (consume_from-HasStopped n t (popped_tweet queue w) (ground (arith, e, h)) b)
    | unanalyzed raw_id queue row x e f s q ↦ subst Stops (sym q) (failed_with x)
    | uncharged raw_id queue row result ids x e f s q ↦ subst Stops (sym q) (failed_with x)
    | breached raw_id queue row result ids reason e f s q ↦
        subst Stops (sym q) (reported _ (tallied_le result.status (length ids) t b))
    | processed raw_id queue row result ids e f s q ↦
        let fewer : length queue < n = ground (arith, e, h) in
        subst Stops (sym q) (
          consume_from-HasStopped n (tallied result.status (length ids) t)
            (charged provider budget row queue w result ids).1
            (rw (queue-charged row queue w result ids) fewer)
            (tallied_le result.status (length ids) t b))
  ]

  -- With more fuel than the queue has messages, a run of the LLM pipeline does not run out of it: it
  -- ends with an error that is not caught, or with a report that counts no more invalid answers than
  -- analysed tweets.
  pub run_llm_pipeline-HasStopped :
      (fuel : ℕ) (w : World R)
      → length w.redis.raw_tweets < fuel
      → HasStopped (run_llm_pipeline provider budget fuel w).0
  unfolding run_llm_pipeline
  run_llm_pipeline-HasStopped fuel w h = consume_from-HasStopped fuel _ w h (omega arith)
