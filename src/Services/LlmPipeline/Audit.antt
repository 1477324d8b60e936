-- ===== src/Services/LlmPipeline/Audit.antt =====
-- What a run of the LLM pipeline has stored and published, against its report.
use x_social_trader.Base.{
  ℕ, zero, suc, ◌+◌, ◌≡◌, refl, sym, subst, String, some, List, arith, Distinct, length,
}
use x_social_trader.Models.{LlmDecisionStatus}
use x_social_trader.Runtime.{Runtime}
use x_social_trader.World.{World}
use x_social_trader.Providers.{LlmProvider}
use x_social_trader.Services.Worker.{Ending, finished}
use x_social_trader.Services.Budget.{LlmBudgetTracker}
use x_social_trader.Services.LlmPipeline.{
  LlmPipelineReport, popped_tweet, consume_from, run_llm_pipeline, tallied, ended_by,
}
use x_social_trader.Services.LlmPipeline.Effects.{event_ids}
use x_social_trader.Services.LlmPipeline.Rounds.{
  round, charged, halted, drained, skipped, unanalyzed, uncharged, breached, processed,
}
use x_social_trader.Services.LlmPipeline.Records.{
  Recorded, Agrees, reported, failed_with, starved, HasRecorded, no_counts, Recorded-none,
  Recorded-trans, raised-session, Recorded-charged,
}

module _ {R : Type 0} ⦃py : Runtime R⦄ (provider : LlmProvider R)
    (budget : LlmBudgetTracker R) where
  nothing :
      (t : LlmPipelineReport) (w : World R)
      → Distinct (event_ids w.db.events)
      → (t' : LlmPipelineReport) → t'.analyzed ≡ t.analyzed + 0
      → t'.events_published ≡ t.events_published + 0
      → HasRecorded provider t w (finished t', w)
  nothing t w once t' a b = record {
    tweets = 0;
    events = 0;
    recorded = Recorded-none provider w w once refl refl;
    agreed = reported t' a b;
  }

  again :
      (n : ℕ) (t : LlmPipelineReport) (w : World R) (queue : List String)
      → HasRecorded provider t
          (popped_tweet queue w)
          (consume_from provider budget n t (popped_tweet queue w))
      → HasRecorded provider t w (consume_from provider budget n t (popped_tweet queue w))
  again n t w queue h = record {
    tweets = h.tweets;
    events = h.events;
    recorded = record {
      new = h.recorded.new;
      decisions = h.recorded.decisions;
      stored = h.recorded.stored;
      audited = h.recorded.audited;
      published = h.recorded.published;
      events_counted = h.recorded.events_counted;
      decisions_counted = h.recorded.decisions_counted;
      distinct = h.recorded.distinct;
      signals = h.recorded.signals;
      answers = h.recorded.answers;
    };
    agreed = h.agreed;
  }

  Agrees-more :
      (t : LlmPipelineReport) (status : LlmDecisionStatus) (m d n : ℕ)
      (e : Ending R LlmPipelineReport)
      → Agrees (tallied status m t) d n e
      → Agrees t (1 + d) (m + n) e
  Agrees-more t status m d n e (reported t' a b) = reported t' (omega arith) (omega arith)
  Agrees-more t status m d n e (failed_with x) = failed_with x
  Agrees-more t status m d n e starved = starved

  more :
      (n : ℕ) (t : LlmPipelineReport) (status : LlmDecisionStatus) (w : World R) (ids : List String)
      (u : World R)
      → Recorded provider w 1 (length ids) u
      → HasRecorded provider
          (tallied status (length ids) t)
          u
          (consume_from provider budget n (tallied status (length ids) t) u)
      → HasRecorded provider t w (consume_from provider budget n (tallied status (length ids) t) u)
  more n t status w ids u done h = record {
    tweets = 1 + h.tweets;
    events = length ids + h.events;
    recorded = Recorded-trans provider 1 (length ids) h.tweets h.events w u _ done h.recorded;
    agreed = Agrees-more t status (length ids) h.tweets h.events _ h.agreed;
  }

  consume_from-HasRecorded :
      (n : ℕ) (t : LlmPipelineReport) (w : World R)
      → Distinct (event_ids w.db.events)
      → HasRecorded provider t w (consume_from provider budget n t w)
  unfolding consume_from
  consume_from-HasRecorded zero t w once = record {
    tweets = 0;
    events = 0;
    recorded = Recorded-none provider w w once refl refl;
    agreed = starved;
  }
  consume_from-HasRecorded (suc n) t w once = elim (round provider budget n t w) [
    | halted reason q ↦
        subst (HasRecorded provider t w) (sym q)
          (nothing t w once (ended_by (some reason) t) (omega arith) (omega arith))
    | drained q ↦
        subst (HasRecorded provider t w) (sym q) (nothing t w once t (omega arith) (omega arith))
    | skipped raw_id queue e q ↦
        subst (HasRecorded provider t w) (sym q)
          (again n t w queue (consume_from-HasRecorded n t (popped_tweet queue w) once))
    | unanalyzed raw_id queue row x e f s q ↦ subst (HasRecorded provider t w) (sym q) (record {
      tweets = 0;
      events = 0;
      recorded = raised-session provider budget row queue w x once s;
      agreed = failed_with x;
    })
    | uncharged raw_id queue row result ids x e f s q ↦
        subst (HasRecorded provider t w) (sym q) (record {
          tweets = 1;
          events = length ids;
          recorded = Recorded-charged provider budget row queue w result ids once s;
          agreed = failed_with x;
        })
    | breached raw_id queue row result ids reason e f s q ↦
        subst (HasRecorded provider t w) (sym q) (record {
          tweets = 1;
          events = length ids;
          recorded = Recorded-charged provider budget row queue w result ids once s;
          agreed = reported _ (omega arith) refl;
        })
    | processed raw_id queue row result ids e f s q ↦
        let done = Recorded-charged provider budget row queue w result ids once s in
        subst (HasRecorded provider t w) (sym q) (
          more n t result.status w ids (charged provider budget row queue w result ids).1 done
            (consume_from-HasRecorded n (tallied result.status (length ids) t) _ done.distinct))
  ]

  -- From a table `events` in which no event id stands twice: however a run of the LLM pipeline ends,
  -- it keeps every row of `events` and `llm_decisions`; each new decision holds the prompt, the text,
  -- the decision and the status that the provider returned for a tweet; no event id stands twice; none of the new
  -- events is noise; and the queue `events` has got the ids of exactly the new events behind its
  -- messages, in the order in which they were stored. If the run ends with a report, this counts as
  -- many analysed tweets as there are new decisions and as many published events as new events.
  pub run_llm_pipeline-HasRecorded :
      (fuel : ℕ) (w : World R)
      → Distinct (event_ids w.db.events)
      → HasRecorded provider no_counts w (run_llm_pipeline provider budget fuel w)
  unfolding run_llm_pipeline
  run_llm_pipeline-HasRecorded fuel w once = consume_from-HasRecorded fuel no_counts w once
