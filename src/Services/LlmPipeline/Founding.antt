-- ===== src/Services/LlmPipeline/Founding.antt =====
-- What a run of the LLM pipeline writes to the audit when its provider is the client of
-- backend/providers/openai_compatible.py.
use x_social_trader.Base.{ℕ, ◌≡◌, ◌∙◌, ap, String, true, List, [], ◌∷◌, ◌++◌, All, Distinct}
use x_social_trader.Models.{LlmDecisionRow, success, invalid_json, noise}
use x_social_trader.Models.Json.{JsonText}
use x_social_trader.Runtime.{Runtime}
use x_social_trader.World.{World}
use x_social_trader.Providers.Openai.Parsing.{try_parse_decision, parsed, rejected}
use x_social_trader.Providers.Openai.Replies.{Client}
use x_social_trader.Providers.Openai.{Server}
use x_social_trader.Providers.Openai.Retry.{Grounded, read_from, unreadable}
use x_social_trader.Providers.Openai.Bounds.{InRange, analyze_bounds_confidence}
use x_social_trader.Providers.Openai.Provider.{
  requests_after, openai_provider, analysis-returned, analysis-Grounded,
}
use x_social_trader.Services.Budget.{LlmBudgetTracker}
use x_social_trader.Services.LlmPipeline.{run_llm_pipeline}
use x_social_trader.Services.LlmPipeline.Effects.{event_ids, IsAnswer}
use x_social_trader.Services.LlmPipeline.Audit.{run_llm_pipeline-HasRecorded}

module _ {R : Type 0} ⦃py : Runtime R⦄ (json : JsonText R) (server : Server R) (client : Client R)
    (system : String) where
  -- A row of `llm_decisions` whose answer parses to its decision, or that says that it does not.
  pub data IsReadable (d : LlmDecisionRow R) : Type 0 where
    success_row :
        (cost : R) (latency_ms : ℕ)
        → try_parse_decision json d.raw_response client.model cost latency_ms
          ≡ parsed d.parsed_decision
        → d.status ≡ success
        → IsReadable d
    invalid_row :
        (cost : R) (latency_ms : ℕ)
        → try_parse_decision json d.raw_response client.model cost latency_ms ≡ rejected
        → d.status ≡ invalid_json
        → d.parsed_decision.intent ≡ noise
        → d.parsed_decision.tickers ≡ []
        → IsReadable d

  abbrev pub IsFounded : LlmDecisionRow R → Type 0
  IsFounded d = IsReadable d × InRange py d.parsed_decision.confidence

  module _ (at_zero : py.le py.zero py.zero ≡ true) (at_one : py.le py.zero py.one ≡ true) where
    answer-IsFounded :
        (d : LlmDecisionRow R)
        → IsAnswer (openai_provider json server client system) d
        → IsFounded d
    answer-IsFounded d a = (
      readable (analysis-Grounded json server client system a.history a.tweet a.result a.given),
      rw a.parsed_decision (
          analyze_bounds_confidence json server client system a.tweet
            (requests_after json server client system a.history) a.result at_zero at_one
            (analysis-returned json server client system a.history a.tweet a.result a.given)),
    )
      where
        readable : Grounded json server client system a.tweet a.result → IsReadable d
        readable (read_from cost latency_ms p s) =
            success_row cost latency_ms (rw (a.raw_response, a.parsed_decision) p) (a.status ∙ s)
        readable (unreadable cost latency_ms p s i t c) =
            invalid_row cost latency_ms (rw a.raw_response p) (a.status ∙ s)
              (ap (λ x. x.intent) a.parsed_decision ∙ i) (ap (λ x. x.tickers) a.parsed_decision ∙ t)

    All-IsFounded :
        (ds : List (LlmDecisionRow R))
        → All (IsAnswer (openai_provider json server client system)) ds
        → All IsFounded ds
    All-IsFounded [] h = tt
    All-IsFounded (d ∷ ds) h = (answer-IsFounded d h.0, All-IsFounded ds h.1)

    -- If 0 is at most itself and 1, no event id stands twice in `events`, and the provider is the
    -- client of an OpenAI-compatible server, whatever that answers: however a run of the LLM pipeline
    -- ends, it keeps the rows of `llm_decisions`, and the answer in each new row parses to the
    -- decision in it, with status SUCCESS, or does not parse, with status INVALID_JSON and a
    -- decision that is noise on no ticker; its confidence is at least 0 and at most 1.
    pub run_llm_pipeline-IsFounded :
        (budget : LlmBudgetTracker R) (fuel : ℕ) (w : World R)
        → Distinct (event_ids w.db.events)
        → let (e, w') =
            run_llm_pipeline (openai_provider json server client system) budget fuel w in
          (new : List (LlmDecisionRow R)) × (w'.db.llm_decisions ≡ new ++ w.db.llm_decisions)
          × All IsFounded new
    run_llm_pipeline-IsFounded budget fuel w once =
        let h =
          run_llm_pipeline-HasRecorded (openai_provider json server client system) budget fuel w
            once in
        (
          h.recorded.decisions,
          h.recorded.audited,
          All-IsFounded h.recorded.decisions h.recorded.answers,
        )
