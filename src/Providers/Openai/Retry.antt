-- ===== src/Providers/Openai/Retry.antt =====
-- How often `analyze` asks the server, and what its result is grounded in.
use x_social_trader.Base.{
  ℕ, ◌≡◌, ◌⊎◌, inl, inr, refl, sym, subst, String, ◌+◌, List, [], ◌∷◌, arith,
}
use x_social_trader.Models.{RawTweet, LlmAnalysisResult, success, invalid_json, noise}
use x_social_trader.Models.Json.{JsonText}
use x_social_trader.Runtime.{Runtime}
use x_social_trader.Providers.Openai.Parsing.{Parse, parsed, rejected, escaped, try_parse_decision}
use x_social_trader.Providers.Openai.Replies.{
  Client, Called, returned, openai_error, other_error, read_reply,
}
use x_social_trader.Providers.Openai.{
  Server, Message, first_messages, retry_messages, user_message, noise_decision, result_of, retry,
  analyze,
}

pub Called-cases {ℓ} :
    {A : Type ℓ} (c : Called A)
    → ((a : A) × (c ≡ returned a)) ⊎ (c ≡ openai_error) ⊎ (c ≡ other_error)
Called-cases (returned a) = inl (a, refl)
Called-cases openai_error = inr (inl refl)
Called-cases other_error = inr (inr refl)

Parse-cases {ℓ} :
    {A : Type ℓ} (p : Parse A) → ((a : A) × (p ≡ parsed a)) ⊎ (p ≡ rejected) ⊎ (p ≡ escaped)
Parse-cases (parsed a) = inl (a, refl)
Parse-cases rejected = inr (inl refl)
Parse-cases escaped = inr (inr refl)

module _ {R : Type 0} ⦃py : Runtime R⦄ (json : JsonText R) (server : Server R) (client : Client R)
    (system : String) (tweet : RawTweet) where
  -- Whatever the server answers, `analyze` sends one request or two. The second one holds the first
  -- answer, and it is sent only if the first call answered with a text that did not parse: after an
  -- error of the transport or of the server there is no second request.
  pub analyze_retries_once :
      (sent : List (List Message))
      → let first = first_messages system (user_message py tweet) in
        let sent' = (analyze json server client system tweet sent).1 in
        (sent' ≡ first ∷ sent)
        ⊎ ((raw : String) × (cost : R) × (latency_ms : ℕ) × (sent'
              ≡ retry_messages system (user_message py tweet) raw ∷ first ∷ sent)
            × (read_reply client (server sent first) ≡ returned (raw, cost, latency_ms))
            × (try_parse_decision json raw client.model cost latency_ms ≡ rejected))
  unfolding analyze retry
  analyze_retries_once sent =
      let first = first_messages system (user_message py tweet) in
      elim (Called-cases (read_reply client (server sent first))) [
        | inl ((raw, cost, latency_ms), e) ↦
            elim (Parse-cases (try_parse_decision json raw client.model cost latency_ms)) [
              | inl (d, p) ↦ inl (ground (arith, e, p))
              | inr (inl p) ↦ inr (raw, cost, latency_ms, ground (arith, e, p), e, p)
              | inr (inr p) ↦ inl (ground (arith, e, p))
            ]
        | inr (inl e) ↦ inl (ground (arith, e))
        | inr (inr e) ↦ inl (ground (arith, e))
      ]

  -- The text that a result is read from: it parses to the decision, or it does not parse and the
  -- decision is noise on no ticker.
  pub data Grounded (r : LlmAnalysisResult R) : Type 0 where
    read_from :
        (cost : R) (latency_ms : ℕ)
        → try_parse_decision json r.raw_response client.model cost latency_ms ≡ parsed r.decision
        → r.status ≡ success
        → Grounded r
    unreadable :
        (cost : R) (latency_ms : ℕ)
        → try_parse_decision json r.raw_response client.model cost latency_ms ≡ rejected
        → r.status ≡ invalid_json
        → r.decision.intent ≡ noise
        → r.decision.tickers ≡ []
        → r.decision.confidence ≡ py.zero
        → Grounded r

  pub data Ends : Called (LlmAnalysisResult R) → Type 0 where
    ends : (r : LlmAnalysisResult R) → Grounded r → Ends (returned r)
    fails : Ends openai_error
    escapes : Ends other_error

  Ends-at :
      {c : Called (LlmAnalysisResult R)} (d : Called (LlmAnalysisResult R))
      → c ≡ d
      → Ends d
      → Ends c
  Ends-at d e h = subst Ends (sym e) h

  retry-Ends :
      (sent : List (List Message)) (raw : String) (cost : R) (latency_ms : ℕ)
      → Ends (retry json server client system tweet sent raw cost latency_ms).0
  unfolding retry noise_decision
  retry-Ends sent first_raw first_cost first_latency =
      let messages = retry_messages system (user_message py tweet) first_raw in
      elim (Called-cases (read_reply client (server sent messages))) [
        | inl ((raw, cost, latency_ms), e) ↦
            let total = py.add first_cost cost in
            let latency = first_latency + latency_ms in
            elim (Parse-cases (try_parse_decision json raw client.model total latency)) [
              | inl (d, p) ↦
                  let r = result_of tweet d raw success in
                  Ends-at (returned r) (ground (arith, e, p))
                    (ends r (read_from total latency p refl))
              | inr (inl p) ↦
                  let r =
                    result_of tweet (noise_decision client.model latency total) raw invalid_json in
                  Ends-at (returned r) (ground (arith, e, p))
                    (ends r (unreadable total latency p refl refl refl refl))
              | inr (inr p) ↦ Ends-at other_error (ground (arith, e, p)) escapes
            ]
        | inr (inl e) ↦ Ends-at openai_error (ground (arith, e)) fails
        | inr (inr e) ↦ Ends-at other_error (ground (arith, e)) escapes
      ]

  -- `analyze` ends with an error, or with a result that keeps the text it was read from: the text
  -- parses to the decision and the status is SUCCESS, or it does not parse, the status is
  -- INVALID_JSON and the decision is noise on no ticker, with
  -- confidence 0.
  pub analyze-Ends :
      (sent : List (List Message)) → Ends (analyze json server client system tweet sent).0
  unfolding analyze
  analyze-Ends sent =
      let messages = first_messages system (user_message py tweet) in
      elim (Called-cases (read_reply client (server sent messages))) [
        | inl ((raw, cost, latency), e) ↦
            elim (Parse-cases (try_parse_decision json raw client.model cost latency)) [
              | inl (d, p) ↦
                  let r = result_of tweet d raw success in
                  Ends-at (returned r) (ground (arith, e, p))
                    (ends r (read_from cost latency p refl))
              | inr (inl p) ↦
                  let again =
                    retry json server client system tweet (messages ∷ sent) raw cost latency in
                  Ends-at again.0 (ground (arith, e, p))
                    (retry-Ends (messages ∷ sent) raw cost latency)
              | inr (inr p) ↦ Ends-at other_error (ground (arith, e, p)) escapes
            ]
        | inr (inl e) ↦ Ends-at openai_error (ground (arith, e)) fails
        | inr (inr e) ↦ Ends-at other_error (ground (arith, e)) escapes
      ]
