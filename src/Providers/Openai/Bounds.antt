-- ===== src/Providers/Openai/Bounds.antt =====
-- The confidence of what `analyze` returns.
use x_social_trader.Base.{ℕ, ◌≡◌, sym, subst, String, true, ◌&&◌, List, arith, inl, inr, Bool-cases}
use x_social_trader.Models.{RawTweet, LlmDecision, LlmAnalysisResult}
use x_social_trader.Models.Json.{Fields}
use x_social_trader.Models.Json.{JsonText}
use x_social_trader.Runtime.{Runtime}
use x_social_trader.Providers.Openai.Parsing.{
  Parse, parsed, rejected, escaped, ◌>>=◌, try_parse_decision, decision_of, checked,
}
use x_social_trader.Providers.Openai.Replies.{Client, Called, returned}
use x_social_trader.Providers.Openai.{Server, Message, analyze}
use x_social_trader.Providers.Openai.Retry.{
  Ends, ends, fails, escapes, Grounded, read_from, unreadable, analyze-Ends,
}

-- `Field(ge=0.0, le=1.0)`
pub record InRange {R : Type 0} (py : Runtime R) (x : R) : Type 0 where
  pub at_least : py.le py.zero x ≡ true
  pub at_most : py.le x py.one ≡ true

-- What holds of a value, if there is one.
abbrev pub When {ℓ κ} : {A : Type ℓ} → (A → Type κ) → Parse A → Type κ
When P (parsed a) = P a
When P _ = Unit

When-bind {ℓ κ μ} :
    {A : Type ℓ} {B : Type κ} (P : B → Type μ) (p : Parse A) (f : A → Parse B)
    → ((a : A) → When P (f a))
    → When P (p >>= f)
unfolding ◌>>=◌
When-bind P (parsed a) f h = h a
When-bind P rejected f h = tt
When-bind P escaped f h = tt

When-at {ℓ κ} :
    {A : Type ℓ} (P : A → Type κ) {p : Parse A} (q : Parse A) → p ≡ q → When P q → When P p
When-at P q e h = subst (When P) (sym e) h

module _ {R : Type 0} ⦃py : Runtime R⦄ (json : JsonText R) where
  abbrev Sound : LlmDecision R → Type 0
  Sound d = InRange py d.confidence

  checked-Sound : (d : LlmDecision R) → When Sound (checked d)
  checked-Sound d = elim (Bool-cases (py.le py.zero d.confidence && py.le d.confidence py.one)) [
    | inl h ↦
        When-at Sound (parsed d) (ground (arith, h))
          (record { at_least = ground (arith, h); at_most = ground (arith, h) })
    | inr h ↦ When-at Sound rejected (ground (arith, h)) tt
  ]

  decision_of-Sound :
      (fs : Fields R) (model : String) (cost : R) (latency : ℕ)
      → When Sound (decision_of json fs model cost latency)
  unfolding decision_of
  decision_of-Sound fs model cost latency = When-bind Sound _ _ λ tickers. When-bind Sound _ _ λ v.
      When-bind Sound _ _ λ s. When-bind Sound _ _ λ intent. When-bind Sound _ _ λ c.
        When-bind Sound _ _ λ x.
          When-bind Sound _ _
            λ v'. When-bind Sound _ _ λ s'. When-bind Sound _ _ λ horizon. checked-Sound _

  try_parse-Sound :
      (raw model : String) (cost : R) (latency : ℕ)
      → When Sound (try_parse_decision json raw model cost latency)
  unfolding try_parse_decision
  try_parse-Sound raw model cost latency =
      When-bind Sound _ _ λ fs. decision_of-Sound fs model cost latency

  -- A text parses to a decision only if its confidence is between 0 and 1.
  parsed-Sound :
      (raw model : String) (cost : R) (latency : ℕ) (d : LlmDecision R)
      → try_parse_decision json raw model cost latency ≡ parsed d
      → Sound d
  parsed-Sound raw model cost latency d h =
      subst (When Sound) h (try_parse-Sound raw model cost latency)

  module _ (server : Server R) (client : Client R) (system : String) (tweet : RawTweet) where
    -- If 0 is at most itself and 1, then the confidence of every result of `analyze` is at least 0
    -- and at most 1, whatever the server answered.
    pub analyze_bounds_confidence :
        (sent : List (List Message)) (r : LlmAnalysisResult R)
        → py.le py.zero py.zero ≡ true
        → py.le py.zero py.one ≡ true
        → (analyze json server client system tweet sent).0 ≡ returned r
        → InRange py r.decision.confidence
    analyze_bounds_confidence sent r z o h =
        subst Answered h (answered (analyze-Ends json server client system tweet sent))
      where
        Answered : Called (LlmAnalysisResult R) → Type 0
        Answered (returned r) = InRange py r.decision.confidence
        Answered _ = Unit

        grounded :
            {r : LlmAnalysisResult R}
            → Grounded json server client system tweet r
            → InRange py r.decision.confidence
        grounded {r} (read_from cost latency p s) =
            parsed-Sound r.raw_response client.model cost latency r.decision p
        grounded (unreadable cost latency p s i t c) =
            subst (InRange py) (sym c) (record { at_least = z; at_most = o })

        answered :
            {c : Called (LlmAnalysisResult R)} → Ends json server client system tweet c → Answered c
        answered (ends r g) = grounded g
        answered fails = tt
        answered escapes = tt
