-- ===== src/Providers/Openai/Provider.antt =====
-- The client of backend/providers/openai_compatible.py as an `LLMProvider` of
-- backend/providers/base.py.
use x_social_trader.Base.{◌≡◌, subst, String, Option, none, some, List, [], ◌∷◌, arith, inl, inr}
use x_social_trader.Models.{RawTweet, LlmAnalysisResult}
use x_social_trader.Models.Json.{JsonText}
use x_social_trader.Runtime.{Runtime}
use x_social_trader.Providers.{LlmProvider}
use x_social_trader.Providers.Openai.Replies.{Client, Called, returned, openai_error, other_error}
use x_social_trader.Providers.Openai.{Server, Message, analyze}
use x_social_trader.Providers.Openai.Retry.{
  Called-cases, Ends, ends, fails, escapes, Grounded, analyze-Ends,
}

abbrev pub result_or_raise {ℓ} : {A : Type ℓ} → Called A → Option A
result_or_raise (returned a) = some a
result_or_raise openai_error = none
result_or_raise other_error = none

module _ {R : Type 0} ⦃py : Runtime R⦄ (json : JsonText R) (server : Server R) (client : Client R)
    (system : String) where
  -- The requests that the server has had once the client has analysed these tweets, the newest
  -- first.
  unfoldable pub requests_after : List RawTweet → List (List Message)
  requests_after [] = []
  requests_after (t ∷ ts) = (analyze json server client system t (requests_after ts)).1

  unfoldable pub openai_provider : LlmProvider R
  openai_provider = record {
    analysis = λ history tweet.
        result_or_raise (analyze json server client system tweet (requests_after history)).0;
  }

  -- An answer of the provider is a result of `analyze`.
  pub analysis-returned :
      (history : List RawTweet) (tweet : RawTweet) (r : LlmAnalysisResult R)
      → openai_provider.analysis history tweet ≡ some r
      → (analyze json server client system tweet (requests_after history)).0 ≡ returned r
  unfolding openai_provider
  analysis-returned history tweet r h =
      elim (Called-cases (analyze json server client system tweet (requests_after history)).0) [
        | inl (a, e) ↦ ground (arith, h, e)
        | inr (inl e) ↦ absurd (ground (arith, h, e))
        | inr (inr e) ↦ absurd (ground (arith, h, e))
      ]

  pub analysis-Grounded :
      (history : List RawTweet) (tweet : RawTweet) (r : LlmAnalysisResult R)
      → openai_provider.analysis history tweet ≡ some r
      → Grounded json server client system tweet r
  analysis-Grounded history tweet r h =
      subst Result (analysis-returned history tweet r h)
        (grounded (analyze-Ends json server client system tweet (requests_after history)))
    where
      Result : Called (LlmAnalysisResult R) → Type 0
      Result (returned a) = Grounded json server client system tweet a
      Result _ = Unit

      grounded :
          {c : Called (LlmAnalysisResult R)} → Ends json server client system tweet c → Result c
      grounded (ends a g) = g
      grounded fails = tt
      grounded escapes = tt
