-- ===== src/Services/LlmPipeline/Loss.antt =====
-- What becomes of a tweet whose analysis raises.
use x_social_trader.Base.{ℕ, suc, ◌≡◌, String, false, none, some, List, ◌∷◌, arith, ℤ}
use x_social_trader.Models.{RawTweetRow}
use x_social_trader.Runtime.{Runtime}
use x_social_trader.World.{World, in_session, llm_error}
use x_social_trader.Providers.{LlmProvider}
use x_social_trader.KillSwitch.{is_active}
use x_social_trader.Services.Worker.{crashed}
use x_social_trader.Services.Budget.{LlmBudgetTracker}
use x_social_trader.Services.LlmPipeline.{
  find_tweet, to_dto, record_analysis, consume_from, run_llm_pipeline,
}

module _ {R : Type 0} ⦃py : Runtime R⦄ (provider : LlmProvider R)
    (budget : LlmBudgetTracker R) where
  -- If the kill switch is off, the first message of the queue names a stored tweet and the provider
  -- raises on it, then the run ends with that error, the message is gone from the queue, and the
  -- database is as it was: there is no decision on the tweet.
  raise_loses_tweet :
      (fuel : ℕ) (w : World R) (raw_id : String) (queue : List String) (db_id : ℤ)
      (row : RawTweetRow)
      → (is_active w).active ≡ false
      → w.redis.raw_tweets ≡ raw_id ∷ queue
      → py.int_of_text raw_id ≡ some db_id
      → find_tweet db_id w.db.raw_tweets ≡ some row
      → provider.analysis w.analyzed (to_dto row) ≡ none
      → let (e, w') = run_llm_pipeline provider budget (suc fuel) w in
        (e ≡ crashed llm_error) × (w'.redis.raw_tweets ≡ queue) × (w'.db ≡ w.db)
  unfolding run_llm_pipeline consume_from in_session record_analysis
  raise_loses_tweet fuel w raw_id queue db_id row a q i f r =
      (ground (arith, a, q, i, f, r), ground (arith, a, q, i, f, r), ground (arith, a, q, i, f, r))
