-- ===== src/Examples/Streams.antt =====
-- The theorems on the ingestion at a stream with a duplicate.
use x_social_trader.Base.{String, none, List, [], ◌∷◌, length, ◌≡◌, ◌⊎◌, ◌+◌, is_some, true, false}
use x_social_trader.Models.{RawTweet}
use x_social_trader.Runtime.Sample.{Sample, sample}
use x_social_trader.Services.Budget.{TwitterApiBudgetTracker}
use x_social_trader.Services.Ingestion.{run_ingestion}
use x_social_trader.Services.Ingestion.Durability.{IsDurable, run_ingestion-IsDurable}
use x_social_trader.Services.Ingestion.Ending.{run_ingestion-Ended}
use x_social_trader.KillSwitch.{is_active}
use x_social_trader.Examples.{quiet, dollars}

abbrev tweet : String → RawTweet
tweet id = record {
  tweet_id = id;
  x_user_id = "7";
  username = "trader";
  content = "$AAPL";
  lang = none;
  raw_json = "";
  received_at = 1;
}

abbrev pub tweets : List RawTweet
tweets = tweet "t1" ∷ tweet "t2" ∷ tweet "t1" ∷ []

abbrev pub small_budget : TwitterApiBudgetTracker Sample
small_budget = record { cost = dollars 1; limit = dollars 25 }

run_ingestion-IsDurable_example :
    let (r, w') = run_ingestion small_budget tweets quiet in IsDurable 0 quiet r w'
run_ingestion-IsDurable_example = run_ingestion-IsDurable small_budget tweets quiet tt

run_ingestion-Ended_example :
    let (r, w') = run_ingestion small_budget tweets quiet in
    ((is_some r.stopped_reason ≡ true) × ((is_active w').active ≡ true))
    ⊎ ((is_some r.stopped_reason ≡ false) × (r.persisted + r.duplicates ≡ length tweets))
run_ingestion-Ended_example = run_ingestion-Ended small_budget tweets quiet
