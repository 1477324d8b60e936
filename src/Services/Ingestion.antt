-- ===== src/Services/Ingestion.antt =====
-- backend/services/ingestion.py. The provider's stream is the list of the tweets that it yields;
-- warnings are not modelled.
pub mod Durability
pub mod Ending
use x_social_trader.Base.{
  ℕ, suc, ◌+◌, String, str_append, str_eq, Bool, true, false, ◌||◌, Option, none, some, List, [],
  ◌∷◌, ◌++◌, map, pos, if◌then◌else◌,
}
use x_social_trader.Models.{RawTweet, RawTweetRow}
use x_social_trader.Runtime.{Runtime}
use x_social_trader.World.{World, Redis, Db}
use x_social_trader.World.Tables.{next_id}
use x_social_trader.KillSwitch.{is_active, KillSwitchState}
use x_social_trader.Services.Budget.{
  TwitterApiBudgetTracker, BudgetStatus, record_tweet, trigger_from_budget, over_budget,
}

pub record IngestionReport : Type 0 where
  pub persisted : ℕ
  pub duplicates : ℕ
  pub stopped_reason : Option String

abbrev pub report : ℕ → ℕ → Option String → IngestionReport
report p d reason = record { persisted = p; duplicates = d; stopped_reason = reason }

-- The tweet id is in the table (UNIQUE).
abbrev pub tweet_stored : String → List RawTweetRow → Bool
tweet_stored t [] = false
tweet_stored t (r ∷ rs) = str_eq t r.tweet_id || tweet_stored t rs

abbrev pub raw_tweet_row : RawTweet → ℕ → RawTweetRow
raw_tweet_row t n = record {
  id = n;
  tweet_id = t.tweet_id;
  x_user_id = t.x_user_id;
  username = t.username;
  content = t.content;
  lang = t.lang;
  raw_json = t.raw_json;
  received_at = t.received_at;
}

module _ {R : Type 0} where
  abbrev pub store_tweet : RawTweetRow → World R → World R
  store_tweet row w =
      let db : Db R = w.db in record w { db = record db { raw_tweets = row ∷ w.db.raw_tweets } }

  -- `_persist_raw_tweet`, and the commit: the id of the new row, or `none` and no change
  unfoldable pub persist_raw_tweet : RawTweet → World R → Option ℕ × World R
  persist_raw_tweet t w =
      let n = next_id (map (λ (r : RawTweetRow). r.id) w.db.raw_tweets) in
      if tweet_stored t.tweet_id w.db.raw_tweets
      then (none, w)
      else (some n, store_tweet (raw_tweet_row t n) w)

  -- `redis_client.rpush(REDIS_QUEUE_KEY, message)`
  abbrev pub push_raw_tweet : String → World R → World R
  push_raw_tweet message w =
      let redis : Redis R = w.redis in
      record w { redis = record redis { raw_tweets = w.redis.raw_tweets ++ message ∷ [] } }

module _ {R : Type 0} ⦃py : Runtime R⦄ where
  -- Steps 3 and 4 for a tweet that was persisted: the reason to stop, if there is one.
  unfoldable pub publish : TwitterApiBudgetTracker R → ℕ → World R → Option String × World R
  publish budget id w =
      let (status, w') = record_tweet budget (push_raw_tweet (py.show_int (pos id)) w) in
      let (activated, w'') = trigger_from_budget status w' in
      if over_budget status
      then (
        if activated
            then (some (
                str_append "twitterapi_budget_breached:"
                  (str_append (py.fixed4 status.spend_usd) "_USD")))
            else none,
        w'',
      )
      else (none, w')

  -- The loop of `run_ingestion`, from the counters `persisted` and `duplicates` on.
  unfoldable pub ingest_from :
      TwitterApiBudgetTracker R → List RawTweet → ℕ → ℕ → World R → IngestionReport × World R
  ingest_from budget [] p d w = (report p d none, w)
  ingest_from budget (t ∷ ts) p d w = elim (is_active w).active [
    | true ↦ (report p d (some (str_append "kill_switch_active:" (is_active w).source)), w)
    | false ↦ elim (persist_raw_tweet t w).0 [
      | none ↦ ingest_from budget ts p (suc d) (persist_raw_tweet t w).1
      | some id ↦ elim (publish budget id (persist_raw_tweet t w).1).0 [
        | some reason ↦
            (report (suc p) d (some reason), (publish budget id (persist_raw_tweet t w).1).1)
        | none ↦ ingest_from budget ts (suc p) d (publish budget id (persist_raw_tweet t w).1).1
      ]
    ]
  ]

  -- `run_ingestion`
  unfoldable pub run_ingestion :
      TwitterApiBudgetTracker R → List RawTweet → World R → IngestionReport × World R
  run_ingestion budget tweets w = ingest_from budget tweets 0 0 w
