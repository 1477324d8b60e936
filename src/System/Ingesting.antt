-- ===== src/System/Ingesting.antt =====
-- A run of the ingestion as a sequence of changes.
use x_social_trader.Base.{ℕ, ◌≡◌, refl, sym, subst, some, List, [], ◌∷◌, arith, suc, pos}
use x_social_trader.Models.{RawTweet, RuleSpec}
use x_social_trader.Runtime.{Runtime}
use x_social_trader.World.{World}
use x_social_trader.Providers.{BrokerProvider}
use x_social_trader.Services.Budget.{
  TwitterApiBudgetTracker, record_tweet, trigger_from_budget, add_spend,
}
use x_social_trader.Services.Ingestion.{
  IngestionReport, persist_raw_tweet, publish, ingest_from, run_ingestion, raw_tweet_row,
  push_raw_tweet,
}
use x_social_trader.Services.Ingestion.Durability.{
  turn, halted, duplicate, breached, stored, persist-new,
}
use x_social_trader.System.Switching.{Switches-Change, Switches-trigger_from_budget}
use x_social_trader.System.Changes.{
  Change, Changes, here, next, Changes-trans, Changes-one, messaged, tweet_added,
}

module _ {R : Type 0} ⦃py : Runtime R⦄ (broker : BrokerProvider R) (Admits : RuleSpec R → Type 0)
    (budget : TwitterApiBudgetTracker R) where
  abbrev Runs : World R → IngestionReport × World R → Type 0
  Runs w (r, w') = Changes broker Admits w w'

  Changes-persist :
      (t : RawTweet) (id : ℕ) (w : World R)
      → (persist_raw_tweet t w).0 ≡ some id
      → Change broker Admits w (persist_raw_tweet t w).1
  unfolding persist_raw_tweet
  Changes-persist t id w h =
      let (_, _, new) = persist-new t w id h in
      tweet_added (raw_tweet_row t id) new
        (record { tables = ground (arith, h); placed = ground arith; flag = ground arith })

  publish-world :
      (id : ℕ) (w : World R)
      → let (status, u) = record_tweet budget (push_raw_tweet (py.show_int (pos id)) w) in
        (publish budget id w).1 ≡ (trigger_from_budget status u).1
  unfolding publish trigger_from_budget
  publish-world id w = ground arith

  Changes-publish : (id : ℕ) (w : World R) → Changes broker Admits w (publish budget id w).1
  unfolding record_tweet add_spend
  Changes-publish id w =
      let (status, u) = record_tweet budget (push_raw_tweet (py.show_int (pos id)) w) in
      rw (publish-world id w) (
        next (Changes-one (messaged (record { tables = refl; placed = refl; flag = refl })))
          (Switches-Change broker Admits (Switches-trigger_from_budget status u)))

  Changes-stored :
      (t : RawTweet) (id : ℕ) (w : World R)
      → (persist_raw_tweet t w).0 ≡ some id
      → Changes broker Admits w (publish budget id (persist_raw_tweet t w).1).1
  Changes-stored t id w f =
      Changes-trans (Changes-one (Changes-persist t id w f)) (Changes-publish id _)

  Changes-ingest_from :
      (ts : List RawTweet) (p d : ℕ) (w : World R)
      → Changes broker Admits w (ingest_from budget ts p d w).1
  unfolding ingest_from
  Changes-ingest_from [] p d w = here
  Changes-ingest_from (t ∷ ts) p d w = elim (turn budget t ts p d w) [
    | halted reason e q ↦ subst (Runs w) (sym q) here
    | duplicate f q ↦ subst (Runs w) (sym q) (Changes-ingest_from ts p (suc d) w)
    | breached id reason f g q ↦ subst (Runs w) (sym q) (Changes-stored t id w f)
    | stored id f q ↦
        subst (Runs w) (sym q)
          (Changes-trans (Changes-stored t id w f) (Changes-ingest_from ts (suc p) d _))
  ]

  pub Changes-run_ingestion :
      (tweets : List RawTweet) (w : World R)
      → Changes broker Admits w (run_ingestion budget tweets w).1
  unfolding run_ingestion
  Changes-run_ingestion tweets w = Changes-ingest_from tweets 0 0 w
