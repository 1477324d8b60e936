-- ===== src/Services/Ingestion/Ending.antt =====
-- Why a run of the ingestion ended.
use x_social_trader.Base.{
  ℕ, suc, ◌+◌, ◌≡◌, ◌⊎◌, inl, inr, refl, sym, subst, String, true, false, some, List, [], ◌∷◌,
  length, arith, is_some,
}
use x_social_trader.Models.{RawTweet}
use x_social_trader.Runtime.{Runtime}
use x_social_trader.World.{World}
use x_social_trader.KillSwitch.{is_active, activate, redis_flag}
use x_social_trader.Services.Budget.{
  TwitterApiBudgetTracker, record_tweet, trigger_from_budget, add_spend,
}
use x_social_trader.Services.Ingestion.{IngestionReport, publish, ingest_from, run_ingestion}
use x_social_trader.Services.Ingestion.Durability.{turn, halted, duplicate, breached, stored}

module _ {R : Type 0} ⦃py : Runtime R⦄ where
  module _ (budget : TwitterApiBudgetTracker R) (id : ℕ) (w : World R) where
    publish_stops :
        (reason : String)
        → (publish budget id w).0 ≡ some reason
        → (is_active (publish budget id w).1).active ≡ true
    unfolding publish record_tweet trigger_from_budget activate add_spend is_active redis_flag
    publish_stops reason h = ground arith

  -- Why a run ended: the kill switch is active, or every tweet was counted.
  abbrev Ended : ℕ → IngestionReport × World R → Type 0
  Ended total (r, w) =
      ((is_some r.stopped_reason ≡ true) × ((is_active w).active ≡ true))
      ⊎ ((is_some r.stopped_reason ≡ false) × (r.persisted + r.duplicates ≡ total))

  ingest_from-Ended :
      (budget : TwitterApiBudgetTracker R) (ts : List RawTweet) (p d n : ℕ) (w : World R)
      → p + d + length ts ≡ n
      → Ended n (ingest_from budget ts p d w)
  unfolding ingest_from
  ingest_from-Ended budget [] p d n w h = inr (refl, omega arith)
  ingest_from-Ended budget (t ∷ ts) p d n w h = elim (turn budget t ts p d w) [
    | halted reason e q ↦ subst (Ended n) (sym q) (inl (refl, e))
    | duplicate f q ↦
        subst (Ended n) (sym q) (ingest_from-Ended budget ts p (suc d) n w (omega arith))
    | breached id reason f g q ↦
        subst (Ended n) (sym q) (inl (refl, publish_stops budget id _ reason g))
    | stored id f q ↦
        subst (Ended n) (sym q) (ingest_from-Ended budget ts (suc p) d n _ (omega arith))
  ]

  -- A run either reports a reason to have stopped and leaves the kill switch active, or reports none
  -- and has counted every tweet, as persisted or as a duplicate.
  pub run_ingestion-Ended :
      (budget : TwitterApiBudgetTracker R) (tweets : List RawTweet) (w : World R)
      → let (r, w') = run_ingestion budget tweets w in
        ((is_some r.stopped_reason ≡ true) × ((is_active w').active ≡ true))
        ⊎ ((is_some r.stopped_reason ≡ false) × (r.persisted + r.duplicates ≡ length tweets))
  unfolding run_ingestion
  run_ingestion-Ended budget tweets w =
      ingest_from-Ended budget tweets 0 0 (length tweets) w (omega arith)
