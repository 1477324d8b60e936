-- ===== src/Services/Budget/Breach.antt =====
-- A budget that is used up stops trading.
use x_social_trader.Base.{◌≡◌, ◌⊎◌, true, false, ◌∷◌, arith, lookup-put, eq_refl}
use x_social_trader.Models.{budget_llm, budget_twitterapi}
use x_social_trader.Runtime.{Runtime}
use x_social_trader.World.{World}
use x_social_trader.KillSwitch.{is_active, activate, redis_flag}
use x_social_trader.Services.Budget.{
  BudgetStatus, TwitterApiBudgetTracker, over_budget, trigger_from_budget, trigger_from_llm_budget,
  record_tweet, twitterapi_status, add_spend,
}

module _ {R : Type 0} ⦃py : Runtime R⦄ (s : BudgetStatus R) (w : World R) where
  -- Both budget triggers return whether the limit is at most the spend. If it is, also when the two
  -- are equal, the kill switch is active afterwards and the activation is counted under the budget's
  -- own trigger; if not, nothing changes.
  pub trigger_from_budget-active :
      let (fired, w') = trigger_from_budget s w in
      let (llm_fired, w'') = trigger_from_llm_budget s w in
      (fired ≡ py.le s.limit_usd s.spend_usd)
      × (llm_fired ≡ py.le s.limit_usd s.spend_usd)
      × (((py.le s.limit_usd s.spend_usd ≡ false) × (w' ≡ w) × (w'' ≡ w))
          ⊎ ((py.le s.limit_usd s.spend_usd ≡ true)
              × ((is_active w').active ≡ true)
              × ((is_active w'').active ≡ true)
              × (w'.kill_switch_activations_total
                  ≡ budget_twitterapi ∷ w.kill_switch_activations_total)
              × (w''.kill_switch_activations_total ≡ budget_llm ∷ w.kill_switch_activations_total)))
  unfolding over_budget trigger_from_budget trigger_from_llm_budget is_active activate redis_flag
  trigger_from_budget-active = (ground arith, ground arith, ground arith)

module _ {R : Type 0} ⦃py : Runtime R⦄ where
  -- Right after a tweet was recorded, `current_status` reports the status that `record_tweet`
  -- returned.
  twitterapi_status-record_tweet :
      (t : TwitterApiBudgetTracker R) (w : World R)
      → let (s, w') = record_tweet t w in twitterapi_status t w' ≡ s
  unfolding record_tweet twitterapi_status add_spend
  twitterapi_status-record_tweet t w = simp (lookup-put, eq_refl)
