-- ===== src/System/Machine.antt =====
-- The steps of the machine: backend/services, backend/api/kill_switch.py, `persist_fill` of
-- backend/execution/executor.py, `trigger_from_drawdown` of backend/kill_switch/service.py, and what
-- happens outside the program.
use x_social_trader.Base.{
  ℕ, Bool, ◌+◌, ◌≡◌, inl, inr, refl, List, All, arith, Bool-cases, Option-cases,
}
use x_social_trader.Models.{RawTweet, RuleSpec, BrokerFill, Order}
use x_social_trader.Runtime.{Runtime}
use x_social_trader.Settings.{Settings}
use x_social_trader.World.{World, Db}
use x_social_trader.Providers.{BrokerProvider, LlmProvider}
use x_social_trader.KillSwitch.{trigger_from_drawdown}
use x_social_trader.KillSwitch.Agreement.{Operation, apply}
use x_social_trader.Execution.{persist_fill, fill_row, fill_fits}
use x_social_trader.Services.Budget.{TwitterApiBudgetTracker, LlmBudgetTracker}
use x_social_trader.Services.Ingestion.{run_ingestion}
use x_social_trader.Services.LlmPipeline.{run_llm_pipeline}
use x_social_trader.Services.RulePipeline.{run_rule_pipeline}
use x_social_trader.Services.Positions.{sync_positions, synced_rows}
use x_social_trader.Api.{SwitchRequest, handle}
use x_social_trader.System.Changes.{
  Change, Changes, here, Changes-trans, Changes-one, messaged, switched, fill_added, positions_set,
}
use x_social_trader.System.Switching.{
  Switches-Change, Switches-handle, Switches-trigger_from_drawdown,
}
use x_social_trader.System.Ingesting.{Changes-run_ingestion}
use x_social_trader.System.Analyzing.{Changes-run_llm_pipeline}
use x_social_trader.System.Trading.{Changes-run_rule_pipeline}

module _ {R : Type 0} ⦃py : Runtime R⦄ (broker : BrokerProvider R) (settings : Settings R)
    (is_open_at : ℕ → Bool) (Admits : RuleSpec R → Type 0) where
  pub data Step (w w' : World R) : Type 0 where
    ingest :
        (budget : TwitterApiBudgetTracker R) (tweets : List RawTweet)
        → w' ≡ (run_ingestion budget tweets w).1
        → Step w w'
    analyze :
        (provider : LlmProvider R) (budget : LlmBudgetTracker R) (fuel : ℕ)
        → w' ≡ (run_llm_pipeline provider budget fuel w).1
        → Step w w'
    trade :
        (rules : List (RuleSpec R)) (fuel : ℕ)
        → All Admits rules
        → w' ≡ (run_rule_pipeline broker settings is_open_at rules fuel w).1
        → Step w w'
    mirror_positions : w' ≡ (sync_positions broker w).1 → Step w w'
    book_fill :
        (fill : BrokerFill R) (order : Order R) → w' ≡ (persist_fill fill order w).1 → Step w w'
    check_drawdown :
        (drawdown_pct threshold_pct : R)
        → w' ≡ (trigger_from_drawdown drawdown_pct threshold_pct w).1
        → Step w w'
    request : (r : SwitchRequest) → w' ≡ (handle r w).1 → Step w w'
    operate : (o : Operation) → w' ≡ apply o w → Step w w'
    wait : (n : ℕ) → w' ≡ record w { now = w.now + n } → Step w w'

  pub data Reach (w : World R) : World R → Type 0 where
    start : Reach w w
    step : {u u' : World R} → Reach w u → Step u u' → Reach w u'

  Change-sync_positions : (w : World R) → Change broker Admits w (sync_positions broker w).1
  unfolding sync_positions
  Change-sync_positions w = elim (Option-cases (broker.positions w.placed)) [
    | inl a ↦
        let same : (sync_positions broker w).1 ≡ w = ground (arith, a) in
        rw same (messaged (record { tables = refl; placed = refl; flag = refl }))
    | inr (reported, a) ↦
        let db : Db R = w.db in
        let rows = (synced_rows reported w.db.positions).1 in
        let mirrored : World R = record w { db = record db { positions = rows } } in
        let same : (sync_positions broker w).1 ≡ mirrored = ground (arith, a) in
        rw same (positions_set rows (record { tables = refl; placed = refl; flag = refl }))
  ]

  Change-persist_fill :
      (fill : BrokerFill R) (order : Order R) (w : World R)
      → Change broker Admits w (persist_fill fill order w).1
  unfolding persist_fill
  Change-persist_fill fill order w = elim (Bool-cases (fill_fits (fill_row fill order w) w)) [
    | inl f ↦
        rw f (
          fill_added (fill_row fill order w) (record { tables = refl; placed = refl; flag = refl }))
    | inr f ↦ rw f (messaged (record { tables = refl; placed = refl; flag = refl }))
  ]

  Step-Changes : {w w' : World R} → Step w w' → Changes broker Admits w w'
  Step-Changes {w} (ingest budget tweets e) =
      rw e (Changes-run_ingestion broker Admits budget tweets w)
  Step-Changes {w} (analyze provider budget fuel e) =
      rw e (Changes-run_llm_pipeline broker Admits provider budget fuel w)
  Step-Changes {w} (trade rules fuel a e) =
      rw e (Changes-run_rule_pipeline broker settings is_open_at Admits rules a fuel w)
  Step-Changes {w} (mirror_positions e) = rw e (Changes-one (Change-sync_positions w))
  Step-Changes {w} (book_fill fill order e) = rw e (Changes-one (Change-persist_fill fill order w))
  Step-Changes {w} (check_drawdown d t e) =
      rw e (Changes-one (Switches-Change broker Admits (Switches-trigger_from_drawdown d t w)))
  Step-Changes {w} (request r e) =
      rw e (Changes-one (Switches-Change broker Admits (Switches-handle r w)))
  Step-Changes (operate o e) = Changes-one (switched o e)
  Step-Changes (wait n e) =
      Changes-one (messaged (rw e (record { tables = refl; placed = refl; flag = refl })))

  -- Whatever the machine does is a sequence of the elementary changes.
  pub Reach-Changes : {w w' : World R} → Reach w w' → Changes broker Admits w w'
  Reach-Changes start = here
  Reach-Changes (step r s) = Changes-trans (Reach-Changes r) (Step-Changes s)
