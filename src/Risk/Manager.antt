-- ===== src/Risk/Manager.antt =====
-- backend/risk/manager.py and backend/risk/factory.py.
use x_social_trader.Base.{
  ℕ, suc, String, str_append, Bool, List, [], ◌∷◌, map, none, pos, merge, if◌then◌else◌,
}
use x_social_trader.Models.{
  ProposedOrder, ValidationContext, RuleCheckResult, ValidationResult, RuleEvaluation, int, text,
  Scalar, risk_payload, matched, failed,
}
use x_social_trader.Runtime.{Runtime}
use x_social_trader.Settings.{Settings}
use x_social_trader.World.{World, Db, Result, returned, raised, value_error}
use x_social_trader.Risk.Rules.{
  RiskRule, check, position_size, total_exposure, max_trades_per_day, daily_drawdown, market_hours,
  idempotency,
}

pub record RiskManager (R : Type 0) : Type 0 where
  pub rules : List (RiskRule R)

-- `RiskManager.__init__`
unfoldable pub make_risk_manager : {R : Type 0} → List (RiskRule R) → Result R (RiskManager R)
make_risk_manager [] = raised value_error
make_risk_manager rules = returned (record { rules = rules })

-- `build_risk_manager`, with the calendar given
unfoldable pub build_risk_manager : {R : Type 0} → Settings R → (ℕ → Bool) → RiskManager R
build_risk_manager settings is_open_at = record {
  rules =
      position_size settings.max_position_pct
      ∷ total_exposure settings.max_total_exposure_pct
      ∷ max_trades_per_day settings.max_trades_per_day
      ∷ daily_drawdown settings.max_daily_drawdown_pct
      ∷ market_hours is_open_at settings.allow_after_hours
      ∷ idempotency
      ∷ [];
}

module _ {R : Type 0} ⦃py : Runtime R⦄ where
  -- the `payload` of one check
  abbrev pub audit_payload : ProposedOrder R → RuleCheckResult R → List (String × Scalar R)
  audit_payload order c =
      merge
        (("reason", text c.reason)
          ∷ ("order_symbol", text order.symbol)
          ∷ ("order_quantity", int (pos order.quantity))
          ∷ [])
        c.inputs

  abbrev pub audit_row : ProposedOrder R → ℕ → RuleCheckResult R → RuleEvaluation R
  audit_row order idx c =
      let payload = audit_payload order c in
      record {
        event_id = order.event_id;
        rule_id = str_append "risk." c.rule_name;
        rule_priority = pos idx;
        inputs_hash = py.digest payload;
        inputs_json = risk_payload payload;
        outcome = if c.passed then matched else failed;
        proposed_order_json = none;
      }

  -- `session.add` of one `rule_evaluations` row
  abbrev pub add_evaluation : RuleEvaluation R → World R → World R
  add_evaluation row w =
      let db : Db R = w.db in
      record w { db = record db { rule_evaluations = row ∷ w.db.rule_evaluations } }

  -- `_audit`: the loop over `enumerate(checks)`
  unfoldable pub audit : ProposedOrder R → ℕ → List (RuleCheckResult R) → World R → World R
  audit order idx [] w = w
  audit order idx (c ∷ cs) w = audit order (suc idx) cs (add_evaluation (audit_row order idx c) w)

  unfoldable pub run_checks :
      List (RiskRule R) → ProposedOrder R → ValidationContext R → List (RuleCheckResult R)
  run_checks rules order context = map (λ rule. check rule order context) rules

  -- `RiskManager.validate`
  unfoldable pub validate :
      RiskManager R → ProposedOrder R → ValidationContext R → World R → ValidationResult R × World R
  unfolding run_checks
  validate manager order context w =
      let checks = run_checks manager.rules order context in
      (record { checks = checks }, audit order 0 checks w)
