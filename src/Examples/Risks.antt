-- ===== src/Examples/Risks.antt =====
-- The theorems on the risk manager at concrete orders.
use mathlib.Core.List.{reverse}
use x_social_trader.Base.{◌≡◌, ◌↔◌, refl, str_append, true, List, map, if◌then◌else◌}
use x_social_trader.Models.{ok, RuleEvaluation, matched, failed}
use x_social_trader.Runtime.Sample.{Sample, sample, sample-Ieee}
use x_social_trader.Risk.{
  validate, build_risk_manager, check, order_notional_usd, projected_exposure_usd, limit_usd,
}
use x_social_trader.Risk.Admission.{Admissible, ok-validate_iff}
use x_social_trader.Risk.Bounds.{ok-validate_bounds}
use x_social_trader.Risk.Audit.{validate_audits, with_evaluations}
use x_social_trader.Examples.{
  quiet, some_order, some_context, some_settings, never_open, some_executor,
}
use x_social_trader.Examples.Orders.{some_order-Admissible}

ok-validate_iff_example :
    (ok (validate (build_risk_manager some_settings never_open) some_order some_context quiet).0
      ≡ true)
    ↔ Admissible some_settings never_open some_order some_context
ok-validate_iff_example = ok-validate_iff some_settings never_open some_order some_context quiet

ok-validate_bounds_example :
    (sample.le
        (order_notional_usd some_order)
        (limit_usd some_settings.max_position_pct some_context)
      ≡ true)
    × (sample.le
          (projected_exposure_usd some_order some_context)
          (limit_usd some_settings.max_total_exposure_pct some_context)
        ≡ true)
ok-validate_bounds_example =
    ok-validate_bounds sample-Ieee some_settings never_open some_order some_context quiet refl refl
      refl refl
      ((ok-validate_iff some_settings never_open some_order some_context quiet).1
        some_order-Admissible)

validate_audits_example :
    let m = some_executor.risk_manager in
    (rows : List (RuleEvaluation Sample)) × ((validate m some_order some_context quiet).1
      ≡ with_evaluations rows quiet)
    × (map (λ (r : RuleEvaluation Sample). r.rule_id) rows
        ≡ reverse (
            map
              (λ rule. str_append "risk." (check rule some_order some_context).rule_name)
              m.rules))
    × (map (λ (r : RuleEvaluation Sample). r.outcome) rows
        ≡ reverse (
            map
              (λ rule. if (check rule some_order some_context).passed then matched else failed)
              m.rules))
validate_audits_example = validate_audits some_executor.risk_manager some_order some_context quiet
