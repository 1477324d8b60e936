-- ===== src/Risk/Audit.antt =====
-- What `validate` writes: one row of `rule_evaluations` for each rule, and nothing else.
use mathlib.Core.List.{reverse, append_assoc, map-append, reverse-cons, map-map}
use x_social_trader.Base.{
  ℕ, suc, ◌≡◌, refl, ap, ◌∙◌, str_append, List, [], ◌∷◌, ◌++◌, map, if◌then◌else◌,
}
use x_social_trader.Models.{
  ProposedOrder, ValidationContext, RuleCheckResult, RuleEvaluation, matched, failed,
}
use x_social_trader.Runtime.{Runtime}
use x_social_trader.World.{World, Db}
use x_social_trader.Risk.Rules.{check}
use x_social_trader.Risk.Manager.{RiskManager, validate, audit, audit_row, run_checks}

-- The world with rows put in front of `rule_evaluations`.
abbrev pub with_evaluations : {R : Type 0} → List (RuleEvaluation R) → World R → World R
with_evaluations {R} rows w =
    let db : Db R = w.db in
    record w { db = record db { rule_evaluations = rows ++ w.db.rule_evaluations } }

module _ {R : Type 0} ⦃py : Runtime R⦄ where
  -- The rows of the checks, the last one first.
  pub audit_rows : ProposedOrder R → ℕ → List (RuleCheckResult R) → List (RuleEvaluation R)
  audit_rows order idx [] = []
  audit_rows order idx (c ∷ cs) = audit_rows order (suc idx) cs ++ audit_row order idx c ∷ []

  pub with_evaluations-append :
      (rs : List (RuleEvaluation R)) (r : RuleEvaluation R) (w : World R)
      → with_evaluations rs (with_evaluations (r ∷ []) w) ≡ with_evaluations (rs ++ r ∷ []) w
  with_evaluations-append rs r w = rw append_assoc

  audit-eq :
      (order : ProposedOrder R) (idx : ℕ) (cs : List (RuleCheckResult R)) (w : World R)
      → audit order idx cs w ≡ with_evaluations (audit_rows order idx cs) w
  unfolding audit audit_rows
  audit-eq order idx [] w = refl
  audit-eq order idx (c ∷ cs) w =
      audit-eq order (suc idx) cs (with_evaluations (audit_row order idx c ∷ []) w)
      ∙ with_evaluations-append (audit_rows order (suc idx) cs) (audit_row order idx c) w

  outcomes-audit_rows :
      (order : ProposedOrder R) (idx : ℕ) (cs : List (RuleCheckResult R))
      → map (λ (r : RuleEvaluation R). r.outcome) (audit_rows order idx cs)
        ≡ reverse (map (λ (c : RuleCheckResult R). if c.passed then matched else failed) cs)
  unfolding audit_rows
  outcomes-audit_rows order idx [] = refl
  outcomes-audit_rows order idx (c ∷ cs) =
      simp (map-append, reverse-cons, outcomes-audit_rows order (suc idx) cs)

  names-audit_rows :
      (order : ProposedOrder R) (idx : ℕ) (cs : List (RuleCheckResult R))
      → map (λ (r : RuleEvaluation R). r.rule_id) (audit_rows order idx cs)
        ≡ reverse (map (λ (c : RuleCheckResult R). str_append "risk." c.rule_name) cs)
  unfolding audit_rows
  names-audit_rows order idx [] = refl
  names-audit_rows order idx (c ∷ cs) =
      simp (map-append, reverse-cons, names-audit_rows order (suc idx) cs)

  -- `validate` adds rows to `rule_evaluations` and changes nothing else in the world: one row for
  -- every rule, in the order of the rules (the table has the newest row first), named after the
  -- rule, with the outcome `matched` if the rule passed the order and `failed` if not; no failing
  -- rule keeps a later one from its row.
  pub validate_audits :
      (m : RiskManager R) (order : ProposedOrder R) (context : ValidationContext R) (w : World R)
      → (rows : List (RuleEvaluation R)) × ((validate m order context w).1
          ≡ with_evaluations rows w)
        × (map (λ (r : RuleEvaluation R). r.rule_id) rows
            ≡ reverse
                (map (λ rule. str_append "risk." (check rule order context).rule_name) m.rules))
        × (map (λ (r : RuleEvaluation R). r.outcome) rows
            ≡ reverse (
                map
                  (λ rule. if (check rule order context).passed then matched else failed)
                  m.rules))
  unfolding validate run_checks
  validate_audits m order context w =
      let cs = run_checks m.rules order context in
      (
        audit_rows order 0 cs,
        audit-eq order 0 cs w,
        names-audit_rows order 0 cs ∙ ap reverse (map-map _ _ m.rules),
        outcomes-audit_rows order 0 cs ∙ ap reverse (map-map _ _ m.rules),
      )

module _ {R : Type 0} ⦃py : Runtime R⦄ (m : RiskManager R) (order : ProposedOrder R)
    (context : ValidationContext R) (w : World R) where
  -- What `validate` leaves alone.
  pub placed-validate : (validate m order context w).1.placed ≡ w.placed
  placed-validate = ap (λ u. u.placed) (validate_audits m order context w).1

  pub orders-validate : (validate m order context w).1.db.orders ≡ w.db.orders
  orders-validate = ap (λ u. u.db.orders) (validate_audits m order context w).1

  pub submitted-validate :
      (validate m order context w).1.orders_submitted_total ≡ w.orders_submitted_total
  submitted-validate = ap (λ u. u.orders_submitted_total) (validate_audits m order context w).1

  pub now-validate : (validate m order context w).1.now ≡ w.now
  now-validate = ap (λ u. u.now) (validate_audits m order context w).1

  pub switch_rows-validate :
      (validate m order context w).1.db.kill_switch_events ≡ w.db.kill_switch_events
  switch_rows-validate = ap (λ u. u.db.kill_switch_events) (validate_audits m order context w).1

  pub redis-validate : (validate m order context w).1.redis ≡ w.redis
  redis-validate = ap (λ u. u.redis) (validate_audits m order context w).1

  pub env-validate : (validate m order context w).1.env ≡ w.env
  env-validate = ap (λ u. u.env) (validate_audits m order context w).1
