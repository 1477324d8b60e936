-- ===== src/System/Trading/Attempts.antt =====
-- How an attempt of the rule pipeline to place an order ends, and what it leaves.
use x_social_trader.Base.{
  ℕ, ◌≡◌, inl, inr, refl, sym, subst, true, false, none, List, [], ◌∷◌, arith, Absent, Bool,
  Option-cases, Bool-cases, ltb,
}
use x_social_trader.Models.{
  ProposedOrder, ValidationContext, OrderReceipt, RuleEvaluation, failures,
}
use x_social_trader.Runtime.{Runtime}
use x_social_trader.Settings.{Settings}
use x_social_trader.World.{
  World, Db, Error, Result, Result-cases, returned, raised, broker_error, integrity_error,
  kill_switch_active, live_mode_not_permitted, submission_rejected,
}
use x_social_trader.Providers.{BrokerProvider}
use x_social_trader.Risk.{idempotency_key, build_risk_manager, validate}
use x_social_trader.Risk.Audit.{with_evaluations, validate_audits}
use x_social_trader.Execution.{
  OrderExecutor, build_validation_context, SubmissionResult, submit, validated_order, order_row,
  insert_order, limit_price_fits, joined_reasons,
}
use x_social_trader.KillSwitch.{is_active}
use x_social_trader.Execution.Outcome.{submit_refusals}
use x_social_trader.Execution.Gates.{Cleared}
use x_social_trader.Execution.Attempt.{
  order_events, order_keys, key_taken-Absent, build_validation_context-seen, attempt, executor,
}
use x_social_trader.Execution.Idempotency.{Cleared-new}
use x_social_trader.Services.RulePipeline.{is_rejection}
use x_social_trader.System.Changes.{IsUnrecordable}

pub data Outcome {R : Type 0} (broker : BrokerProvider R) (p : ProposedOrder R) (w : World R)
    (out : Result R (SubmissionResult R) × World R) : Type 0 where
  unstarted : (e : Error R) → out.0 ≡ raised e → out.1 ≡ w → Outcome broker p w out
  rejected :
      (e : Error R) (rows : List (RuleEvaluation R))
      → is_rejection e ≡ true
      → out.0 ≡ raised e
      → out.1 ≡ with_evaluations rows w
      → Outcome broker p w out
  recorded :
      (s : SubmissionResult R) (rows : List (RuleEvaluation R)) (receipt : OrderReceipt)
      → Absent p.event_id (order_events w.db.orders)
      → out.0 ≡ returned s
      → (let db : Db R = (with_evaluations rows w).db in
          out.1.db ≡ record db { orders = order_row p receipt w ∷ w.db.orders })
      → out.1.placed ≡ validated_order p ∷ w.placed
      → out.1.redis.kill_flag ≡ w.redis.kill_flag
      → Outcome broker p w out
  lost :
      (e : Error R)
      → is_rejection e ≡ false
      → IsUnrecordable broker w.placed (validated_order p)
      → out.0 ≡ raised e
      → out.1.placed ≡ validated_order p ∷ w.placed
      → out.1.redis.kill_flag ≡ w.redis.kill_flag
      → Outcome broker p w out

module _ {R : Type 0} ⦃py : Runtime R⦄ (broker : BrokerProvider R) (settings : Settings R)
    (is_open_at : ℕ → Bool) where
  abbrev self : OrderExecutor R
  self = executor broker settings is_open_at

  Outcome-Cleared :
      (p : ProposedOrder R) (context : ValidationContext R) (w : World R)
      → context.seen_event_ids ≡ order_events w.db.orders
      → context.seen_idempotency_keys ≡ order_keys w.db.orders
      → Cleared self p context w
      → Outcome broker p w (submit self p context w)
  unfolding executor submit insert_order
  Outcome-Cleared p context w events keys c =
      let (new_event, new_key) = Cleared-new broker settings is_open_at p context w c in
      let free =
        key_taken-Absent (idempotency_key p.event_id p.strategy_id) w.db.orders
          (rw keys at new_key) in
      let (rows, wrote, _, _) =
        validate_audits (build_risk_manager settings is_open_at) p context w in
      elim (Option-cases (broker.accept w.placed (validated_order p))) [
        | inl a ↦
            lost broker_error refl (inl a) (ground (arith, wrote, c, a))
              (ground (arith, wrote, c, a)) (ground (arith, wrote, c, a))
        | inr (receipt, a) ↦ elim (Bool-cases (ltb 0 p.quantity)) [
          | inr q ↦
              lost integrity_error refl (inr (λ z. absurd (ground (arith, q, z))))
                (ground (arith, wrote, c, a, q)) (ground (arith, wrote, c, a, q))
                (ground (arith, wrote, c, a, q))
          | inl q ↦ elim (Bool-cases (limit_price_fits p.order_type p.limit_price)) [
            | inr l ↦
                lost integrity_error refl (inr (λ z f. ground (arith, l, f)))
                  (ground (arith, wrote, c, a, l)) (ground (arith, wrote, c, a, l))
                  (ground (arith, wrote, c, a, l))
            | inl l ↦
                recorded
                  (record {
                    receipt = receipt;
                    validated_order = validated_order p;
                    db_order_id = (order_row p receipt w).id;
                  })
                  rows receipt (rw events at new_event) (ground (arith, wrote, c, a, q, l, free))
                  (ground (arith, wrote, c, a, q, l, free))
                  (ground (arith, wrote, c, a, q, l, free))
                  (ground (arith, wrote, c, a, q, l, free))
          ]
        ]
      ]

  -- A submission with a context that lists the events and keys of the table `orders`.
  Outcome-submit :
      (p : ProposedOrder R) (context : ValidationContext R) (w : World R)
      → context.seen_event_ids ≡ order_events w.db.orders
      → context.seen_idempotency_keys ≡ order_keys w.db.orders
      → Outcome broker p w (submit self p context w)
  Outcome-submit p context w events keys =
      let (rows, wrote, _, _) = validate_audits self.risk_manager p context w in
      let judgement = (validate self.risk_manager p context w).0 in
      elim (submit_refusals self p context w) [
        | inl (a, e) ↦
            rejected (kill_switch_active (is_active w).source) [] refl (rw e refl) (rw e refl)
        | inr (inl (a, m, l, e)) ↦ rejected live_mode_not_permitted [] refl (rw e refl) (rw e refl)
        | inr (inr (inl (a, (v, e)))) ↦
            rejected (submission_rejected (joined_reasons (failures judgement)) judgement) rows refl
              (rw e refl) (rw e wrote)
        | inr (inr (inr (c, _))) ↦ Outcome-Cleared p context w events keys c
      ]

  pub Outcome-attempt :
      (p : ProposedOrder R) (w : World R)
      → Outcome broker p w (attempt broker settings is_open_at p w)
  unfolding attempt
  Outcome-attempt p w =
      let built = build_validation_context broker none none py.zero w in
      let (same, seen) = build_validation_context-seen broker none none py.zero w in
      elim (Result-cases built.0) [
        | inr (x, e) ↦
            let failed : attempt broker settings is_open_at p w ≡ (raised x, w) =
              ground (arith, e, same) in
            subst (Outcome broker p w) (sym failed) (unstarted x refl refl)
        | inl (context, e) ↦
            let went : attempt broker settings is_open_at p w ≡ submit self p context w =
              ground (arith, e, same) in
            subst (Outcome broker p w) (sym went)
              (Outcome-submit p context w (seen context e).0 (seen context e).1)
      ]
