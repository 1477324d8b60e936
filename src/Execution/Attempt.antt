-- ===== src/Execution/Attempt.antt =====
-- An attempt is what the rule pipeline does with a proposed order (backend/services/rule_pipeline.py):
-- a fresh context, then `submit`; and what it leaves.
use x_social_trader.Base.{
  ℕ, ◌<◌, ◌≡◌, ◌⊎◌, inl, inr, refl, String, eq_iff, Bool, true, false, Option, none, some, List, [],
  ◌∷◌, arith, map, Absent,
}
use x_social_trader.Models.{ProposedOrder, ValidationContext, OrderReceipt, Order}
use x_social_trader.Runtime.{Runtime}
use x_social_trader.Settings.{Settings}
use x_social_trader.World.{World, Action, Result-cases, ◌>>=◌, returned}
use x_social_trader.Providers.{BrokerProvider}
use x_social_trader.Risk.{build_risk_manager, idempotency_key}
use x_social_trader.Execution.Context.{build_validation_context}
use x_social_trader.Execution.Executor.{
  OrderExecutor, SubmissionResult, submit, validated_order, order_row, insert_order, key_taken,
  limit_price_fits,
}
use x_social_trader.Execution.Gates.{Cleared}
use x_social_trader.Risk.Audit.{placed-validate, orders-validate, now-validate}

abbrev pub order_events : {R : Type 0} → List (Order R) → List String
order_events = map (λ o. o.event_id)

abbrev pub order_keys : {R : Type 0} → List (Order R) → List String
order_keys = map (λ o. o.idempotency_key)

module _ {R : Type 0} ⦃py : Runtime R⦄ where
  -- A context that was built says which events and keys have orders, and building it changes
  -- nothing.
  pub build_validation_context-seen :
      (broker : BrokerProvider R) (given : Option ℕ) (peak : Option R) (pnl : R) (w : World R)
      → let (r, w') = build_validation_context broker given peak pnl w in
        (w' ≡ w)
        × ((context : ValidationContext R)
            → r ≡ returned context
            → (context.seen_event_ids ≡ order_events w.db.orders)
              × (context.seen_idempotency_keys ≡ order_keys w.db.orders))
  unfolding build_validation_context
  build_validation_context-seen broker given peak pnl w = (ground arith, λ context h. ground arith)

  pub key_taken-Absent :
      (k : String) (os : List (Order R)) → Absent k (order_keys os) → key_taken k os ≡ false
  key_taken-Absent k [] h = refl
  key_taken-Absent k (o ∷ os) h =
      ground (arith, eq_iff k o.idempotency_key, key_taken-Absent k os h.1)

  -- A submission that reaches the broker adds its row if the broker accepts and the row fits.
  pub submit-cases :
      (self : OrderExecutor R) (p : ProposedOrder R) (context : ValidationContext R) (w : World R)
      → let w' = (submit self p context w).1 in
        ((w'.placed ≡ w.placed) × (w'.db.orders ≡ w.db.orders))
        ⊎ (Cleared self p context w
            × (w'.placed ≡ validated_order p ∷ w.placed)
            × ((receipt : OrderReceipt)
                → self.broker.accept w.placed (validated_order p) ≡ some receipt
                → key_taken (idempotency_key p.event_id p.strategy_id) w.db.orders ≡ false
                → 0 < p.quantity
                → limit_price_fits p.order_type p.limit_price ≡ true
                → w'.db.orders ≡ order_row p receipt w ∷ w.db.orders))
  unfolding submit insert_order
  submit-cases self p context w = ground (
    arith,
    placed-validate self.risk_manager p context w,
    orders-validate self.risk_manager p context w,
    now-validate self.risk_manager p context w,
  )

module _ {R : Type 0} ⦃py : Runtime R⦄ (broker : BrokerProvider R) (settings : Settings R)
    (is_open_at : ℕ → Bool) where
  unfoldable pub executor : OrderExecutor R
  executor = record {
    broker = broker;
    risk_manager = build_risk_manager settings is_open_at;
    settings = settings;
  }

  -- `ctx = await build_validation_context(broker, session)`, then `executor.submit`
  unfoldable pub attempt : ProposedOrder R → Action R (SubmissionResult R)
  attempt p = do
    context ← build_validation_context broker none none py.zero
    submit executor p context

  -- An attempt whose context cannot be built changes nothing; any other is a submission.
  pub attempt-cases :
      (p : ProposedOrder R) (w : World R)
      → ((attempt p w).1 ≡ w)
        ⊎ ((context : ValidationContext R) × ((attempt p w).1 ≡ (submit executor p context w).1)
            × (context.seen_event_ids ≡ order_events w.db.orders)
            × (context.seen_idempotency_keys ≡ order_keys w.db.orders))
  unfolding attempt
  attempt-cases p w =
      let built = build_validation_context broker none none py.zero w in
      let (same, seen) = build_validation_context-seen broker none none py.zero w in
      elim (Result-cases built.0) [
        | inl (context, e) ↦
            inr (context, ground (arith, e, same), (seen context e).0, (seen context e).1)
        | inr (x, e) ↦ inl (ground (arith, e, same))
      ]
