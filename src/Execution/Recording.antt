-- ===== src/Execution/Recording.antt =====
-- What `submit` leaves in the table `orders`.
use x_social_trader.Base.{
  ◌<◌, ◌≡◌, ◌⊎◌, inl, inr, refl, str_append, false, some, ◌∷◌, arith, Option-cases,
}
use x_social_trader.Models.{ProposedOrder, ValidationContext, ValidatedOrder, Order, OrderReceipt}
use x_social_trader.Runtime.{Runtime}
use x_social_trader.World.{World, Error, Result-cases, returned, raised}
use x_social_trader.Risk.Audit.{placed-validate, orders-validate, submitted-validate, now-validate}
use x_social_trader.Execution.Executor.{
  OrderExecutor, SubmissionResult, submit, validated_order, order_row, insert_order, key_taken,
  compute_idempotency_key,
}

module _ {R : Type 0} where
  -- The order of the broker asks for what was proposed.
  pub record Asks (p : ProposedOrder R) (v : ValidatedOrder R) : Type 0 where
    pub symbol : v.symbol ≡ p.symbol
    pub side : v.side ≡ p.side
    pub order_type : v.order_type ≡ p.order_type
    pub quantity : v.quantity ≡ p.quantity
    pub limit_price : v.limit_price ≡ p.limit_price
    pub trading_mode : v.trading_mode ≡ p.trading_mode

  -- The row is that of the proposed order and of the result of its submission.
  pub record Records (p : ProposedOrder R) (out : SubmissionResult R) (o : Order R) : Type 0 where
    pub id : o.id ≡ out.db_order_id
    pub external_id : o.external_id ≡ some out.receipt.external_id
    pub idempotency_key : o.idempotency_key ≡ str_append p.event_id (str_append ":" p.strategy_id)
    pub event_id : o.event_id ≡ p.event_id
    pub strategy_id : o.strategy_id ≡ p.strategy_id
    pub trading_mode : o.trading_mode ≡ p.trading_mode
    pub side : o.side ≡ p.side
    pub order_type : o.order_type ≡ p.order_type
    pub symbol : o.symbol ≡ p.symbol
    pub quantity : o.quantity ≡ p.quantity
    pub limit_price : o.limit_price ≡ p.limit_price

module _ {R : Type 0} ⦃py : Runtime R⦄ (self : OrderExecutor R) (p : ProposedOrder R)
    (context : ValidationContext R) where
  -- What a submission that returns has done.
  pub record HasSubmitted (w w' : World R) (out : SubmissionResult R) : Type 0 where
    pub asked : Asks p out.validated_order
    pub accepted : self.broker.accept w.placed out.validated_order ≡ some out.receipt
    pub placed : w'.placed ≡ out.validated_order ∷ w.placed
    pub row : Order R
    pub recorded : Records p out row
    pub new_key : key_taken row.idempotency_key w.db.orders ≡ false
    pub positive : 0 < row.quantity
    pub orders : w'.db.orders ≡ row ∷ w.db.orders
    pub counted : w'.orders_submitted_total ≡ p.trading_mode ∷ w.orders_submitted_total

  -- The result for a receipt.
  abbrev result : World R → OrderReceipt → SubmissionResult R
  result w receipt = record {
    receipt = receipt;
    validated_order = validated_order p;
    db_order_id = (order_row p receipt w).id;
  }

  submit-returned :
      (w : World R) (out : SubmissionResult R) (receipt : OrderReceipt)
      → (submit self p context w).0 ≡ returned out
      → self.broker.accept w.placed (validated_order p) ≡ some receipt
      → let w' = (submit self p context w).1 in
        (out ≡ result w receipt)
        × (key_taken (compute_idempotency_key p.event_id p.strategy_id) w.db.orders ≡ false)
        × (0 < p.quantity)
        × (w'.placed ≡ validated_order p ∷ w.placed)
        × (w'.db.orders ≡ order_row p receipt w ∷ w.db.orders)
        × (w'.orders_submitted_total ≡ p.trading_mode ∷ w.orders_submitted_total)
  unfolding submit insert_order
  submit-returned w out receipt h e = ground (
    arith,
    h,
    e,
    placed-validate self.risk_manager p context w,
    orders-validate self.risk_manager p context w,
    submitted-validate self.risk_manager p context w,
    now-validate self.risk_manager p context w,
  )

  accepted-submit :
      (w : World R) (out : SubmissionResult R)
      → (submit self p context w).0 ≡ returned out
      → (receipt : OrderReceipt) × (self.broker.accept w.placed (validated_order p) ≡ some receipt)
  unfolding submit insert_order
  accepted-submit w out h = elim (Option-cases (self.broker.accept w.placed (validated_order p))) [
    | inl e ↦ absurd (ground (arith, h, e, placed-validate self.risk_manager p context w))
    | inr found ↦ found
  ]

  submit-HasSubmitted :
      (w : World R) (out : SubmissionResult R)
      → (submit self p context w).0 ≡ returned out
      → HasSubmitted w (submit self p context w).1 out
  submit-HasSubmitted w out h =
      let (receipt, e) = accepted-submit w out h in
      let (same, new, positive, placed, orders, counted) = submit-returned w out receipt h e in
      record {
        asked = rw same (record {
          symbol = refl;
          side = refl;
          order_type = refl;
          quantity = refl;
          limit_price = refl;
          trading_mode = refl;
        });
        accepted = rw same e;
        placed = rw same placed;
        row = order_row p receipt w;
        recorded = rw same (record {
          id = refl;
          external_id = refl;
          idempotency_key = refl;
          event_id = refl;
          strategy_id = refl;
          trading_mode = refl;
          side = refl;
          order_type = refl;
          symbol = refl;
          quantity = refl;
          limit_price = refl;
        });
        new_key = new;
        positive = positive;
        orders = orders;
        counted = counted;
      }

  submit-raised :
      (w : World R) (x : Error R)
      → (submit self p context w).0 ≡ raised x
      → let w' = (submit self p context w).1 in
        (w'.db.orders ≡ w.db.orders) × (w'.orders_submitted_total ≡ w.orders_submitted_total)
  unfolding submit insert_order
  submit-raised w x h = ground (
    arith,
    h,
    orders-validate self.risk_manager p context w,
    submitted-validate self.risk_manager p context w,
  )

  -- A call of `submit` returns or raises. If it returns, the broker has accepted one new order, which
  -- asks for what was proposed, with the receipt that is returned; the table `orders` has one new
  -- row, under a key that no row had, with the proposed fields, the key made of the event and the
  -- strategy, the receipt's external id and the id that is returned; and the counter has gone up by
  -- one. If it raises, `orders` and the counter are unchanged.
  pub submit_records :
      (w : World R)
      → let (r, w') = submit self p context w in
        ((out : SubmissionResult R) × (r ≡ returned out) × HasSubmitted w w' out)
        ⊎ ((x : Error R) × (r ≡ raised x)
            × (w'.db.orders ≡ w.db.orders)
            × (w'.orders_submitted_total ≡ w.orders_submitted_total))
  submit_records w = elim (Result-cases (submit self p context w).0) [
    | inl (out, e) ↦ inl (out, e, submit-HasSubmitted w out e)
    | inr (x, e) ↦ let (orders, counted) = submit-raised w x e in inr (x, e, orders, counted)
  ]
