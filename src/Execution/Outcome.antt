-- ===== src/Execution/Outcome.antt =====
-- How `submit` ends, and what it has written by then.
use x_social_trader.Base.{◌≡◌, ◌⊎◌, true, false, some, ◌∷◌, arith}
use x_social_trader.Models.{ProposedOrder, ValidationContext, ok, failures, OrderReceipt, live}
use x_social_trader.Runtime.{Runtime}
use x_social_trader.Settings.{is_live_trading}
use x_social_trader.World.{
  World, raised, kill_switch_active, live_mode_not_permitted, submission_rejected, integrity_error,
}
use x_social_trader.KillSwitch.{is_active}
use x_social_trader.Risk.{validate}
use x_social_trader.Risk.Audit.{placed-validate, orders-validate}
use x_social_trader.Execution.Executor.{
  OrderExecutor, submit, validated_order, insert_order, limit_price_fits, joined_reasons,
}
use x_social_trader.Execution.Gates.{Cleared}

module _ {R : Type 0} ⦃py : Runtime R⦄ (self : OrderExecutor R) (p : ProposedOrder R)
    (context : ValidationContext R) where
  abbrev pub judged : World R → World R
  judged w = (validate self.risk_manager p context w).1

  -- A call of `submit` is one of four things. With the kill switch active it raises its error, with
  -- the source, and changes nothing, not even the audit. With the switch off, a live order that the
  -- settings do not permit is refused and changes nothing either. With both gates open, an order
  -- that fails a rule raises the rejection with the verdict, and all that has changed is what
  -- `validate` wrote. Otherwise the order is cleared, and it is given to the broker.
  pub submit_refusals :
      (w : World R)
      → (((is_active w).active ≡ true)
          × (submit self p context w ≡ (raised (kill_switch_active (is_active w).source), w)))
        ⊎ (((is_active w).active ≡ false)
            × (p.trading_mode ≡ live)
            × (is_live_trading self.settings ≡ false)
            × (submit self p context w ≡ (raised live_mode_not_permitted, w)))
        ⊎ (((is_active w).active ≡ false)
            × (let v = (validate self.risk_manager p context w).0 in
                (ok v ≡ false)
                × (submit self p context w
                    ≡ (raised (submission_rejected (joined_reasons (failures v)) v), judged w))))
        ⊎ (Cleared self p context w
            × ((submit self p context w).1.placed ≡ validated_order p ∷ w.placed))
  unfolding submit
  submit_refusals w = ground (arith, placed-validate self.risk_manager p context w)

  -- A limit order with no limit price, or a market order with one, that passes the gates and that
  -- the broker accepts, is given to the broker; then `submit` raises the database's error, and there
  -- is no row of it in the table `orders`.
  pub submit_unpersisted :
      (w : World R) (receipt : OrderReceipt)
      → Cleared self p context w
      → self.broker.accept w.placed (validated_order p) ≡ some receipt
      → limit_price_fits p.order_type p.limit_price ≡ false
      → let (r, w') = submit self p context w in
        (r ≡ raised integrity_error)
        × (w'.placed ≡ validated_order p ∷ w.placed)
        × (w'.db.orders ≡ w.db.orders)
  unfolding submit insert_order
  submit_unpersisted w receipt c a l = ground (
    arith,
    placed-validate self.risk_manager p context w,
    orders-validate self.risk_manager p context w,
  )
