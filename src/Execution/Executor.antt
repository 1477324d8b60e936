-- ===== src/Execution/Executor.antt =====
-- backend/execution/executor.py
use x_social_trader.Base.{
  ℕ, String, str_append, str_eq, Bool, true, false, not, ◌&&◌, ◌||◌, Option, some, List, [], ◌∷◌,
  map, ltb, is_some, if◌then◌else◌,
}
use x_social_trader.Models.{
  ProposedOrder, ValidationContext, RuleCheckResult, ok, failures, ValidatedOrder, OrderReceipt,
  Order, TradingMode, paper, live, OrderType, market, limit,
}
use x_social_trader.Runtime.{Runtime}
use x_social_trader.Settings.{Settings, is_live_trading}
use x_social_trader.World.{
  World, Db, Action, ◌>>=◌, ◌>>◌, gets, modify, raise_if, pure, returned, raised,
  kill_switch_active, live_mode_not_permitted, submission_rejected, integrity_error,
}
use x_social_trader.World.Tables.{next_id}
use x_social_trader.Providers.{BrokerProvider, place_order}
use x_social_trader.KillSwitch.{is_active}
use x_social_trader.Risk.{RiskManager, validate}

pub record SubmissionResult (R : Type 0) : Type 0 where
  pub receipt : OrderReceipt
  pub validated_order : ValidatedOrder R
  pub db_order_id : ℕ

pub record OrderExecutor (R : Type 0) : Type 0 where
  pub broker : BrokerProvider R
  pub risk_manager : RiskManager R
  pub settings : Settings R

-- `compute_idempotency_key`
abbrev pub compute_idempotency_key : String → String → String
compute_idempotency_key event_id strategy_id = str_append event_id (str_append ":" strategy_id)

abbrev pub is_live : TradingMode → Bool
is_live live = true
is_live paper = false

-- The CHECK constraint `limit_price_required_for_limit` of the table `orders`.
abbrev pub limit_price_fits : {R : Type 0} → OrderType → Option R → Bool
limit_price_fits limit price = is_some price
limit_price_fits market price = not (is_some price)

-- `"; ".join(f"{f.rule_name}: {f.reason}" for f in validation.failures)`
abbrev pub joined_reasons : {R : Type 0} → List (RuleCheckResult R) → String
joined_reasons [] = ""
joined_reasons (c ∷ []) = str_append c.rule_name (str_append ": " c.reason)
joined_reasons (c ∷ d ∷ cs) =
    str_append c.rule_name
      (str_append ": " (str_append c.reason (str_append "; " (joined_reasons (d ∷ cs)))))

module _ {R : Type 0} where
  -- The `ValidatedOrder` that `submit` builds.
  abbrev pub validated_order : ProposedOrder R → ValidatedOrder R
  validated_order p = record {
    idempotency_key = compute_idempotency_key p.event_id p.strategy_id;
    event_id = p.event_id;
    strategy_id = p.strategy_id;
    trading_mode = p.trading_mode;
    side = p.side;
    order_type = p.order_type;
    symbol = p.symbol;
    quantity = p.quantity;
    limit_price = p.limit_price;
  }

  -- The `DBOrder` that `submit` builds; the database fills in the key and the time.
  abbrev pub order_row : ProposedOrder R → OrderReceipt → World R → Order R
  order_row p receipt w = record {
    id = next_id (map (λ (o : Order R). o.id) w.db.orders);
    created_at = w.now;
    idempotency_key = compute_idempotency_key p.event_id p.strategy_id;
    event_id = p.event_id;
    strategy_id = p.strategy_id;
    external_id = some receipt.external_id;
    trading_mode = p.trading_mode;
    side = p.side;
    order_type = p.order_type;
    symbol = p.symbol;
    quantity = p.quantity;
    limit_price = p.limit_price;
  }

  -- The key is in use in the table `orders`.
  abbrev pub key_taken : String → List (Order R) → Bool
  key_taken k [] = false
  key_taken k (o ∷ os) = str_eq k o.idempotency_key || key_taken k os

  abbrev pub with_order : Order R → World R → World R
  with_order row w =
      let db : Db R = w.db in record w { db = record db { orders = row ∷ w.db.orders } }

  -- `session.add(db_order)` and `flush`, with the constraints UNIQUE(idempotency_key),
  -- `quantity_positive` and `limit_price_required_for_limit`
  unfoldable pub insert_order : Order R → Action R ℕ
  insert_order row w =
      if not (key_taken row.idempotency_key w.db.orders)
        && ltb 0 row.quantity
        && limit_price_fits row.order_type row.limit_price
      then (returned row.id, with_order row w)
      else (raised integrity_error, w)

module _ {R : Type 0} ⦃py : Runtime R⦄ where
  -- `OrderExecutor.submit`
  unfoldable pub submit :
      OrderExecutor R → ProposedOrder R → ValidationContext R → Action R (SubmissionResult R)
  unfolding insert_order
  submit self p context = do
    state ← gets is_active
    raise_if state.active (kill_switch_active state.source)
    raise_if (is_live p.trading_mode && not (is_live_trading self.settings)) live_mode_not_permitted
    validation ← (λ w. let (v, w') = validate self.risk_manager p context w in (returned v, w'))
    raise_if (not (ok validation))
        (submission_rejected (joined_reasons (failures validation)) validation)
    receipt ← place_order self.broker (validated_order p)
    row ← gets (order_row p receipt)
    order_id ← insert_order row
    modify (λ w. record w { orders_submitted_total = p.trading_mode ∷ w.orders_submitted_total })
    pure (record { receipt = receipt; validated_order = validated_order p; db_order_id = order_id })
