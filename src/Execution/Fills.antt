-- ===== src/Execution/Fills.antt =====
-- `persist_fill` of backend/execution/executor.py.
use x_social_trader.Base.{
  String, str_eq, Bool, false, ◌&&◌, ◌||◌, not, ltb, List, [], ◌∷◌, map, if◌then◌else◌,
}
use x_social_trader.Models.{BrokerFill, FillRow, Order}
use x_social_trader.Runtime.{Runtime}
use x_social_trader.World.{World, Db, Action, returned, raised, integrity_error}
use x_social_trader.World.Tables.{next_id}

module _ {R : Type 0} where
  -- a row with that external id
  abbrev pub fill_known : String → List (FillRow R) → Bool
  fill_known k [] = false
  fill_known k (f ∷ fs) = str_eq k f.external_fill_id || fill_known k fs

  abbrev pub fill_row : BrokerFill R → Order R → World R → FillRow R
  fill_row broker_fill db_order w = record {
    id = next_id (map (λ (f : FillRow R). f.id) w.db.fills);
    order_id = db_order.id;
    external_fill_id = broker_fill.external_fill_id;
    symbol = broker_fill.symbol;
    quantity = broker_fill.quantity;
    price = broker_fill.price;
    commission_usd = broker_fill.commission_usd;
    filled_at = broker_fill.filled_at;
  }

module _ {R : Type 0} ⦃py : Runtime R⦄ where
  -- the constraints quantity_positive and price_positive, and the unique external id
  abbrev pub fill_fits : FillRow R → World R → Bool
  fill_fits f w =
      ltb 0 f.quantity && py.lt py.zero f.price && not (fill_known f.external_fill_id w.db.fills)

  unfoldable pub persist_fill : BrokerFill R → Order R → Action R (FillRow R)
  persist_fill broker_fill db_order w =
      let row = fill_row broker_fill db_order w in
      let db : Db R = w.db in
      if fill_fits row w
      then (returned row, record w { db = record db { fills = row ∷ w.db.fills } })
      else (raised integrity_error, w)
