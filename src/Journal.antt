-- ===== src/Journal.antt =====
-- The view `trade_journal` of alembic/versions/20260426_0900_trade_journal_view.py.
mod Joins
pub mod Causes
pub mod Completeness
use x_social_trader.Base.{
  ℕ, String, str_eq, Bool, Option, none, some, List, [], ◌∷◌, ◌++◌, map, keep, pos, eq_ℤ,
}
use x_social_trader.Models.{
  Event, RawTweetRow, LlmDecisionRow, Order, FillRow, TradingMode, OrderSide, OrderType,
}
use x_social_trader.World.{Db}

-- A column of a joined row, NULL when the join found no row.
abbrev pub column_of {ℓ κ} : {A : Type ℓ} {B : Type κ} → (A → B) → Option A → Option B
column_of f none = none
column_of f (some a) = some (f a)

-- `LEFT JOIN`: the rows that fit, or NULL alone.
abbrev pub or_null {ℓ} : {A : Type ℓ} → List A → List (Option A)
or_null [] = none ∷ []
or_null (x ∷ xs) = map some (x ∷ xs)

abbrev pub for_each {ℓ κ} : {A : Type ℓ} {B : Type κ} → List A → (A → List B) → List B
for_each [] f = []
for_each (x ∷ xs) f = f x ++ for_each xs f

-- The columns of the view.
pub record JournalRow (R : Type 0) : Type 0 where
  pub event_id : String
  pub ticker : String
  pub intent : String
  pub confidence : R
  pub time_horizon : String
  pub tweet_id : Option String
  pub username : Option String
  pub tweet_received_at : Option ℕ
  pub llm_decision_id : Option ℕ
  pub llm_model : Option String
  pub llm_prompt_version : Option String
  pub llm_cost_usd : Option R
  pub order_id : Option ℕ
  pub idempotency_key : Option String
  pub order_external_id : Option String
  pub trading_mode : Option TradingMode
  pub order_side : Option OrderSide
  pub order_type : Option OrderType
  pub order_symbol : Option String
  pub order_quantity : Option ℕ
  pub order_created_at : Option ℕ
  pub fill_id : Option ℕ
  pub external_fill_id : Option String
  pub fill_price : Option R
  pub fill_commission_usd : Option R
  pub filled_at : Option ℕ

-- `=` between two keys
abbrev pub same_key : ℕ → ℕ → Bool
same_key m n = eq_ℤ (pos m) (pos n)

module _ {R : Type 0} where
  abbrev pub external_id_of : Option (Order R) → Option String
  external_id_of none = none
  external_id_of (some o) = o.external_id

  -- the SELECT list
  abbrev pub journal_row :
      Event R
      → Option RawTweetRow
      → Option (LlmDecisionRow R)
      → Option (Order R)
      → Option (FillRow R)
      → JournalRow R
  journal_row e rt ld o f = record {
    event_id = e.event_id;
    ticker = e.ticker;
    intent = e.intent;
    confidence = e.confidence;
    time_horizon = e.time_horizon;
    tweet_id = column_of (λ (r : RawTweetRow). r.tweet_id) rt;
    username = column_of (λ (r : RawTweetRow). r.username) rt;
    tweet_received_at = column_of (λ (r : RawTweetRow). r.received_at) rt;
    llm_decision_id = column_of (λ (d : LlmDecisionRow R). d.id) ld;
    llm_model = column_of (λ (d : LlmDecisionRow R). d.model) ld;
    llm_prompt_version = column_of (λ (d : LlmDecisionRow R). d.prompt_version) ld;
    llm_cost_usd = column_of (λ (d : LlmDecisionRow R). d.cost_usd) ld;
    order_id = column_of (λ (x : Order R). x.id) o;
    idempotency_key = column_of (λ (x : Order R). x.idempotency_key) o;
    order_external_id = external_id_of o;
    trading_mode = column_of (λ (x : Order R). x.trading_mode) o;
    order_side = column_of (λ (x : Order R). x.side) o;
    order_type = column_of (λ (x : Order R). x.order_type) o;
    order_symbol = column_of (λ (x : Order R). x.symbol) o;
    order_quantity = column_of (λ (x : Order R). x.quantity) o;
    order_created_at = column_of (λ (x : Order R). x.created_at) o;
    fill_id = column_of (λ (x : FillRow R). x.id) f;
    external_fill_id = column_of (λ (x : FillRow R). x.external_fill_id) f;
    fill_price = column_of (λ (x : FillRow R). x.price) f;
    fill_commission_usd = column_of (λ (x : FillRow R). x.commission_usd) f;
    filled_at = column_of (λ (x : FillRow R). x.filled_at) f;
  }

  -- the ON conditions
  abbrev pub tweets_of : Db R → Event R → List (Option RawTweetRow)
  tweets_of db e = or_null (keep (λ (r : RawTweetRow). same_key r.id e.raw_tweet_id) db.raw_tweets)

  abbrev pub decisions_of : Db R → Event R → List (Option (LlmDecisionRow R))
  decisions_of db e =
      or_null (keep (λ (d : LlmDecisionRow R). same_key d.id e.llm_decision_id) db.llm_decisions)

  abbrev pub orders_of : Db R → Event R → List (Option (Order R))
  orders_of db e = or_null (keep (λ (o : Order R). str_eq o.event_id e.event_id) db.orders)

  abbrev pub fills_of : Db R → Option (Order R) → List (Option (FillRow R))
  fills_of db none = none ∷ []
  fills_of db (some o) = or_null (keep (λ (f : FillRow R). same_key f.order_id o.id) db.fills)

  -- the rows of one event
  unfoldable pub rows_of_event : Db R → Event R → List (JournalRow R)
  rows_of_event db e = for_each (tweets_of db e) λ rt.
      for_each (decisions_of db e)
        λ ld. for_each (orders_of db e) λ o. map (journal_row e rt ld o) (fills_of db o)

  unfoldable pub trade_journal : Db R → List (JournalRow R)
  trade_journal db = for_each db.events (rows_of_event db)
