-- ===== src/Examples.antt =====
-- A small world to run the code on: a paper account with ten thousand dollars, one event, and a
-- broker that accepts every order.
mod Switches
mod Orders
mod Risks
mod Signals
mod Streams
mod Pipelines
mod Analyses
mod Feeds
mod Machines
mod Databases
use x_social_trader.Base.{
  ℕ, String, Bool, true, false, Option, none, some, List, [], ◌∷◌, ℤ, pos, negsuc,
}
use x_social_trader.Models.{
  ProposedOrder, ValidationContext, ValidatedOrder, OrderReceipt, Event, KillSwitchEvent, manual,
  paper, buy, market, RuleSpec, ActionSpec, ConditionSpec, confidence, gte, scalar, int,
}
use x_social_trader.Runtime.Sample.{Sample, num, sample}
use x_social_trader.World.{World, Redis, Db}
use x_social_trader.Settings.{Settings}
use x_social_trader.Providers.{BrokerProvider}
use x_social_trader.Execution.{OrderExecutor}
use x_social_trader.Risk.{build_risk_manager}

abbrev pub dollars : ℕ → Sample
dollars n = sample.mul_int n (num (pos 100))

abbrev pub empty_redis : Redis Sample
empty_redis = record { kill_flag = none; published = []; raw_tweets = []; events = []; spend = [] }

abbrev pub empty_db : Db Sample
empty_db = record {
  raw_tweets = [];
  llm_decisions = [];
  events = [];
  rule_evaluations = [];
  orders = [];
  kill_switch_events = [];
  positions = [];
  aliases = [];
  fills = [];
}

abbrev pub quiet : World Sample
quiet = record {
  env = none;
  now = 1;
  redis = empty_redis;
  db = empty_db;
  placed = [];
  analyzed = [];
  orders_submitted_total = [];
  kill_switch_activations_total = [];
}

abbrev pub some_settings : Settings Sample
some_settings = record {
  trading_mode = "paper";
  paper_trading = true;
  kill_switch = 0;
  max_capital_usd = dollars 1000;
  max_position_pct = dollars 5;
  max_total_exposure_pct = dollars 20;
  max_trades_per_day = pos 10;
  max_daily_drawdown_pct = dollars 3;
  allow_after_hours = true;
}

abbrev pub some_receipt : OrderReceipt
some_receipt = record { idempotency_key = "e1:s"; external_id = "x1"; submitted_at = 1 }

abbrev pub some_broker : BrokerProvider Sample
some_broker = record {
  account_summary = λ history. some (("NetLiquidation", dollars 10_000) ∷ []);
  positions = λ history. some [];
  accept = λ history v. some some_receipt;
}

abbrev pub never_open : ℕ → Bool
never_open t = false

abbrev pub some_executor : OrderExecutor Sample
some_executor = record {
  broker = some_broker;
  risk_manager = build_risk_manager some_settings never_open;
  settings = some_settings;
}

-- A market order for one share at a hundred dollars.
abbrev pub some_order : ProposedOrder Sample
some_order = record {
  event_id = "e1";
  strategy_id = "s";
  trading_mode = paper;
  side = buy;
  order_type = market;
  symbol = "AAPL";
  quantity = 1;
  limit_price = none;
  reference_price_usd = dollars 100;
}

-- The same with a limit price, which a market order must not have.
abbrev pub priced_order : ProposedOrder Sample
priced_order = record some_order { limit_price = some (dollars 99) }

abbrev pub some_context : ValidationContext Sample
some_context = record {
  now = 1;
  account_capital_usd = dollars 10_000;
  total_exposure_usd = dollars 0;
  trades_today = 0;
  daily_pnl_usd = dollars 0;
  daily_peak_usd = dollars 10_000;
  seen_event_ids = [];
  seen_idempotency_keys = [];
}

abbrev pub some_event : Event Sample
some_event = record {
  id = 1;
  event_id = "e1";
  raw_tweet_id = 1;
  llm_decision_id = 1;
  ticker = "AAPL";
  intent = "bullish";
  confidence = num (pos 90);
  time_horizon = "swing";
}

abbrev pub some_action : ActionSpec Sample
some_action = record {
  trading_mode = paper;
  side = buy;
  order_type = market;
  quantity = 1;
  limit_price = none;
  reference_price_usd = dollars 100;
  strategy_id = "s";
}

-- A rule that compares the confidence with an integer.
abbrev pub rule_with : String → ℤ → ℤ → RuleSpec Sample
rule_with id priority n = record {
  id = id;
  priority = priority;
  enabled = true;
  description = "";
  conditions = record { field = confidence; op = gte; value = scalar (int n) } ∷ [];
  action = some_action;
}
