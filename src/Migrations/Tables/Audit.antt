-- ===== src/Migrations/Tables/Audit.antt =====
-- The tables of alembic/versions/20260423_1536_initial.py that refer to others.
use x_social_trader.Base.{true, false, [], ◌∷◌}
use x_social_trader.Migrations.{
  Table, integer, float, text, json, datetime, string, primary_key, check, foreign_key,
}
use x_social_trader.Migrations.Tables.{column, timestamp}

abbrev pub llm_decisions : Table
llm_decisions = record {
  name = "llm_decisions";
  columns =
      column "id" (integer) false
      ∷ column "raw_tweet_id" (integer) false
      ∷ column "prompt_version" (string 32) false
      ∷ column "model" (string 128) false
      ∷ column "provider" (string 32) false
      ∷ column "prompt" (text) false
      ∷ column "raw_response" (text) false
      ∷ column "parsed_decision" (json) true
      ∷ column "cost_usd" (float) false
      ∷ column "latency_ms" (integer) false
      ∷ column "status" (string 16) false
      ∷ timestamp "created_at"
      ∷ [];
  constraints =
      check "status IN ('success', 'invalid_json', 'error')" "ck_llm_decisions_status_valid"
      ∷ foreign_key ("raw_tweet_id" ∷ []) (("raw_tweets", "id") ∷ [])
          "fk_llm_decisions_raw_tweet_id_raw_tweets" "RESTRICT"
      ∷ primary_key ("id" ∷ []) "pk_llm_decisions"
      ∷ [];
}

abbrev pub events : Table
events = record {
  name = "events";
  columns =
      column "id" (integer) false
      ∷ column "event_id" (string 64) false
      ∷ column "raw_tweet_id" (integer) false
      ∷ column "llm_decision_id" (integer) false
      ∷ column "ticker" (string 16) false
      ∷ column "intent" (string 16) false
      ∷ column "confidence" (float) false
      ∷ column "time_horizon" (string 16) false
      ∷ timestamp "created_at"
      ∷ [];
  constraints =
      check "intent IN ('bullish', 'bearish', 'neutral', 'noise')" "ck_events_intent_valid"
      ∷ check "time_horizon IN ('intraday', 'swing', 'long')" "ck_events_time_horizon_valid"
      ∷ check "confidence >= 0.0 AND confidence <= 1.0" "ck_events_confidence_in_unit"
      ∷ foreign_key ("llm_decision_id" ∷ []) (("llm_decisions", "id") ∷ [])
          "fk_events_llm_decision_id_llm_decisions" "RESTRICT"
      ∷ foreign_key ("raw_tweet_id" ∷ []) (("raw_tweets", "id") ∷ [])
          "fk_events_raw_tweet_id_raw_tweets" "RESTRICT"
      ∷ primary_key ("id" ∷ []) "pk_events"
      ∷ [];
}

abbrev pub orders : Table
orders = record {
  name = "orders";
  columns =
      column "id" (integer) false
      ∷ column "idempotency_key" (string 128) false
      ∷ column "event_id" (string 64) false
      ∷ column "strategy_id" (string 64) false
      ∷ column "external_id" (string 64) true
      ∷ column "trading_mode" (string 16) false
      ∷ column "side" (string 8) false
      ∷ column "order_type" (string 16) false
      ∷ column "symbol" (string 16) false
      ∷ column "quantity" (integer) false
      ∷ column "limit_price" (float) true
      ∷ timestamp "created_at"
      ∷ [];
  constraints =
      check
        "(order_type = 'limit' AND limit_price IS NOT NULL) OR (order_type = 'market' AND limit_price IS NULL)"
        "ck_orders_limit_price_required_for_limit"
      ∷ check "order_type IN ('market', 'limit')" "ck_orders_order_type_valid"
      ∷ check "side IN ('buy', 'sell')" "ck_orders_side_valid"
      ∷ check "trading_mode IN ('paper', 'live')" "ck_orders_trading_mode_valid"
      ∷ check "quantity > 0" "ck_orders_quantity_positive"
      ∷ foreign_key ("event_id" ∷ []) (("events", "event_id") ∷ []) "fk_orders_event_id_events"
          "RESTRICT"
      ∷ primary_key ("id" ∷ []) "pk_orders"
      ∷ [];
}

abbrev pub rule_evaluations : Table
rule_evaluations = record {
  name = "rule_evaluations";
  columns =
      column "id" (integer) false
      ∷ column "event_id" (string 64) false
      ∷ column "rule_id" (string 64) false
      ∷ column "rule_priority" (integer) false
      ∷ column "inputs_hash" (string 64) false
      ∷ column "inputs_json" (json) false
      ∷ column "outcome" (string 16) false
      ∷ column "proposed_order_json" (json) true
      ∷ timestamp "created_at"
      ∷ [];
  constraints =
      check "outcome IN ('matched', 'skipped', 'failed')" "ck_rule_evaluations_outcome_valid"
      ∷ foreign_key ("event_id" ∷ []) (("events", "event_id") ∷ [])
          "fk_rule_evaluations_event_id_events" "RESTRICT"
      ∷ primary_key ("id" ∷ []) "pk_rule_evaluations"
      ∷ [];
}

abbrev pub fills : Table
fills = record {
  name = "fills";
  columns =
      column "id" (integer) false
      ∷ column "order_id" (integer) false
      ∷ column "external_fill_id" (string 128) false
      ∷ column "symbol" (string 16) false
      ∷ column "quantity" (integer) false
      ∷ column "price" (float) false
      ∷ column "commission_usd" (float) false
      ∷ column "filled_at" (datetime) false
      ∷ timestamp "created_at"
      ∷ [];
  constraints =
      check "price > 0" "ck_fills_price_positive"
      ∷ check "quantity > 0" "ck_fills_quantity_positive"
      ∷ foreign_key ("order_id" ∷ []) (("orders", "id") ∷ []) "fk_fills_order_id_orders" "RESTRICT"
      ∷ primary_key ("id" ∷ []) "pk_fills"
      ∷ [];
}
