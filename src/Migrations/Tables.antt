-- ===== src/Migrations/Tables.antt =====
-- The tables that `upgrade` of alembic/versions/20260423_1536_initial.py creates: those that refer to
-- no other, and those of the audit trail (Audit).
pub mod Audit
use x_social_trader.Base.{true, false, none, some, List, [], ◌∷◌, String, Bool}
use x_social_trader.Migrations.{
  Table, Column, ColumnType, integer, boolean, float, text, json, datetime, string, primary_key,
  unique_key, check, foreign_key,
}

-- a column without a default
abbrev pub column : String → ColumnType → Bool → Column
column name type nullable = record {
  name = name;
  type = type;
  nullable = nullable;
  server_default = none;
}

-- the columns `created_at` and `updated_at`
abbrev pub timestamp : String → Column
timestamp name = record {
  name = name;
  type = datetime;
  nullable = false;
  server_default = some "(CURRENT_TIMESTAMP)";
}

abbrev pub aliases : Table
aliases = record {
  name = "aliases";
  columns =
      column "id" (integer) false
      ∷ column "mention" (string 128) false
      ∷ column "ticker" (string 16) false
      ∷ column "priority" (integer) false
      ∷ timestamp "created_at"
      ∷ timestamp "updated_at"
      ∷ [];
  constraints =
      primary_key ("id" ∷ []) "pk_aliases"
      ∷ unique_key ("mention" ∷ "ticker" ∷ []) "uq_alias_mention_ticker"
      ∷ [];
}

abbrev pub kill_switch_events : Table
kill_switch_events = record {
  name = "kill_switch_events";
  columns =
      column "id" (integer) false
      ∷ column "activated" (boolean) false
      ∷ column "trigger" (string 32) false
      ∷ column "actor" (string 128) false
      ∷ column "reason" (text) true
      ∷ timestamp "created_at"
      ∷ [];
  constraints =
      check "trigger IN ('manual', 'env_var', 'drawdown', 'budget_llm', 'budget_twitterapi')"
        "ck_kill_switch_events_trigger_valid"
      ∷ primary_key ("id" ∷ []) "pk_kill_switch_events"
      ∷ [];
}

abbrev pub positions : Table
positions = record {
  name = "positions";
  columns =
      column "id" (integer) false
      ∷ column "symbol" (string 16) false
      ∷ column "quantity" (integer) false
      ∷ column "avg_price_usd" (float) false
      ∷ column "realized_pnl_usd" (float) false
      ∷ timestamp "created_at"
      ∷ timestamp "updated_at"
      ∷ [];
  constraints = primary_key ("id" ∷ []) "pk_positions" ∷ [];
}

abbrev pub raw_tweets : Table
raw_tweets = record {
  name = "raw_tweets";
  columns =
      column "id" (integer) false
      ∷ column "tweet_id" (string 64) false
      ∷ column "x_user_id" (string 32) false
      ∷ column "username" (string 64) false
      ∷ column "content" (text) false
      ∷ column "lang" (string 8) true
      ∷ column "raw_json" (json) false
      ∷ column "received_at" (datetime) false
      ∷ timestamp "created_at"
      ∷ [];
  constraints = primary_key ("id" ∷ []) "pk_raw_tweets" ∷ [];
}

abbrev pub risk_limits : Table
risk_limits = record {
  name = "risk_limits";
  columns =
      column "id" (integer) false
      ∷ column "strategy_id" (string 64) false
      ∷ column "version" (integer) false
      ∷ column "active" (boolean) false
      ∷ column "max_position_pct" (float) true
      ∷ column "max_total_exposure_pct" (float) true
      ∷ column "max_trades_per_day" (integer) true
      ∷ column "max_daily_drawdown_pct" (float) true
      ∷ column "allow_after_hours" (boolean) true
      ∷ timestamp "created_at"
      ∷ timestamp "updated_at"
      ∷ [];
  constraints =
      primary_key ("id" ∷ []) "pk_risk_limits"
      ∷ unique_key ("strategy_id" ∷ "version" ∷ []) "uq_risk_limit_strategy_version"
      ∷ [];
}

abbrev pub settings : Table
settings = record {
  name = "settings";
  columns =
      column "id" (integer) false
      ∷ column "trading_mode" (string 16) false
      ∷ column "paper_trading" (boolean) false
      ∷ column "max_capital_usd" (float) false
      ∷ column "max_position_pct" (float) false
      ∷ column "max_total_exposure_pct" (float) false
      ∷ column "max_trades_per_day" (integer) false
      ∷ column "max_daily_drawdown_pct" (float) false
      ∷ column "allow_after_hours" (boolean) false
      ∷ column "llm_max_usd_per_day" (float) false
      ∷ column "twitterapi_io_max_usd" (float) false
      ∷ timestamp "updated_at"
      ∷ [];
  constraints =
      check "trading_mode IN ('paper', 'live')" "ck_settings_trading_mode_valid"
      ∷ check "id = 1" "ck_settings_singleton_row"
      ∷ primary_key ("id" ∷ []) "pk_settings"
      ∷ [];
}

abbrev pub watched_accounts : Table
watched_accounts = record {
  name = "watched_accounts";
  columns =
      column "id" (integer) false
      ∷ column "username" (string 64) false
      ∷ column "x_user_id" (string 32) true
      ∷ column "priority" (integer) false
      ∷ column "active" (boolean) false
      ∷ timestamp "created_at"
      ∷ timestamp "updated_at"
      ∷ [];
  constraints = primary_key ("id" ∷ []) "pk_watched_accounts" ∷ [];
}
