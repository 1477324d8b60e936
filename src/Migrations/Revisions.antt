-- ===== src/Migrations/Revisions.antt =====
-- `upgrade` and `downgrade` of the two migrations, given whether the dialect is SQLite's.
use x_social_trader.Base.{String, str_append, Bool, true, false, List, [], ◌∷◌, ◌++◌, if◌then◌else◌}
use x_social_trader.Migrations.{
  Command, create, drop_table, drop_index, drop_if_exists, table_object, index_object,
  trigger_object, view_object,
}
use x_social_trader.Migrations.Tables.{
  aliases, kill_switch_events, positions, raw_tweets, risk_limits, settings, watched_accounts,
}
use x_social_trader.Migrations.Tables.Audit.{llm_decisions, events, orders, rule_evaluations, fills}

-- AUDIT_TABLES of backend/models/__init__.py, which the migrations do not use
abbrev pub audit_tables : List String
audit_tables = "llm_decisions" ∷ "rule_evaluations" ∷ "orders" ∷ "fills" ∷ "kill_switch_events" ∷ []

-- the tables of both trigger loops
abbrev pub protected_tables : List String
protected_tables =
    "llm_decisions" ∷ "rule_evaluations" ∷ "orders" ∷ "fills" ∷ "kill_switch_events" ∷ []

-- the body of the loop in `upgrade`: the two triggers of each table
abbrev pub create_triggers : List String → List Command
create_triggers [] = []
create_triggers (t ∷ ts) =
    create (trigger_object (str_append t "_no_update") t "UPDATE")
    ∷ create (trigger_object (str_append t "_no_delete") t "DELETE")
    ∷ create_triggers ts

-- the body of the loop in `downgrade`
abbrev pub drop_triggers : List String → List Command
drop_triggers [] = []
drop_triggers (t ∷ ts) =
    drop_if_exists (str_append t "_no_update")
    ∷ drop_if_exists (str_append t "_no_delete")
    ∷ drop_triggers ts

-- the table `aliases` and its indexes
abbrev pub create_aliases : List Command
create_aliases =
    create (table_object aliases)
    ∷ create (index_object "ix_aliases_mention" "aliases" ("mention" ∷ []) false)
    ∷ create (index_object "ix_aliases_ticker" "aliases" ("ticker" ∷ []) false)
    ∷ []

-- the table `kill_switch_events` and its indexes
abbrev pub create_kill_switch_events : List Command
create_kill_switch_events = create (table_object kill_switch_events) ∷ []

-- the table `positions` and its indexes
abbrev pub create_positions : List Command
create_positions =
    create (table_object positions)
    ∷ create (index_object "ix_positions_symbol" "positions" ("symbol" ∷ []) true)
    ∷ []

-- the table `raw_tweets` and its indexes
abbrev pub create_raw_tweets : List Command
create_raw_tweets =
    create (table_object raw_tweets)
    ∷ create (index_object "ix_raw_tweets_received_at" "raw_tweets" ("received_at" ∷ []) false)
    ∷ create (index_object "ix_raw_tweets_tweet_id" "raw_tweets" ("tweet_id" ∷ []) true)
    ∷ create (index_object "ix_raw_tweets_username" "raw_tweets" ("username" ∷ []) false)
    ∷ create (index_object "ix_raw_tweets_x_user_id" "raw_tweets" ("x_user_id" ∷ []) false)
    ∷ []

-- the table `risk_limits` and its indexes
abbrev pub create_risk_limits : List Command
create_risk_limits =
    create (table_object risk_limits)
    ∷ create (index_object "ix_risk_limits_strategy_id" "risk_limits" ("strategy_id" ∷ []) false)
    ∷ []

-- the table `settings` and its indexes
abbrev pub create_settings : List Command
create_settings = create (table_object settings) ∷ []

-- the table `watched_accounts` and its indexes
abbrev pub create_watched_accounts : List Command
create_watched_accounts =
    create (table_object watched_accounts)
    ∷ create (index_object "ix_watched_accounts_username" "watched_accounts" ("username" ∷ []) true)
    ∷ create
        (index_object "ix_watched_accounts_x_user_id" "watched_accounts" ("x_user_id" ∷ []) false)
    ∷ []

-- the table `llm_decisions` and its indexes
abbrev pub create_llm_decisions : List Command
create_llm_decisions =
    create (table_object llm_decisions)
    ∷ create
        (index_object "ix_llm_decisions_raw_tweet_id" "llm_decisions" ("raw_tweet_id" ∷ []) false)
    ∷ []

-- the table `events` and its indexes
abbrev pub create_events : List Command
create_events =
    create (table_object events)
    ∷ create (index_object "ix_events_event_id" "events" ("event_id" ∷ []) true)
    ∷ create (index_object "ix_events_llm_decision_id" "events" ("llm_decision_id" ∷ []) false)
    ∷ create (index_object "ix_events_raw_tweet_id" "events" ("raw_tweet_id" ∷ []) false)
    ∷ create (index_object "ix_events_ticker" "events" ("ticker" ∷ []) false)
    ∷ []

-- the table `orders` and its indexes
abbrev pub create_orders : List Command
create_orders =
    create (table_object orders)
    ∷ create (index_object "ix_orders_event_id" "orders" ("event_id" ∷ []) false)
    ∷ create (index_object "ix_orders_external_id" "orders" ("external_id" ∷ []) false)
    ∷ create (index_object "ix_orders_idempotency_key" "orders" ("idempotency_key" ∷ []) true)
    ∷ create (index_object "ix_orders_symbol" "orders" ("symbol" ∷ []) false)
    ∷ []

-- the table `rule_evaluations` and its indexes
abbrev pub create_rule_evaluations : List Command
create_rule_evaluations =
    create (table_object rule_evaluations)
    ∷ create
        (index_object "ix_rule_evaluations_event_id" "rule_evaluations" ("event_id" ∷ []) false)
    ∷ create (index_object "ix_rule_evaluations_rule_id" "rule_evaluations" ("rule_id" ∷ []) false)
    ∷ []

-- the table `fills` and its indexes
abbrev pub create_fills : List Command
create_fills =
    create (table_object fills)
    ∷ create (index_object "ix_fills_external_fill_id" "fills" ("external_fill_id" ∷ []) true)
    ∷ create (index_object "ix_fills_filled_at" "fills" ("filled_at" ∷ []) false)
    ∷ create (index_object "ix_fills_order_id" "fills" ("order_id" ∷ []) false)
    ∷ create (index_object "ix_fills_symbol" "fills" ("symbol" ∷ []) false)
    ∷ []

abbrev pub create_tables : List Command
create_tables =
    create_aliases ++ create_kill_switch_events ++ create_positions ++ create_raw_tweets
    ++ create_risk_limits ++ create_settings ++ create_watched_accounts ++ create_llm_decisions
    ++ create_events ++ create_orders ++ create_rule_evaluations ++ create_fills

abbrev pub drop_tables : List Command
drop_tables =
    drop_index "ix_fills_symbol"
    ∷ drop_index "ix_fills_order_id"
    ∷ drop_index "ix_fills_filled_at"
    ∷ drop_index "ix_fills_external_fill_id"
    ∷ drop_table "fills"
    ∷ drop_index "ix_rule_evaluations_rule_id"
    ∷ drop_index "ix_rule_evaluations_event_id"
    ∷ drop_table "rule_evaluations"
    ∷ drop_index "ix_orders_symbol"
    ∷ drop_index "ix_orders_idempotency_key"
    ∷ drop_index "ix_orders_external_id"
    ∷ drop_index "ix_orders_event_id"
    ∷ drop_table "orders"
    ∷ drop_index "ix_events_ticker"
    ∷ drop_index "ix_events_raw_tweet_id"
    ∷ drop_index "ix_events_llm_decision_id"
    ∷ drop_index "ix_events_event_id"
    ∷ drop_table "events"
    ∷ drop_index "ix_llm_decisions_raw_tweet_id"
    ∷ drop_table "llm_decisions"
    ∷ drop_index "ix_watched_accounts_x_user_id"
    ∷ drop_index "ix_watched_accounts_username"
    ∷ drop_table "watched_accounts"
    ∷ drop_table "settings"
    ∷ drop_index "ix_risk_limits_strategy_id"
    ∷ drop_table "risk_limits"
    ∷ drop_index "ix_raw_tweets_x_user_id"
    ∷ drop_index "ix_raw_tweets_username"
    ∷ drop_index "ix_raw_tweets_tweet_id"
    ∷ drop_index "ix_raw_tweets_received_at"
    ∷ drop_table "raw_tweets"
    ∷ drop_index "ix_positions_symbol"
    ∷ drop_table "positions"
    ∷ drop_table "kill_switch_events"
    ∷ drop_index "ix_aliases_ticker"
    ∷ drop_index "ix_aliases_mention"
    ∷ drop_table "aliases"
    ∷ []

abbrev pub initial_upgrade : Bool → List Command
initial_upgrade sqlite = create_tables ++ (if sqlite then create_triggers protected_tables else [])

abbrev pub initial_downgrade : Bool → List Command
initial_downgrade sqlite = (if sqlite then drop_triggers protected_tables else []) ++ drop_tables

-- 20260426_0900_trade_journal_view.py, with the tables that the view reads
abbrev pub journal_upgrade : List Command
journal_upgrade =
    create (
      view_object "trade_journal"
        ("events" ∷ "raw_tweets" ∷ "llm_decisions" ∷ "orders" ∷ "fills" ∷ []))
    ∷ []

abbrev pub journal_downgrade : List Command
journal_downgrade = drop_if_exists "trade_journal" ∷ []

-- `alembic upgrade head` on a database without a revision, and `alembic downgrade base`
abbrev pub upgrade_head : Bool → List Command
upgrade_head sqlite = initial_upgrade sqlite ++ journal_upgrade

abbrev pub downgrade_base : Bool → List Command
downgrade_base sqlite = journal_downgrade ++ initial_downgrade sqlite
