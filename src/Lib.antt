-- ===== src/Lib.antt =====
-- The core of the trading system under backend/: what turns tweets and the signals in them into
-- orders, and what keeps it from trading.
--
-- How the parts work together. The accounts in the database are those that the feed watches
-- (backend/services/watched_accounts_sync.py), and the feed yields their tweets
-- (backend/providers/twitterapi_io.py). The ingestion (backend/services/ingestion.py) stores each
-- tweet, puts its id into a Redis queue and charges a budget (backend/services/twitterapi_budget.py);
-- a budget that is used up trips the kill switch (backend/kill_switch/service.py). The LLM pipeline
-- (backend/services/llm_pipeline.py) has each queued tweet analysed by a provider
-- (backend/providers/openai_compatible.py), records the decision, resolves its mentions
-- (backend/services/aliases.py), stores and queues an event for each ticker, and charges a budget of
-- its own (backend/services/llm_budget.py). The rule pipeline (backend/services/rule_pipeline.py)
-- has each queued event evaluated by the rule engine (backend/rules/engine.py) on the rules that the
-- store has loaded (backend/rules/loader.py, backend/rules/store.py). The order of the rule that
-- matches goes, with a fresh context (backend/execution/context.py), through the executor
-- (backend/execution/executor.py): the kill switch, the gate for live trading, the risk manager
-- (backend/risk/), the broker, the table of orders. What the parts log passes the redactor
-- (backend/core/logging.py).
--
-- The files.
--   Base          lists, texts, dicts, sorting, integers
--   Models        backend/models/enums.py and the rows of backend/models/; the data of
--                 backend/risk/models.py, backend/rules/models.py and backend/providers/base.py; JSON
--   Runtime       floats, texts of numbers, the calendar and digests: a parameter, with the laws of
--                 IEEE 754 and an instance to run the code on; the truth of a JSON value
--   World         the state that the parts share: the environment, the time, Redis, the database,
--                 the orders given to the broker, the tweets given to the LLM provider, the counters
--   Settings      the fields of backend/core/settings.py on the trading mode and the risk manager, and
--                 `is_live_trading`
--   Providers     the protocols of the broker and of the LLM provider (backend/providers/base.py),
--                 parameters. Openai is backend/providers/openai_compatible.py: Parsing is
--                 `_try_parse_decision`, Replies is `_call`, Provider is the client as
--                 a provider, and Retry, Bounds and Escapes are proofs.
--                 Twitterapi is the REST client and Feed the subscription of
--                 backend/providers/twitterapi_io.py, with the proofs Attempts and Backoff. Ib is
--                 backend/providers/ib.py, with the proofs Connection
--   KillSwitch    `KillSwitchService` and `trigger_from_drawdown`; History and Agreement are proofs
--   Risk          Rules and Manager are backend/risk/rules.py, manager.py and factory.py; Admission,
--                 Bounds and Audit are proofs
--   Execution     Context is `build_validation_context`, Executor is `OrderExecutor.submit`, Fills is
--                 `persist_fill`; Gates, Outcome, Recording and Idempotency are proofs, Attempt is a
--                 context and then a submission
--   Rules         Precedence and Engine are `RuleEngine`, Loader is `load_rules_from_dir` and
--                 `RuleStore`; FirstMatch, Totality, Independence, Loading and
--                 Reloading are proofs
--   Services      Budget is the two budget trackers and their triggers, Ingestion is
--                 `run_ingestion`, LlmPipeline is `run_llm_pipeline`, Aliases is `resolve_tickers`,
--                 RulePipeline is `run_rule_pipeline`, Positions is `sync_positions`,
--                 WatchedAccounts is `sync_watched_accounts`, Worker is how a worker's run ends;
--                 Breach, Durability, Ending, Placement, Rounds, Effects, Records, Termination,
--                 Audit, Loss, Founding, Stability, Mirror and Alignment are proofs
--   Logging       the redactor of backend/core/logging.py; Words and Redaction are proofs
--   Api           the handlers of backend/api/kill_switch.py and admin_rules.py, the readiness probe of
--                 health.py and the startup in main.py; Switch is proofs
--   System        the whole program as one machine: Machine has its steps, the runs of the workers,
--                 the requests, the operations of the switch, fills and waits; Changes the elementary
--                 changes of the state that Ingesting, Analyzing, Trading and Switching find in
--                 them; Growth, Soundness and Safety are proofs on all states that it reaches
--   Migrations    alembic/versions: Tables and Revisions are the commands of the two migrations,
--                 Reversal is proofs
--   Journal       the view `trade_journal` of the second migration as a query; Joins, Causes and
--                 Completeness are proofs
--   Seed          scripts/seed.py; Loops and Idempotence are proofs
--   Examples      the theorems at concrete inputs
--
-- State is passed on explicitly: a call is a function of the world that returns or raises and gives
-- the world back, and what was written before a raise stays written, unless a session is left by it,
-- which rolls the database back. Sessions are the world's database: the code flushes after each
-- write and reads its own writes.
--
-- Loops run over the elements of a list (the tweets of a stream, the connections of a subscription,
-- the rules, the files of a directory), over the attempts of a request or a connection, of which the
-- code names the number, or, in the two pipelines, on fuel, of which one round more than the queue
-- has messages is enough; no other definition needs a bound that the code does not have.
-- Numbers are natural or whole, as Python's have no width; floats are a parameter, so no theorem
-- rests on their rounding.
--
-- The servers of the LLM and of twitterapi.io are parameters: a reply is a function of the requests
-- before and of the request; so is what the broker's gateway answers during a call. JSON texts,
-- UTF-8, dates and the patterns of secrets are parameters too. The digest of a rule's inputs is one
-- that can fail, as `json.dumps` does on a mapping whose keys it cannot sort or write.
--
-- A worker's run is one step of the machine of System: runs of two workers do not interleave. A run
-- of the rule pipeline is given its rules, of which a theorem can ask what it needs (`Admits`). A
-- command of a migration is refused where SQLite or PostgreSQL refuses it, and a LEFT JOIN gives the
-- rows that fit or one NULL.
--
-- Not modelled: the check of a foreign key and of the length of a text when a row is written,
-- warnings and metrics but for two counters, a time zone other than UTC, the listing of a directory that fails, a
-- JSON column that refuses a value when a row is written, the YAML parser and pydantic's checks (a
-- file is what they make of it, or unreadable; of the checks on an LLM's decision the one on
-- its confidence is modelled), the calendar of exchanges (a function of the instant), pools of
-- connections, the workers' loops when they wait for messages (`drain` is on), the middleware of
-- HTTP requests (backend/api/middleware.py), alembic/env.py, the mixins of the ORM, and everything
-- that only reads or writes.
pub mod Base
pub mod Models
pub mod Runtime
pub mod World
pub mod Settings
pub mod KillSwitch
pub mod Risk
pub mod Providers
pub mod Execution
pub mod Rules
pub mod Services
pub mod Logging
pub mod Api
pub mod System
pub mod Migrations
pub mod Seed
pub mod Journal
pub mod Examples
