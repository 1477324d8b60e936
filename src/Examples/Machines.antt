-- ===== src/Examples/Machines.antt =====
-- The theorems on the whole machine at a day of it: tweets come in, are analysed, an order is
-- placed, and the operator stops the system.
use mathlib.Core.List.{Mem}
use x_social_trader.Base.{◌≡◌, ◌<◌, ◌||◌, refl, true, none, some, any, All, Distinct, arith}
use x_social_trader.Models.{RuleSpec, Order}
use x_social_trader.Runtime.Sample.{Sample, sample}
use x_social_trader.World.{World}
use x_social_trader.KillSwitch.{is_active, env_on, db_active, redis_flag, latest_db_event}
use x_social_trader.Execution.{limit_price_fits}
use x_social_trader.Execution.Attempt.{order_events}
use x_social_trader.Execution.Idempotency.{placed_events}
use x_social_trader.Services.Ingestion.{run_ingestion}
use x_social_trader.Services.LlmPipeline.{run_llm_pipeline}
use x_social_trader.Services.RulePipeline.{run_rule_pipeline}
use x_social_trader.Api.{activate_request, handle}
use x_social_trader.System.Growth.{Grows}
use x_social_trader.System.Soundness.{IsSound, IsTraced}
use x_social_trader.System.Machine.{Reach, start, step, ingest, analyze, trade, request}
use x_social_trader.System.Safety.{Reach-Grows, Reach-IsSound, active-Reach, placed_once-Reach}
use x_social_trader.Journal.{trade_journal}
use x_social_trader.Journal.Causes.{IsExplained}
use x_social_trader.Journal.Completeness.{shows, trade_journal_complete}
use x_social_trader.Examples.{quiet, some_broker, some_settings, never_open}
use x_social_trader.Examples.Signals.{rules}
use x_social_trader.Examples.Streams.{tweets, small_budget}
use x_social_trader.Examples.Analyses.{steady, large_budget}
use x_social_trader.Examples.Orders.{accepts_all, quiet-IsSynced}

-- The rules that the table `orders` can record.
abbrev Recordable : RuleSpec Sample → Type 0
Recordable r =
    (0 < r.action.quantity) × (limit_price_fits r.action.order_type r.action.limit_price ≡ true)

abbrev ingested : World Sample
ingested = (run_ingestion small_budget tweets quiet).1

abbrev analysed : World Sample
analysed = (run_llm_pipeline steady large_budget 3 ingested).1

abbrev traded : World Sample
traded = (run_rule_pipeline some_broker some_settings never_open rules 3 analysed).1

abbrev halted : World Sample
halted = (handle (activate_request (some "operator") none) traded).1

rules-Recordable : All Recordable rules
rules-Recordable = ((omega arith, refl), ((omega arith, refl), tt))

a_day : Reach some_broker some_settings never_open Recordable quiet halted
a_day =
    step
      (step
        (step (step start (ingest small_budget tweets refl)) (analyze steady large_budget 3 refl))
        (trade rules 3 rules-Recordable refl))
      (request (activate_request (some "operator") none) refl)

Reach-Grows_example : Grows quiet.db halted.db
Reach-Grows_example = Reach-Grows some_broker some_settings never_open Recordable a_day

quiet-IsSound : IsSound quiet.db
quiet-IsSound = record {
  distinct_tweets = tt;
  distinct_events = tt;
  traced = record { decisions = tt; tweets = tt; causes = tt; orders = tt };
}

Reach-IsSound_example : IsSound halted.db
Reach-IsSound_example =
    Reach-IsSound some_broker some_settings never_open Recordable a_day quiet-IsSound

day-IsTraced : IsTraced halted.db
day-IsTraced =
    (Reach-IsSound some_broker some_settings never_open Recordable a_day quiet-IsSound).traced

trade_journal_complete_example :
    All (IsExplained halted.db) (trade_journal halted.db)
    × ((o : Order Sample) → Mem o halted.db.orders → any (shows o) (trade_journal halted.db) ≡ true)
trade_journal_complete_example = trade_journal_complete halted.db day-IsTraced

active-Reach_example :
    (is_active halted).active ≡ (env_on halted.env || db_active halted.db.kill_switch_events)
unfolding db_active redis_flag latest_db_event
active-Reach_example = active-Reach some_broker some_settings never_open Recordable a_day (λ h. h)

placed_once-Reach_example :
    Distinct (placed_events halted.placed)
    × (placed_events halted.placed ≡ order_events halted.db.orders)
placed_once-Reach_example =
    placed_once-Reach some_broker some_settings never_open Recordable accepts_all (λ r h. h) a_day
      quiet-IsSynced
