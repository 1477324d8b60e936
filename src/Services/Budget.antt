-- ===== src/Services/Budget.antt =====
-- backend/services/twitterapi_budget.py and backend/services/llm_budget.py: spend counters in Redis,
-- one for each month and one for each day, and the kill switch that a breach trips.
pub mod Breach
use x_social_trader.Base.{
  ℕ, String, str_append, Bool, true, false, Option, none, some, List, put, lookup, if◌then◌else◌,
}
use x_social_trader.Models.{KillSwitchTrigger, budget_llm, budget_twitterapi}
use x_social_trader.Runtime.{Runtime, max_zero}
use x_social_trader.World.{World, Redis, Result, returned, raised, value_error}
use x_social_trader.KillSwitch.{activate}
use x_social_trader.Execution.{or_else}

-- `BudgetStatus`, and `LLMBudgetStatus` with the same fields; `period` is the month or the day.
pub record BudgetStatus (R : Type 0) : Type 0 where
  pub period : String
  pub spend_usd : R
  pub limit_usd : R

abbrev pub LlmBudgetStatus : Type 0 → Type 0
LlmBudgetStatus = BudgetStatus

-- `TwitterApiBudgetTracker`
pub record TwitterApiBudgetTracker (R : Type 0) : Type 0 where
  pub cost : R
  pub limit : R

-- `LLMBudgetTracker`
pub record LlmBudgetTracker (R : Type 0) : Type 0 where
  pub limit : R

-- the part of `_month_key` and of `_day_key` behind the colon
abbrev pub month_text : {R : Type 0} → Runtime R → ℕ → String
month_text py ts =
    str_append (py.padded 4 (py.year ts)) (str_append "-" (py.padded 2 (py.month ts)))

abbrev pub day_text : {R : Type 0} → Runtime R → ℕ → String
day_text py ts = str_append (month_text py ts) (str_append "-" (py.padded 2 (py.day ts)))

module _ {R : Type 0} ⦃py : Runtime R⦄ where
  unfoldable pub over_budget : BudgetStatus R → Bool
  over_budget s = py.le s.limit_usd s.spend_usd

  unfoldable pub remaining_usd : BudgetStatus R → R
  remaining_usd s = max_zero (py.sub s.limit_usd s.spend_usd)

  -- `TwitterApiBudgetTracker.__init__`
  unfoldable pub make_twitterapi_tracker : R → R → Result R (TwitterApiBudgetTracker R)
  make_twitterapi_tracker cost limit =
      if py.lt cost py.zero
      then raised value_error
      else if py.le limit py.zero
      then raised value_error
      else returned (record { cost = cost; limit = limit })

  -- `LLMBudgetTracker.__init__`
  unfoldable pub make_llm_tracker : R → Result R (LlmBudgetTracker R)
  make_llm_tracker limit =
      if py.le limit py.zero then raised value_error else returned (record { limit = limit })

  -- INCRBYFLOAT
  unfoldable pub spent : String → R → World R → R
  spent key cost w = py.incrbyfloat (lookup key w.redis.spend) cost

  unfoldable pub add_spend : String → R → World R → World R
  unfolding spent
  add_spend key cost w =
      let redis : Redis R = w.redis in
      record w { redis = record redis { spend = put key (spent key cost w) w.redis.spend } }

  -- `TwitterApiBudgetTracker.record_tweet`
  unfoldable pub record_tweet : TwitterApiBudgetTracker R → World R → BudgetStatus R × World R
  unfolding add_spend
  record_tweet t w =
      let key = str_append "twitterapi_spend:" (month_text py w.now) in
      (
        record {
          period = month_text py w.now;
          spend_usd = spent key t.cost w;
          limit_usd = t.limit;
        },
        add_spend key t.cost w,
      )

  -- `TwitterApiBudgetTracker.current_status`
  unfoldable pub twitterapi_status : TwitterApiBudgetTracker R → World R → BudgetStatus R
  twitterapi_status t w = record {
    period = month_text py w.now;
    spend_usd =
        or_else (lookup (str_append "twitterapi_spend:" (month_text py w.now)) w.redis.spend)
          py.zero;
    limit_usd = t.limit;
  }

  -- `LLMBudgetTracker.record_call`
  unfoldable pub record_call :
      LlmBudgetTracker R → R → World R → Result R (LlmBudgetStatus R) × World R
  unfolding add_spend
  record_call t cost_usd w =
      let key = str_append "llm_spend:" (day_text py w.now) in
      if py.lt cost_usd py.zero then (raised value_error, w) else (
        returned (record {
          period = day_text py w.now;
          spend_usd = spent key cost_usd w;
          limit_usd = t.limit;
        }),
        add_spend key cost_usd w,
      )

  -- `LLMBudgetTracker.current_status`
  unfoldable pub llm_status : LlmBudgetTracker R → World R → LlmBudgetStatus R
  llm_status t w = record {
    period = day_text py w.now;
    spend_usd =
        or_else (lookup (str_append "llm_spend:" (day_text py w.now)) w.redis.spend) py.zero;
    limit_usd = t.limit;
  }

  breach_reason : String → BudgetStatus R → String → String
  breach_reason what s cap = str_append what (
      str_append (py.fixed4 s.spend_usd) (
        str_append cap
          (str_append (py.fixed2 s.limit_usd) (str_append " USD (" (str_append s.period ")")))))

  -- `trigger_from_budget`
  unfoldable pub trigger_from_budget : BudgetStatus R → World R → Bool × World R
  unfolding breach_reason
  trigger_from_budget s w =
      if over_budget s
      then (
        true,
        (activate budget_twitterapi "twitterapi_budget_tracker"
            (some (breach_reason "twitterapi.io monthly spend " s " USD breached cap ")) w).1,
      )
      else (false, w)

  -- `trigger_from_llm_budget`
  unfoldable pub trigger_from_llm_budget : LlmBudgetStatus R → World R → Bool × World R
  unfolding breach_reason
  trigger_from_llm_budget s w =
      if over_budget s
      then (
        true,
        (activate budget_llm "llm_budget_tracker"
            (some (breach_reason "LLM daily spend " s " USD breached cap ")) w).1,
      )
      else (false, w)
