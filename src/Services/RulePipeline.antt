-- ===== src/Services/RulePipeline.antt =====
-- backend/services/rule_pipeline.py, with `drain=True`. The store's rules and the executor's parts
-- are parameters; a session that is left by an error is rolled back.
pub mod Rounds
pub mod Placement
pub mod Termination
use x_social_trader.Base.{
  ℕ, zero, suc, String, str_append, str_eq, Bool, true, false, Option, none, some, List, [], ◌∷◌,
  if◌then◌else◌,
}
use x_social_trader.Models.{Event, RuleEvaluation, RuleSpec, ProposedOrder, engine_inputs}
use x_social_trader.Runtime.{Runtime}
use x_social_trader.Settings.{Settings}
use x_social_trader.World.{
  World, Redis, Db, Error, Result, returned, raised, Action, kill_switch_active,
  live_mode_not_permitted, submission_rejected, in_session,
}
use x_social_trader.Providers.{BrokerProvider}
use x_social_trader.KillSwitch.{is_active, KillSwitchState}
use x_social_trader.Risk.{add_evaluation}
use x_social_trader.Services.Worker.{Ending, finished, crashed, out_of_fuel}
use x_social_trader.Execution.{SubmissionResult}
use x_social_trader.Execution.Attempt.{attempt}
use x_social_trader.Rules.{RuleEvaluationRecord, RuleEngineOutcome, evaluate}

pub record RulePipelineReport : Type 0 where
  pub evaluated : ℕ
  pub matched : ℕ
  pub submitted : ℕ
  pub rejected : ℕ
  pub stopped_reason : Option String

-- What became of an event whose evaluation was committed.
pub data Progress : Type 0 where
  no_match order_submitted order_rejected : Progress

-- the counters after an event
abbrev pub counted : Progress → RulePipelineReport → RulePipelineReport
counted no_match t = record t { evaluated = suc t.evaluated }
counted order_submitted t = record t {
  evaluated = suc t.evaluated;
  matched = suc t.matched;
  submitted = suc t.submitted;
}
counted order_rejected t = record t {
  evaluated = suc t.evaluated;
  matched = suc t.matched;
  rejected = suc t.rejected;
}

abbrev pub stopped : Option String → RulePipelineReport → RulePipelineReport
stopped reason t = record t { stopped_reason = reason }

module _ {R : Type 0} where
  -- a row of `_persist_evaluations`
  abbrev pub evaluation_row : String → RuleEvaluationRecord R → RuleEvaluation R
  evaluation_row event_id r = record {
    event_id = event_id;
    rule_id = r.rule_id;
    rule_priority = r.rule_priority;
    inputs_hash = r.inputs_hash;
    inputs_json = engine_inputs r.inputs;
    outcome = r.outcome;
    proposed_order_json = r.proposed_order;
  }

  -- `except SubmissionRejected`, and its two subclasses
  abbrev pub is_rejection : Error R → Bool
  is_rejection (kill_switch_active source) = true
  is_rejection live_mode_not_permitted = true
  is_rejection (submission_rejected reasons v) = true
  is_rejection _ = false

  -- `outcome.matched.proposed_order`, if neither is None
  abbrev pub proposal : RuleEngineOutcome R → Option (ProposedOrder R)
  proposal outcome = elim outcome.matched [ none ↦ none | some r ↦ r.proposed_order ]

  -- the event with that id (UNIQUE)
  abbrev pub find_event : String → List (Event R) → Option (Event R)
  find_event k [] = none
  find_event k (e ∷ es) = if str_eq k e.event_id then some e else find_event k es

  -- LPOP of a queue that is not empty
  abbrev pub popped : List String → World R → World R
  popped queue w =
      let redis : Redis R = w.redis in record w { redis = record redis { events = queue } }

module _ {R : Type 0} ⦃py : Runtime R⦄ where
  -- `_persist_evaluations`
  unfoldable pub persist_evaluations : String → List (RuleEvaluationRecord R) → World R → World R
  persist_evaluations event_id [] w = w
  persist_evaluations event_id (r ∷ rs) w =
      persist_evaluations event_id rs (add_evaluation (evaluation_row event_id r) w)

module _ {R : Type 0} ⦃py : Runtime R⦄ (broker : BrokerProvider R) (settings : Settings R)
    (is_open_at : ℕ → Bool) (rules : List (RuleSpec R)) where
  -- the submission and its handler
  unfoldable pub try_submit : ProposedOrder R → Action R Progress
  try_submit p w =
      let (r, w') = attempt broker settings is_open_at p w in
      elim r [
        | returned s ↦ (returned order_submitted, w')
        | raised e ↦ (if is_rejection e then returned order_rejected else raised e, w')
      ]

  -- the body of the session for an event that was found
  unfoldable pub handle : Event R → Action R Progress
  handle row w = elim (evaluate rules row) [
    | raised e ↦ (raised e, w)
    | returned outcome ↦
        let w' = persist_evaluations row.event_id outcome.evaluations w in
        elim (proposal outcome) [ none ↦ (returned no_match, w') | some p ↦ try_submit p w' ]
  ]

  -- The loop, with fuel for its rounds.
  unfoldable pub drain_from :
      ℕ → RulePipelineReport → World R → Ending R RulePipelineReport × World R
  drain_from zero t w = (out_of_fuel, w)
  drain_from (suc n) t w = elim (is_active w).active [
    | true ↦
        (finished (stopped (some (str_append "kill_switch_active:" (is_active w).source)) t), w)
    | false ↦ elim w.redis.events [
      | [] ↦ (finished t, w)
      | event_id ∷ queue ↦ elim (find_event event_id w.db.events) [
        | none ↦ drain_from n t (popped queue w)
        | some row ↦ elim (in_session (handle row) (popped queue w)).0 [
          | returned p ↦ drain_from n (counted p t) (in_session (handle row) (popped queue w)).1
          | raised e ↦ (crashed e, (in_session (handle row) (popped queue w)).1)
        ]
      ]
    ]
  ]

  -- `run_rule_pipeline(..., drain=True)`
  unfoldable pub run_rule_pipeline : ℕ → World R → Ending R RulePipelineReport × World R
  run_rule_pipeline fuel w =
      drain_from fuel
        (record { evaluated = 0; matched = 0; submitted = 0; rejected = 0; stopped_reason = none })
        w
