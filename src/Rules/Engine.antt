-- ===== src/Rules/Engine.antt =====
-- backend/rules/engine.py
use x_social_trader.Base.{
  String, str_eq, Bool, true, false, not, ◌&&◌, ◌||◌, Option, none, some, List, [], ◌∷◌, ℤ, pos,
  is_some, if◌then◌else◌,
}
use x_social_trader.Models.{
  Scalar, null, other, bool, int, float, text, Value, scalar, items, ConditionField, intent, ticker,
  confidence, time_horizon, ConditionOp, eq, neq, gt, gte, lt, lte, mem, ConditionSpec, RuleSpec,
  Event, EngineInputs, RuleOutcome, matched, skipped, failed, ProposedOrder,
}
use x_social_trader.Runtime.{Runtime}
use x_social_trader.World.{Result, returned, raised, Error, type_error, value_error, overflow_error}
use x_social_trader.Rules.Precedence.{sort_rules}

-- A field of an event: a text or a float.
pub data FieldValue (R : Type 0) : Type 0 where
  text_field : String → FieldValue R
  float_field : R → FieldValue R

-- `getattr(event, name)`
abbrev pub event_field : {R : Type 0} → Event R → ConditionField → FieldValue R
event_field e intent = text_field e.intent
event_field e ticker = text_field e.ticker
event_field e confidence = float_field e.confidence
event_field e time_horizon = text_field e.time_horizon

-- `True` and `False` as integers
abbrev pub of_bool : Bool → ℤ
of_bool true = pos 1
of_bool false = pos 0

-- A result is used by the code that follows, or the error goes on.
abbrev pub then_use {ℓ κ} :
    {R : Type 0} {A : Type ℓ} {B : Type κ} → Result R A → (A → Result R B) → Result R B
then_use (returned a) f = f a
then_use (raised e) f = raised e

abbrev pub or_raise {ℓ} : {R : Type 0} {A : Type ℓ} → Option A → Error R → Result R A
or_raise none e = raised e
or_raise (some a) e = returned a

module _ {R : Type 0} ⦃py : Runtime R⦄ where
  -- `actual == val` for a scalar
  unfoldable pub equals_scalar : FieldValue R → Scalar R → Bool
  equals_scalar (text_field s) (text t) = str_eq s t
  equals_scalar (text_field s) _ = false
  equals_scalar (float_field x) (float y) = py.eq x y
  equals_scalar (float_field x) (int n) = py.eq_int x n
  equals_scalar (float_field x) (bool b) = py.eq_int x (of_bool b)
  equals_scalar (float_field x) _ = false

  -- `actual == val`: no text or float equals a list
  unfoldable pub equals : FieldValue R → Value R → Bool
  unfolding equals_scalar
  equals a (scalar s) = equals_scalar a s
  equals a (items vs) = false

  -- `actual in val` for a list
  unfoldable pub is_in : FieldValue R → List (Scalar R) → Bool
  unfolding equals_scalar
  is_in a [] = false
  is_in a (v ∷ vs) = equals_scalar a v || is_in a vs

  -- `float(actual)`
  unfoldable pub field_to_float : FieldValue R → Result R R
  field_to_float (text_field s) = or_raise (py.of_text s) value_error
  field_to_float (float_field x) = returned x

  -- `float(val)`
  unfoldable pub value_to_float : Value R → Result R R
  value_to_float (scalar null) = raised type_error
  value_to_float (scalar other) = raised type_error
  value_to_float (scalar (bool b)) = or_raise (py.of_int (of_bool b)) overflow_error
  value_to_float (scalar (int n)) = or_raise (py.of_int n) overflow_error
  value_to_float (scalar (float x)) = returned x
  value_to_float (scalar (text s)) = or_raise (py.of_text s) value_error
  value_to_float (items vs) = raised type_error

  -- `float(actual) < float(val)` and the like
  unfoldable pub compare_floats : (R → R → Bool) → FieldValue R → Value R → Result R Bool
  unfolding field_to_float value_to_float
  compare_floats test a v =
      then_use (field_to_float a) λ x. then_use (value_to_float v) λ y. returned (test x y)

  -- `_check`
  unfoldable pub check_value : ConditionOp → FieldValue R → Value R → Result R Bool
  unfolding equals is_in compare_floats
  check_value eq a v = returned (equals a v)
  check_value neq a v = returned (not (equals a v))
  check_value gt a v = compare_floats (λ x y. py.lt y x) a v
  check_value gte a v = compare_floats (λ x y. py.le y x) a v
  check_value lt a v = compare_floats py.lt a v
  check_value lte a v = compare_floats py.le a v
  check_value mem a (items vs) = returned (is_in a vs)
  check_value mem a (scalar s) = raised type_error

  abbrev pub check_condition : ConditionSpec R → Event R → Result R Bool
  check_condition c e = check_value c.op (event_field e c.field) c.value

  -- `all(_check(c, event) for c in rule.conditions)`: the first false or raising condition ends it.
  unfoldable pub conditions_met : List (ConditionSpec R) → Event R → Result R Bool
  conditions_met [] e = returned true
  conditions_met (c ∷ cs) e =
      let rest = conditions_met cs e in
      then_use (check_condition c e) λ b. if b then rest else returned false

-- `RuleEvaluationRecord` and `RuleEngineOutcome`
pub record RuleEvaluationRecord (R : Type 0) : Type 0 where
  pub rule_id : String
  pub rule_priority : ℤ
  pub inputs : EngineInputs R
  pub inputs_hash : String
  pub outcome : RuleOutcome
  pub proposed_order : Option (ProposedOrder R)

pub record RuleEngineOutcome (R : Type 0) : Type 0 where
  pub matched : Option (RuleEvaluationRecord R)
  pub evaluations : List (RuleEvaluationRecord R)

abbrev pub build_proposed_order : {R : Type 0} → RuleSpec R → Event R → ProposedOrder R
build_proposed_order rule event = record {
  event_id = event.event_id;
  strategy_id = rule.action.strategy_id;
  trading_mode = rule.action.trading_mode;
  side = rule.action.side;
  order_type = rule.action.order_type;
  symbol = event.ticker;
  quantity = rule.action.quantity;
  limit_price = rule.action.limit_price;
  reference_price_usd = rule.action.reference_price_usd;
}

-- `except (TypeError, ValueError)`
abbrev pub caught : {R : Type 0} → Error R → Bool
caught type_error = true
caught value_error = true
caught _ = false

module _ {R : Type 0} ⦃py : Runtime R⦄ where
  abbrev pub engine_inputs_of : RuleSpec R → Event R → EngineInputs R
  engine_inputs_of rule event = record {
    intent = event.intent;
    ticker = event.ticker;
    confidence = event.confidence;
    time_horizon = event.time_horizon;
    rule_conditions = rule.conditions;
    rule_enabled = rule.enabled;
  }

  -- `_hash_inputs`, which the loop calls outside its `try`
  unfoldable pub hash_inputs : EngineInputs R → Result R String
  hash_inputs inputs = or_raise (py.engine_digest inputs) type_error

  -- The record of one rule with its hash and outcome; only a match carries an order.
  unfoldable pub record_of : RuleSpec R → Event R → String → RuleOutcome → RuleEvaluationRecord R
  record_of rule event inputs_hash outcome = record {
    rule_id = rule.id;
    rule_priority = rule.priority;
    inputs = engine_inputs_of rule event;
    inputs_hash = inputs_hash;
    outcome = outcome;
    proposed_order = elim outcome [ matched ↦ some (build_proposed_order rule event) | _ ↦ none ];
  }

  -- The outcome of one rule, given whether a rule before it has matched.
  unfoldable pub judge : RuleSpec R → Event R → Bool → Result R RuleOutcome
  judge rule event has_match =
      if not rule.enabled then returned skipped else elim (conditions_met rule.conditions event) [
        | raised e ↦ if caught e then returned failed else raised e
        | returned met ↦ returned (if not has_match && met then matched else skipped)
      ]

  -- `matched` after a rule with this outcome
  abbrev pub match_after :
      RuleSpec R
      → Event R
      → String
      → RuleOutcome
      → Option (RuleEvaluationRecord R)
      → Option (RuleEvaluationRecord R)
  match_after rule event inputs_hash matched m = some (record_of rule event inputs_hash matched)
  match_after rule event inputs_hash _ m = m

  -- The loop of `evaluate`, from the value of `matched` on.
  unfoldable pub evaluate_from :
      List (RuleSpec R) → Event R → Option (RuleEvaluationRecord R) → Result R (RuleEngineOutcome R)
  unfolding hash_inputs
  evaluate_from [] event m = returned (record { matched = m; evaluations = [] })
  evaluate_from (rule ∷ rules) event m =
      then_use (hash_inputs (engine_inputs_of rule event)) λ inputs_hash.
        then_use (judge rule event (is_some m)) λ outcome.
          then_use (evaluate_from rules event (match_after rule event inputs_hash outcome m)) λ out.
            returned (record {
              matched = out.matched;
              evaluations = record_of rule event inputs_hash outcome ∷ out.evaluations;
            })

  -- `RuleEngine(rules).evaluate(event)`
  unfoldable pub evaluate : List (RuleSpec R) → Event R → Result R (RuleEngineOutcome R)
  evaluate rules event = evaluate_from (sort_rules rules) event none
