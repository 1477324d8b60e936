-- ===== src/Rules/Totality.antt =====
-- When `evaluate` returns, and what escapes it.
use x_social_trader.Base.{
  ◌≡◌, ◌≢◌, ◌↔◌, String, Option-cases, All-unsorted, inl, inr, refl, Bool, true, false, Option,
  none, some, List, [], ◌∷◌, is_some, arith, All, All-sorted, ℤ, if◌then◌else◌,
}
use x_social_trader.Models.{
  RuleSpec, ConditionSpec, Event, Value, scalar, items, null, other, bool, int, float, text,
  ConditionOp, eq, neq, gt, gte, lt, lte, mem, confidence, RuleOutcome,
}
use x_social_trader.Runtime.{Runtime}
use x_social_trader.World.{
  Result, Result-cases, returned, raised, Error, value_error, overflow_error,
}
use x_social_trader.Rules.Precedence.{sort_rules, precedes-IsOrder, precedes}
use x_social_trader.Rules.Engine.{
  FieldValue, text_field, float_field, of_bool, event_field, RuleEngineOutcome,
  RuleEvaluationRecord, conditions_met, engine_inputs_of, hash_inputs, judge, caught, record_of,
  evaluate_from, evaluate, match_after, then_use, or_raise, check_value, check_condition,
  compare_floats, field_to_float, value_to_float,
}

has_some : (o : Option String) → o ≢ none → (s : String) × (o ≡ some s)
has_some none h = absurd (h refl)
has_some (some s) h = (s, refl)

module _ {R : Type 0} ⦃py : Runtime R⦄ where
  -- An integer or a boolean in the value is in the range of the floats.
  abbrev pub IsConvertible : Value R → Type 0
  IsConvertible (scalar (int n)) = py.of_int n ≢ none
  IsConvertible (scalar (bool b)) = py.of_int (of_bool b) ≢ none
  IsConvertible _ = Unit

  abbrev pub AreConvertible : RuleSpec R → Type 0
  AreConvertible r = All (λ (c : ConditionSpec R). IsConvertible c.value) r.conditions

  -- `json.dumps` takes the inputs of the rule.
  abbrev pub HasDigest : Event R → RuleSpec R → Type 0
  HasDigest event r = py.engine_digest (engine_inputs_of r event) ≢ none

  -- The call returns, or raises an error that `evaluate` catches.
  abbrev IsHandled {ℓ} : {A : Type ℓ} → Result R A → Type 0
  IsHandled (returned a) = Unit
  IsHandled (raised e) = caught e ≡ true

  IsHandled-caught {ℓ} :
      {A : Type ℓ} (r : Result R A) → IsHandled r → (e : Error R) → r ≡ raised e → caught e ≡ true
  IsHandled-caught (returned a) h e k = absurd (cc k)
  IsHandled-caught (raised x) h e k = ground (arith, h, k)

  or_overflow-IsHandled : (o : Option R) → o ≢ none → IsHandled (or_raise o overflow_error)
  or_overflow-IsHandled none h = absurd (h refl)
  or_overflow-IsHandled (some x) h = tt

  or_value-IsHandled : (o : Option R) → IsHandled (or_raise o value_error)
  or_value-IsHandled none = refl
  or_value-IsHandled (some x) = tt

  value_to_float-IsHandled : (v : Value R) → IsConvertible v → IsHandled (value_to_float v)
  unfolding value_to_float
  value_to_float-IsHandled (scalar null) h = refl
  value_to_float-IsHandled (scalar other) h = refl
  value_to_float-IsHandled (scalar (bool b)) h = or_overflow-IsHandled (py.of_int (of_bool b)) h
  value_to_float-IsHandled (scalar (int n)) h = or_overflow-IsHandled (py.of_int n) h
  value_to_float-IsHandled (scalar (float x)) h = tt
  value_to_float-IsHandled (scalar (text s)) h = or_value-IsHandled (py.of_text s)
  value_to_float-IsHandled (items vs) h = refl

  field_to_float-IsHandled : (a : FieldValue R) → IsHandled (field_to_float a)
  unfolding field_to_float
  field_to_float-IsHandled (text_field s) = or_value-IsHandled (py.of_text s)
  field_to_float-IsHandled (float_field x) = tt

  then_use-IsHandled {ℓ κ} :
      {A : Type ℓ} {B : Type κ} (r : Result R A) (f : A → Result R B)
      → IsHandled r
      → ((a : A) → IsHandled (f a))
      → IsHandled (then_use r f)
  then_use-IsHandled (returned a) f h k = k a
  then_use-IsHandled (raised e) f h k = h

  compare_floats-IsHandled :
      (test : R → R → Bool) (a : FieldValue R) (v : Value R)
      → IsConvertible v
      → IsHandled (compare_floats test a v)
  unfolding compare_floats
  compare_floats-IsHandled test a v h =
      then_use-IsHandled (field_to_float a) _ (field_to_float-IsHandled a)
        (λ x. then_use-IsHandled (value_to_float v) _ (value_to_float-IsHandled v h) (λ y. tt))

  check_value-IsHandled :
      (op : ConditionOp) (a : FieldValue R) (v : Value R)
      → IsConvertible v
      → IsHandled (check_value op a v)
  unfolding check_value
  check_value-IsHandled eq a v h = tt
  check_value-IsHandled neq a v h = tt
  check_value-IsHandled gt a v h = compare_floats-IsHandled _ a v h
  check_value-IsHandled gte a v h = compare_floats-IsHandled _ a v h
  check_value-IsHandled lt a v h = compare_floats-IsHandled _ a v h
  check_value-IsHandled lte a v h = compare_floats-IsHandled _ a v h
  check_value-IsHandled mem a (items vs) h = tt
  check_value-IsHandled mem a (scalar s) h = refl

  rest-IsHandled :
      (b : Bool) (r : Result R Bool) → IsHandled r → IsHandled (if b then r else returned false)
  rest-IsHandled true r h = h
  rest-IsHandled false r h = tt

  conditions_met-IsHandled :
      (cs : List (ConditionSpec R)) (event : Event R)
      → All (λ (c : ConditionSpec R). IsConvertible c.value) cs
      → IsHandled (conditions_met cs event)
  unfolding conditions_met
  conditions_met-IsHandled [] event h = tt
  conditions_met-IsHandled (c ∷ cs) event h =
      then_use-IsHandled (check_condition c event) _
        (check_value-IsHandled c.op (event_field event c.field) c.value h.0)
        (λ b. rest-IsHandled b (conditions_met cs event) (conditions_met-IsHandled cs event h.1))

  judge_total :
      (r : RuleSpec R) (event : Event R) (has : Bool)
      → IsHandled (conditions_met r.conditions event)
      → (o : RuleOutcome) × (judge r event has ≡ returned o)
  unfolding judge
  judge_total r event has h = elim (Result-cases (judge r event has)) [
    | inl (o, e) ↦ (o, e)
    | inr (x, e) ↦ absurd (elim (Result-cases (conditions_met r.conditions event)) [
      | inl (b, f) ↦ ground (arith, e, f)
      | inr (y, f) ↦
          ground (arith, e, f, IsHandled-caught (conditions_met r.conditions event) h y f)
    ])
  ]

  evaluate_from_total :
      (rs : List (RuleSpec R)) (event : Event R) (m : Option (RuleEvaluationRecord R))
      → All AreConvertible rs
      → All (HasDigest event) rs
      → (out : RuleEngineOutcome R) × (evaluate_from rs event m ≡ returned out)
  unfolding evaluate_from hash_inputs
  evaluate_from_total [] event m h d = (record { matched = m; evaluations = [] }, refl)
  evaluate_from_total (r ∷ rs) event m h d =
      let (hash, hashed) = has_some (py.engine_digest (engine_inputs_of r event)) d.0 in
      let (o, judged) =
        judge_total r event (is_some m) (conditions_met-IsHandled r.conditions event h.0) in
      let (rest, more) = evaluate_from_total rs event (match_after r event hash o m) h.1 d.1 in
      (
        record {
          matched = rest.matched;
          evaluations = record_of r event hash o ∷ rest.evaluations;
        },
        ground (arith, hashed, judged, more),
      )

  -- What is evaluated to the end has a digest of the inputs of every rule.
  evaluate_from-HasDigest :
      (rs : List (RuleSpec R)) (event : Event R) (m : Option (RuleEvaluationRecord R))
      (out : RuleEngineOutcome R)
      → evaluate_from rs event m ≡ returned out
      → All (HasDigest event) rs
  unfolding evaluate_from hash_inputs
  evaluate_from-HasDigest [] event m out h = tt
  evaluate_from-HasDigest (r ∷ rs) event m out h =
      elim (Option-cases (py.engine_digest (engine_inputs_of r event))) [
        | inl e ↦ absurd (ground (arith, h, e))
        | inr (hash, e) ↦ elim (Result-cases (judge r event (is_some m))) [
          | inr (x, f) ↦ absurd (ground (arith, h, e, f))
          | inl (o, f) ↦
              elim (Result-cases (evaluate_from rs event (match_after r event hash o m))) [
                | inr (x, g) ↦ absurd (ground (arith, h, e, f, g))
                | inl (rest, g) ↦ (
                  λ n. absurd (cc (e, n)),
                  evaluate_from-HasDigest rs event (match_after r event hash o m) rest g,
                )
              ]
        ]
      ]

  -- Let the integers and booleans among the values of all conditions be in the range of the floats.
  -- Then `evaluate` returns for an event exactly if the inputs of every rule, an enabled one or not,
  -- can be dumped as JSON, whatever else the conditions hold and however their types mismatch.
  pub evaluate_total :
      (rules : List (RuleSpec R)) (event : Event R)
      → All AreConvertible rules
      → ((out : RuleEngineOutcome R) × (evaluate rules event ≡ returned out))
        ↔ All (HasDigest event) rules
  unfolding evaluate sort_rules
  evaluate_total rules event h = (
    λ returns.
        All-unsorted precedes precedes-IsOrder (HasDigest event) rules
          (evaluate_from-HasDigest (sort_rules rules) event none returns.0 returns.1),
    λ d.
        evaluate_from_total (sort_rules rules) event none
          (All-sorted precedes precedes-IsOrder AreConvertible rules h)
          (All-sorted precedes precedes-IsOrder (HasDigest event) rules d),
  )

  -- If the inputs of the first rule in the order of precedence can be dumped, it is enabled, and its
  -- first condition compares the confidence of the event with an integer that is out of the range of
  -- the floats, then the error escapes `evaluate`: there is no record of any rule.
  overflow_escapes :
      (rules rs : List (RuleSpec R)) (r : RuleSpec R) (cs : List (ConditionSpec R))
      (event : Event R) (n : ℤ) (hash : String)
      → py.engine_digest (engine_inputs_of r event) ≡ some hash
      → sort_rules rules ≡ r ∷ rs
      → r.enabled ≡ true
      → r.conditions ≡ record { field = confidence; op = gte; value = scalar (int n) } ∷ cs
      → py.of_int n ≡ none
      → evaluate rules event ≡ raised overflow_error
  unfolding evaluate evaluate_from hash_inputs judge conditions_met check_value compare_floats
  overflow_escapes rules rs r cs event n hash d h k c o = ground (arith, d, h, k, c, o)
