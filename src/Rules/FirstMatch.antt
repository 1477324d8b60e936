-- ===== src/Rules/FirstMatch.antt =====
-- "First match wins": what `evaluate` returns, against a description that looks for the first rule
-- that holds.
use mathlib.Core.Option
use x_social_trader.Base.{
  String, subst, refl, ◌≡◌, inl, inr, ap, ◌∙◌, Bool, true, false, ◌&&◌, Option, none, some, List,
  [], ◌∷◌, map, is_some, arith, if◌then◌else◌,
}
use x_social_trader.Models.{RuleSpec, Event, RuleOutcome, matched}
use x_social_trader.Runtime.{Runtime}
use x_social_trader.World.{Result-cases, returned, raised}
use x_social_trader.Rules.Precedence.{sort_rules}
use x_social_trader.Rules.Engine.{
  RuleEngineOutcome, RuleEvaluationRecord, conditions_met, engine_inputs_of, hash_inputs, judge,
  record_of, evaluate_from, evaluate, match_after,
}

abbrev pub to_list {ℓ} : {A : Type ℓ} → Option A → List A
to_list none = []
to_list (some a) = a ∷ []

module _ {R : Type 0} ⦃py : Runtime R⦄ where
  -- The rule is enabled, and its conditions hold without an error.
  abbrev pub holds : RuleSpec R → Event R → Bool
  holds rule event =
      rule.enabled
      && (elim (conditions_met rule.conditions event) [ returned b ↦ b | raised e ↦ false ])

  abbrev pub first_match : List (RuleSpec R) → Event R → Option (RuleSpec R)
  first_match [] event = none
  first_match (r ∷ rs) event = if holds r event then some r else first_match rs event

  -- The hash of the inputs of a rule, where they have one.
  abbrev pub hash_of : RuleSpec R → Event R → String
  hash_of r event = elim (hash_inputs (engine_inputs_of r event)) [ returned h ↦ h | raised e ↦ "" ]

  -- The matched record that a rule gives.
  abbrev pub match_record : Event R → RuleSpec R → RuleEvaluationRecord R
  match_record event r = record_of r event (hash_of r event) matched

  abbrev or_first :
      Event R
      → Option (RuleEvaluationRecord R)
      → Option (RuleSpec R)
      → Option (RuleEvaluationRecord R)
  or_first event (some m) o = some m
  or_first event none o = Option.map (match_record event) o

  abbrev pub records_matched : List (RuleEvaluationRecord R) → List (RuleEvaluationRecord R)
  records_matched [] = []
  records_matched (r ∷ rs) = elim r.outcome [
    | matched ↦ r ∷ records_matched rs
    | _ ↦ records_matched rs
  ]

  -- The outcome of a rule is `matched` exactly if it holds and no rule before it has matched.
  judge-matched :
      (r : RuleSpec R) (event : Event R) (has : Bool) (o : RuleOutcome)
      → judge r event has ≡ returned o
      → (o ≡ matched → (has ≡ false) × (holds r event ≡ true))
        × (has ≡ false → holds r event ≡ true → o ≡ matched)
  unfolding judge
  judge-matched r event has o h = ground arith

  -- What a round of the loop that returns has done.
  evaluate_from-step :
      (r : RuleSpec R) (rs : List (RuleSpec R)) (event : Event R)
      (m : Option (RuleEvaluationRecord R)) (out : RuleEngineOutcome R)
      → evaluate_from (r ∷ rs) event m ≡ returned out
      → (o : RuleOutcome) × (rest : RuleEngineOutcome R) × (judge r event (is_some m) ≡ returned o)
        × (evaluate_from rs event (match_after r event (hash_of r event) o m) ≡ returned rest)
        × (out.matched ≡ rest.matched)
        × (out.evaluations ≡ record_of r event (hash_of r event) o ∷ rest.evaluations)
  unfolding evaluate_from
  evaluate_from-step r rs event m out h =
      elim (Result-cases (hash_inputs (engine_inputs_of r event))) [
        | inr (x, g) ↦ absurd (ground (arith, h, g))
        | inl (hash, g) ↦ elim (Result-cases (judge r event (is_some m))) [
          | inr (x, e) ↦ absurd (ground (arith, h, g, e))
          | inl (o, e) ↦
              elim (Result-cases (evaluate_from rs event (match_after r event hash o m))) [
                | inr (x, f) ↦ absurd (ground (arith, h, g, e, f))
                | inl (rest, f) ↦ (
                  o,
                  rest,
                  e,
                  subst (λ k. evaluate_from rs event (match_after r event k o m) ≡ returned rest)
                      (hashed hash g) f,
                  ground (arith, h, g, e, f),
                  subst (λ k. out.evaluations ≡ record_of r event k o ∷ rest.evaluations)
                      (hashed hash g) (ground (arith, h, g, e, f)),
                )
              ]
        ]
      ]
    where
      hashed :
          (k : String) → hash_inputs (engine_inputs_of r event) ≡ returned k → k ≡ hash_of r event
      hashed k g = rw (hash_of, g) refl

  first-step :
      (r : RuleSpec R) (rs : List (RuleSpec R)) (event : Event R)
      (m : Option (RuleEvaluationRecord R)) (o : RuleOutcome)
      → judge r event (is_some m) ≡ returned o
      → or_first event (match_after r event (hash_of r event) o m) (first_match rs event)
        ≡ or_first event m (first_match (r ∷ rs) event)
  first-step r rs event m o h = ground (arith, judge-matched r event (is_some m) o h)

  evaluate_from-first :
      (rs : List (RuleSpec R)) (event : Event R) (m : Option (RuleEvaluationRecord R))
      (out : RuleEngineOutcome R)
      → evaluate_from rs event m ≡ returned out
      → out.matched ≡ or_first event m (first_match rs event)
  unfolding evaluate_from
  evaluate_from-first [] event m out h = ground arith
  evaluate_from-first (r ∷ rs) event m out h =
      let (o, rest, judged, more, same, _) = evaluate_from-step r rs event m out h in
      same
      ∙ evaluate_from-first rs event (match_after r event (hash_of r event) o m) rest more
      ∙ first-step r rs event m o judged

  evaluate_from-ids :
      (rs : List (RuleSpec R)) (event : Event R) (m : Option (RuleEvaluationRecord R))
      (out : RuleEngineOutcome R)
      → evaluate_from rs event m ≡ returned out
      → map (λ (r : RuleEvaluationRecord R). r.rule_id) out.evaluations
        ≡ map (λ (r : RuleSpec R). r.id) rs
  unfolding evaluate_from record_of
  evaluate_from-ids [] event m out h = ground arith
  evaluate_from-ids (r ∷ rs) event m out h =
      let (o, rest, judged, more, _, records) = evaluate_from-step r rs event m out h in
      rw records (
        ap (λ ids. r.id ∷ ids)
          (evaluate_from-ids rs event (match_after r event (hash_of r event) o m) rest more))

  -- The matched records that the loop adds to those before it.
  abbrev new_matched :
      Option (RuleEvaluationRecord R)
      → Option (RuleEvaluationRecord R)
      → List (RuleEvaluationRecord R)
  new_matched (some m) out = []
  new_matched none out = to_list out

  matched-step :
      (r : RuleSpec R) (event : Event R) (m : Option (RuleEvaluationRecord R)) (o : RuleOutcome)
      (out : Option (RuleEvaluationRecord R)) (rest : List (RuleEvaluationRecord R))
      → judge r event (is_some m) ≡ returned o
      → (o ≡ matched → out ≡ some (record_of r event (hash_of r event) matched))
      → records_matched rest ≡ new_matched (match_after r event (hash_of r event) o m) out
      → records_matched (record_of r event (hash_of r event) o ∷ rest) ≡ new_matched m out
  unfolding record_of
  matched-step r event m o out rest j k h = ground (arith, judge-matched r event (is_some m) o j)

  kept_match :
      (rs : List (RuleSpec R)) (event : Event R) (m : Option (RuleEvaluationRecord R))
      (r : RuleEvaluationRecord R) (out : RuleEngineOutcome R)
      → evaluate_from rs event m ≡ returned out
      → m ≡ some r
      → out.matched ≡ some r
  kept_match rs event m r out h e = ground (arith, evaluate_from-first rs event m out h)

  evaluate_from-matched :
      (rs : List (RuleSpec R)) (event : Event R) (m : Option (RuleEvaluationRecord R))
      (out : RuleEngineOutcome R)
      → evaluate_from rs event m ≡ returned out
      → records_matched out.evaluations ≡ new_matched m out.matched
  unfolding evaluate_from
  evaluate_from-matched [] event m out h = ground arith
  evaluate_from-matched (r ∷ rs) event m out h =
      let (o, rest, judged, more, same, records) = evaluate_from-step r rs event m out h in
      rw (records, same)
        (matched-step r event m o rest.matched rest.evaluations judged
          (λ e.
            kept_match rs event (match_after r event (hash_of r event) o m)
              (record_of r event (hash_of r event) matched) rest more (rw e))
          (evaluate_from-matched rs event (match_after r event (hash_of r event) o m) rest more))

  -- An evaluation that returns has one record for every rule, in the order of precedence. Its match
  -- is the first rule in that order that is enabled and whose conditions hold without an error, and
  -- there is none if no rule is so; and the records with the outcome `matched` are exactly that one.
  pub evaluate-first_match :
      (rules : List (RuleSpec R)) (event : Event R) (out : RuleEngineOutcome R)
      → evaluate rules event ≡ returned out
      → (map (λ (r : RuleEvaluationRecord R). r.rule_id) out.evaluations
          ≡ map (λ (r : RuleSpec R). r.id) (sort_rules rules))
        × (out.matched ≡ Option.map (match_record event) (first_match (sort_rules rules) event))
        × (records_matched out.evaluations ≡ to_list out.matched)
  unfolding evaluate
  evaluate-first_match rules event out h = (
    evaluate_from-ids (sort_rules rules) event none out h,
    evaluate_from-first (sort_rules rules) event none out h,
    evaluate_from-matched (sort_rules rules) event none out h,
  )
