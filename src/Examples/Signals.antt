-- ===== src/Examples/Signals.antt =====
-- The theorems on the rule engine, the loader and the store at concrete rules.
use mathlib.Core.Option
use mathlib.Core.List.{Permᴰ}
use x_social_trader.Base.{◌≡◌, ◌↔◌, ◌⊎◌, refl, some, List, [], ◌∷◌, map, pos, All, Distinct, length}
use x_social_trader.Models.{RuleSpec}
use x_social_trader.Runtime.Sample.{Sample, sample}
use x_social_trader.World.{returned}
use x_social_trader.Rules.{sort_rules}
use x_social_trader.Rules.{evaluate, RuleEngineOutcome, RuleEvaluationRecord}
use x_social_trader.Rules.FirstMatch.{
  evaluate-first_match, first_match, match_record, records_matched, to_list,
}
use x_social_trader.Rules.Totality.{AreConvertible, HasDigest, evaluate_total}
use x_social_trader.Rules.Independence.{evaluate-of_perm}
use x_social_trader.Rules.{
  RuleFile, Parsed, valid, loaded, load_error, LoadFailure, RuleStore, reload, load_rules_from_dir,
  rule_paths,
}
use x_social_trader.Rules.Loading.{load_rules_from_dir_iff, contents, rule_ids}
use x_social_trader.Rules.Reloading.{IsReady, reload_effect}
use x_social_trader.Examples.{some_event, rule_with}

-- The rule with the higher priority asks for a confidence of two, which the event does not have.
abbrev pub strict : RuleSpec Sample
strict = rule_with "strict" (pos 2) (pos 2)

abbrev pub lenient : RuleSpec Sample
lenient = rule_with "lenient" (pos 1) (pos 0)

abbrev pub rules : List (RuleSpec Sample)
rules = lenient ∷ strict ∷ []

rules-AreConvertible : All AreConvertible rules
rules-AreConvertible = (((λ h. cc h), tt), (((λ h. cc h), tt), tt))

rules-HasDigest : All (HasDigest some_event) rules
rules-HasDigest = ((λ h. cc h), ((λ h. cc h), tt))

evaluate_total_example :
    ((out : RuleEngineOutcome Sample) × (evaluate rules some_event ≡ returned out))
    ↔ All (HasDigest some_event) rules
evaluate_total_example = evaluate_total rules some_event rules-AreConvertible

abbrev outcome : RuleEngineOutcome Sample
outcome = ((evaluate_total rules some_event rules-AreConvertible).1 rules-HasDigest).0

evaluate-first_match_example :
    (map (λ (r : RuleEvaluationRecord Sample). r.rule_id) outcome.evaluations
      ≡ map (λ (r : RuleSpec Sample). r.id) (sort_rules rules))
    × (outcome.matched
        ≡ Option.map (match_record some_event) (first_match (sort_rules rules) some_event))
    × (records_matched outcome.evaluations ≡ to_list outcome.matched)
evaluate-first_match_example =
    evaluate-first_match rules some_event outcome
      ((evaluate_total rules some_event rules-AreConvertible).1 rules-HasDigest).1

evaluate-of_perm_example : evaluate rules some_event ≡ evaluate (strict ∷ lenient ∷ []) some_event
evaluate-of_perm_example =
    evaluate-of_perm some_event (Permᴰ.swap refl refl) ((λ h. absurd (cc h), tt), (tt, tt))

-- A directory with two rules, a draft and a file of another kind.
abbrev entries : List (RuleFile Sample)
entries =
    record { name = "b.yaml"; suffix = ".yaml"; parsed = valid lenient }
    ∷ record { name = "_draft.yml"; suffix = ".yml"; parsed = Parsed.yaml_error }
    ∷ record { name = "a.yml"; suffix = ".yml"; parsed = valid strict }
    ∷ record { name = "README.md"; suffix = ".md"; parsed = Parsed.not_a_mapping }
    ∷ []

load_rules_from_dir_iff_example :
    (load_rules_from_dir (some entries) ≡ loaded (strict ∷ lenient ∷ [])) ↔ (
      (found : List (RuleSpec Sample)) × (contents (rule_paths entries) ≡ map valid found)
      × Distinct (rule_ids found)
      × (strict ∷ lenient ∷ [] ≡ sort_rules found))
load_rules_from_dir_iff_example = load_rules_from_dir_iff entries (strict ∷ lenient ∷ [])

abbrev empty_store : RuleStore Sample
empty_store = record { rules = [] }

reload_effect_example :
    let (r, store') = reload (some entries) empty_store in
    ((e : LoadFailure) × (load_rules_from_dir (some entries) ≡ load_error e)
      × (r ≡ load_error e)
      × (store' ≡ empty_store))
    ⊎ ((load_rules_from_dir (some entries) ≡ loaded store'.rules)
        × (r ≡ loaded (length store'.rules))
        × IsReady store')
reload_effect_example = reload_effect (some entries) empty_store
