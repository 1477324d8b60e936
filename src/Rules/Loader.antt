-- ===== src/Rules/Loader.antt =====
-- backend/rules/loader.py and backend/rules/store.py. What reading a file, the YAML parser and the
-- schema check of pydantic come to is a value of `Parsed`; a directory is the list of its entries.
use text.Mathlib.Text.{starts_with}
use x_social_trader.Base.{
  ℕ, String, str_eq, Bool, true, false, ◌||◌, Option, none, some, List, [], ◌∷◌, keep, length,
  contains, sorted, str_leb,
}
use x_social_trader.Models.{RuleSpec}
use x_social_trader.Rules.Precedence.{sort_rules}

pub data Parsed (R : Type 0) : Type 0 where
  -- `open` or the decoding of the text fails with an `OSError` or a `UnicodeDecodeError`
  unreadable : Parsed R
  yaml_error not_a_mapping schema_error : Parsed R
  valid : RuleSpec R → Parsed R

-- An entry of the rules directory: `path.name`, `path.suffix` and what it holds.
pub record RuleFile (R : Type 0) : Type 0 where
  pub name : String
  pub suffix : String
  pub parsed : Parsed R

-- The causes of a `RuleLoadError`.
pub data RuleLoadError : Type 0 where
  directory_not_found : RuleLoadError
  bad_yaml bad_node bad_schema duplicate_id : String → RuleLoadError

-- Why a load fails: with a `RuleLoadError`, or with an error of a file that the loader does not catch.
pub data LoadFailure : Type 0 where
  rule_load_error : RuleLoadError → LoadFailure
  unreadable_file : String → LoadFailure

pub data Loaded {ℓ} (A : Type ℓ) : Type ℓ where
  loaded : A → Loaded A
  load_error : LoadFailure → Loaded A

module _ {R : Type 0} where
  -- `_parse_one`
  unfoldable pub parse_one : RuleFile R → Loaded (RuleSpec R)
  parse_one f = elim f.parsed [
    | unreadable ↦ load_error (unreadable_file f.name)
    | yaml_error ↦ load_error (rule_load_error (bad_yaml f.name))
    | not_a_mapping ↦ load_error (rule_load_error (bad_node f.name))
    | schema_error ↦ load_error (rule_load_error (bad_schema f.name))
    | valid rule ↦ loaded rule
  ]

  abbrev pub name_leb : RuleFile R → RuleFile R → Bool
  name_leb f g = str_leb f.name g.name

  -- `sorted(p for p in base.iterdir() if p.suffix in {".yaml", ".yml"})`
  abbrev pub rule_paths : List (RuleFile R) → List (RuleFile R)
  rule_paths entries =
      sorted name_leb (keep (λ f. str_eq f.suffix ".yaml" || str_eq f.suffix ".yml") entries)

  abbrev pub is_draft : RuleFile R → Bool
  is_draft f = starts_with f.name "_"

  abbrev pub cons_loaded : RuleSpec R → Loaded (List (RuleSpec R)) → Loaded (List (RuleSpec R))
  cons_loaded r (loaded rs) = loaded (r ∷ rs)
  cons_loaded r (load_error e) = load_error e

  -- The loop over the paths, with the ids in `seen`.
  unfoldable pub load_from : List (RuleFile R) → List String → Loaded (List (RuleSpec R))
  unfolding parse_one
  load_from [] seen = loaded []
  load_from (f ∷ fs) seen = elim (is_draft f) [
    | true ↦ load_from fs seen
    | false ↦ elim (parse_one f) [
      | load_error e ↦ load_error e
      | loaded rule ↦ elim (contains rule.id seen) [
        | true ↦ load_error (rule_load_error (duplicate_id rule.id))
        | false ↦ cons_loaded rule (load_from fs (rule.id ∷ seen))
      ]
    ]
  ]

  abbrev pub sort_loaded : Loaded (List (RuleSpec R)) → Loaded (List (RuleSpec R))
  sort_loaded (loaded rs) = loaded (sort_rules rs)
  sort_loaded (load_error e) = load_error e

  -- `load_rules_from_dir`; `none` is a path that is no directory.
  unfoldable pub load_rules_from_dir : Option (List (RuleFile R)) → Loaded (List (RuleSpec R))
  load_rules_from_dir none = load_error (rule_load_error directory_not_found)
  load_rules_from_dir (some entries) = sort_loaded (load_from (rule_paths entries) [])

-- `RuleStore`: the rules that it holds.
pub record RuleStore (R : Type 0) : Type 0 where
  pub rules : List (RuleSpec R)

module _ {R : Type 0} where
  -- `reload`: the new count, or the error with the old list in place
  unfoldable pub reload : Option (List (RuleFile R)) → RuleStore R → Loaded ℕ × RuleStore R
  reload directory store = elim (load_rules_from_dir directory) [
    | loaded new_rules ↦ (loaded (length new_rules), record { rules = new_rules })
    | load_error e ↦ (load_error e, store)
  ]
