-- ===== src/Rules/Reloading.antt =====
-- What a reload of the store leaves.
use x_social_trader.Base.{
  ◌≡◌, ◌⊎◌, inl, inr, refl, Option, none, some, List, Distinct, arith, IsSorted, sorted-IsSorted,
  length,
}
use x_social_trader.Models.{RuleSpec}
use x_social_trader.Rules.Precedence.{sort_rules, precedes, precedes-IsOrder, Distinct-sort_rules}
use x_social_trader.Rules.Loader.{
  RuleFile, LoadFailure, loaded, load_error, load_rules_from_dir, RuleStore, reload,
}
use x_social_trader.Rules.Loading.{Loaded-cases, rule_ids, load_rules_from_dir_iff}

module _ {R : Type 0} where
  -- What a store holds: rules in their order of precedence, with distinct ids.
  pub record IsReady (store : RuleStore R) : Type 0 where
    pub ordered : IsSorted precedes precedes-IsOrder store.rules
    pub distinct : Distinct (rule_ids store.rules)

  ready :
      (directory : Option (List (RuleFile R))) (rs : List (RuleSpec R))
      → load_rules_from_dir directory ≡ loaded rs
      → IsReady (record { rules = rs })
  unfolding sort_rules load_rules_from_dir
  ready none rs h = absurd (ground (arith, h))
  ready (some entries) rs h =
      let (found, _, distinct, e) = (load_rules_from_dir_iff entries rs).0 h in
      rw e (record {
        ordered = sorted-IsSorted precedes precedes-IsOrder found;
        distinct = Distinct-sort_rules found distinct;
      })

  reload-failed :
      (directory : Option (List (RuleFile R))) (store : RuleStore R) (e : LoadFailure)
      → load_rules_from_dir directory ≡ load_error e
      → reload directory store ≡ (load_error e, store)
  unfolding reload
  reload-failed directory store e f = rw (f, reload)

  reload-loaded :
      (directory : Option (List (RuleFile R))) (store : RuleStore R) (rs : List (RuleSpec R))
      → load_rules_from_dir directory ≡ loaded rs
      → reload directory store ≡ (loaded (length rs), record { rules = rs })
  unfolding reload
  reload-loaded directory store rs f = rw (f, reload)

  -- A reload fails with the error of the load, and the store keeps the rules that it had; or the
  -- load succeeds, its rules replace those of the store, their number is returned, and the store has
  -- rules in their order of precedence with distinct ids, whatever it held before.
  pub reload_effect :
      (directory : Option (List (RuleFile R))) (store : RuleStore R)
      → let (r, store') = reload directory store in
        ((e : LoadFailure) × (load_rules_from_dir directory ≡ load_error e)
          × (r ≡ load_error e)
          × (store' ≡ store))
        ⊎ ((load_rules_from_dir directory ≡ loaded store'.rules)
            × (r ≡ loaded (length store'.rules))
            × IsReady store')
  reload_effect directory store = elim (Loaded-cases (load_rules_from_dir directory)) [
    | inr (x, f) ↦ rw (reload-failed directory store x f) (inl (x, f, refl, refl))
    | inl (rs, f) ↦ rw (reload-loaded directory store rs f) (inr (f, refl, ready directory rs f))
  ]
