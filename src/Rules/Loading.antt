-- ===== src/Rules/Loading.antt =====
-- What a load that succeeds has checked.
use x_social_trader.Base.{
  ◌≡◌, ◌↔◌, ◌⊎◌, inl, inr, refl, sym, ◌∙◌, String, true, false, not, some, List, [], ◌∷◌, map, All,
  Absent, Distinct, contains, contains-Absent, keep, arith, Bool-cases,
}
use x_social_trader.Models.{RuleSpec}
use x_social_trader.Rules.Precedence.{sort_rules}
use x_social_trader.Rules.Loader.{
  Parsed, valid, yaml_error, not_a_mapping, schema_error, unreadable, RuleFile, LoadFailure, Loaded,
  loaded, load_error, rule_paths, is_draft, load_from, load_rules_from_dir,
}

pub Loaded-cases :
    {A : Type 0} (r : Loaded A)
    → ((a : A) × (r ≡ loaded a)) ⊎ ((e : LoadFailure) × (r ≡ load_error e))
Loaded-cases (loaded a) = inl (a, refl)
Loaded-cases (load_error e) = inr (e, refl)

Parsed-cases :
    {R : Type 0} (p : Parsed R)
    → ((rule : RuleSpec R) × (p ≡ valid rule))
      ⊎ ((p ≡ yaml_error) ⊎ ((p ≡ not_a_mapping) ⊎ ((p ≡ schema_error) ⊎ (p ≡ unreadable))))
Parsed-cases (valid rule) = inl (rule, refl)
Parsed-cases yaml_error = inr (inl refl)
Parsed-cases not_a_mapping = inr (inr (inl refl))
Parsed-cases schema_error = inr (inr (inr (inl refl)))
Parsed-cases unreadable = inr (inr (inr (inr refl)))

abbrev AllNew : List String → List String → Type 0
AllNew seen = All (λ x. Absent x seen)

AllNew-split :
    (k : String) (seen xs : List String) → AllNew (k ∷ seen) xs → Absent k xs × AllNew seen xs
AllNew-split k seen [] h = (tt, tt)
AllNew-split k seen (x ∷ xs) h =
    let (a, b) = AllNew-split k seen xs h.1 in ((λ e. h.0.0 (sym e), a), (h.0.1, b))

AllNew-join :
    (k : String) (seen xs : List String) → Absent k xs → AllNew seen xs → AllNew (k ∷ seen) xs
AllNew-join k seen [] a b = tt
AllNew-join k seen (x ∷ xs) a b = ((λ e. a.0 (sym e), b.0), AllNew-join k seen xs a.1 b.1)

AllNew-nil : (xs : List String) → AllNew [] xs
AllNew-nil [] = tt
AllNew-nil (x ∷ xs) = (tt, AllNew-nil xs)

module _ {R : Type 0} where
  abbrev pub rule_ids : List (RuleSpec R) → List String
  rule_ids = map (λ r. r.id)

  -- The rules of the files that are no drafts, if each of those files holds one.
  abbrev pub contents : List (RuleFile R) → List (Parsed R)
  contents fs = map (λ f. f.parsed) (keep (λ f. not (is_draft f)) fs)

  -- One round of the loop that succeeds.
  load_from-step :
      (f : RuleFile R) (fs : List (RuleFile R)) (seen : List String) (rs : List (RuleSpec R))
      → load_from (f ∷ fs) seen ≡ loaded rs
      → ((is_draft f ≡ true) × (load_from fs seen ≡ loaded rs))
        ⊎ ((is_draft f ≡ false)
            × ((rule : RuleSpec R) × (rest : List (RuleSpec R)) × (f.parsed ≡ valid rule)
                × (contains rule.id seen ≡ false)
                × (load_from fs (rule.id ∷ seen) ≡ loaded rest)
                × (rs ≡ rule ∷ rest)))
  unfolding load_from
  load_from-step f fs seen rs h = elim (Bool-cases (is_draft f)) [
    | inl e ↦ inl (e, ground (arith, h, e))
    | inr e ↦ elim (Parsed-cases f.parsed) [
      | inr bad ↦ absurd (ground (arith, h, e, bad))
      | inl (rule, p) ↦ elim (Bool-cases (contains rule.id seen)) [
        | inl dup ↦ absurd (ground (arith, h, e, p, dup))
        | inr new ↦ elim (Loaded-cases (load_from fs (rule.id ∷ seen))) [
          | inl (rest, more) ↦
              inr (e, (rule, rest, p, new, more, ground (arith, h, e, p, new, more)))
          | inr (x, more) ↦ absurd (ground (arith, h, e, p, new, more))
        ]
      ]
    ]
  ]

  contents-draft :
      (f : RuleFile R) (fs : List (RuleFile R))
      → is_draft f ≡ true
      → contents (f ∷ fs) ≡ contents fs
  contents-draft f fs e = rw e

  contents-read :
      (f : RuleFile R) (fs : List (RuleFile R))
      → is_draft f ≡ false
      → contents (f ∷ fs) ≡ f.parsed ∷ contents fs
  contents-read f fs e = rw e

  -- What the loop returns is what the files hold, with ids that are new and distinct.
  load_from_sound :
      (fs : List (RuleFile R)) (seen : List String) (rs : List (RuleSpec R))
      → load_from fs seen ≡ loaded rs
      → (contents fs ≡ map valid rs) × Distinct (rule_ids rs) × AllNew seen (rule_ids rs)
  unfolding load_from
  load_from_sound [] seen rs h = let e : rs ≡ [] = ground (arith, h) in rw e (refl, tt, tt)
  load_from_sound (f ∷ fs) seen rs h = elim (load_from-step f fs seen rs h) [
    | inl (draft, more) ↦
        let (a, b, c) = load_from_sound fs seen rs more in (contents-draft f fs draft ∙ a, b, c)
    | inr (read, (rule, rest, p, new, more, e)) ↦
        let (a, b, c) = load_from_sound fs (rule.id ∷ seen) rest more in
        let (d, n) = AllNew-split rule.id seen (rule_ids rest) c in
        rw e
          (contents-read f fs read ∙ cc (p, a), (d, b), ((contains-Absent rule.id seen).0 new, n))
  ]

  abbrev Complete : List (RuleFile R) → Type 0
  Complete fs =
      (seen : List String) (rs : List (RuleSpec R))
      → contents fs ≡ map valid rs
      → Distinct (rule_ids rs)
      → AllNew seen (rule_ids rs)
      → load_from fs seen ≡ loaded rs

  Complete-read :
      (f : RuleFile R) (fs : List (RuleFile R)) (seen : List String) (rs : List (RuleSpec R))
      → is_draft f ≡ false
      → f.parsed ∷ contents fs ≡ map valid rs
      → Distinct (rule_ids rs)
      → AllNew seen (rule_ids rs)
      → Complete fs
      → load_from (f ∷ fs) seen ≡ loaded rs
  unfolding load_from
  Complete-read f fs seen [] e h d n k = absurd (ground (arith, h))
  Complete-read f fs seen (r ∷ rs) e h d n k =
      let p : f.parsed ≡ valid r = ground (arith, h) in
      let q : contents fs ≡ map valid rs = ground (arith, h) in
      ground (
        arith,
        e,
        p,
        (contains-Absent r.id seen).1 n.0,
        k (r.id ∷ seen) rs q d.1 (AllNew-join r.id seen (rule_ids rs) d.0 n.1),
      )

  -- Files that hold rules with new and distinct ids are loaded.
  load_from_complete :
      (fs : List (RuleFile R)) (seen : List String) (rs : List (RuleSpec R))
      → contents fs ≡ map valid rs
      → Distinct (rule_ids rs)
      → AllNew seen (rule_ids rs)
      → load_from fs seen ≡ loaded rs
  unfolding load_from
  load_from_complete [] seen [] h d n = refl
  load_from_complete [] seen (r ∷ rs) h d n = absurd (ground (arith, h))
  load_from_complete (f ∷ fs) seen rs h d n = elim (Bool-cases (is_draft f)) [
    | inl e ↦ ground (arith, e, load_from_complete fs seen rs (sym (contents-draft f fs e) ∙ h) d n)
    | inr e ↦
        Complete-read f fs seen rs e (sym (contents-read f fs e) ∙ h) d n (load_from_complete fs)
  ]

  -- The loop that `load_rules_from_dir` runs succeeds with a list of rules exactly if those are, in
  -- order, what the files that are no drafts hold, and their ids are distinct.
  load_from_iff :
      (fs : List (RuleFile R)) (rs : List (RuleSpec R))
      → (load_from fs [] ≡ loaded rs) ↔ ((contents fs ≡ map valid rs) × Distinct (rule_ids rs))
  load_from_iff fs rs = (
    λ h. let (a, b, _) = load_from_sound fs [] rs h in (a, b),
    λ h. load_from_complete fs [] rs h.0 h.1 (AllNew-nil (rule_ids rs)),
  )

  -- Loading a directory succeeds exactly if there are rules with distinct ids such that the files
  -- with the suffix .yaml or .yml that are no drafts hold, in the order of their names, those rules;
  -- the result is these rules in their order of precedence, each kept. It fails in every other case.
  pub load_rules_from_dir_iff :
      (entries : List (RuleFile R)) (rs : List (RuleSpec R))
      → (load_rules_from_dir (some entries) ≡ loaded rs) ↔ (
          (found : List (RuleSpec R)) × (contents (rule_paths entries) ≡ map valid found)
          × Distinct (rule_ids found)
          × (rs ≡ sort_rules found))
  unfolding load_rules_from_dir
  load_rules_from_dir_iff entries rs = (
    λ h. elim (Loaded-cases (load_from (rule_paths entries) [])) [
      | inl (found, e) ↦
          let (a, b) = (load_from_iff (rule_paths entries) found).0 e in
          (found, a, b, ground (arith, h, e))
      | inr (x, e) ↦ absurd (ground (arith, h, e))
    ],
    λ h. let e = (load_from_iff (rule_paths entries) h.0).1 (h.1, h.2) in ground (arith, e, h.3),
  )
