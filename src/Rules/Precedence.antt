-- ===== src/Rules/Precedence.antt =====
-- The order of rules, `key=lambda r: (-r.priority, r.id)`: priority first, the higher the earlier,
-- then the id (backend/rules/engine.py and backend/rules/loader.py).
use x_social_trader.Base.{
  ◌≡◌, ◌≢◌, String, Bool, true, false, List, [], ◌∷◌, map, ℤ, ltb_ℤ, eq_ℤ, str_leb, str_leb_total,
  str_leb_trans, str_leb_antisymm, sorted, insert, sym, inl, inr, Bool-cases, IsOrder, ties, NoTies,
  All, Absent, Distinct, arith, if◌then◌else◌,
}
use x_social_trader.Models.{RuleSpec}

abbrev pub key_leb : ℤ → String → ℤ → String → Bool
key_leb p i q j = if ltb_ℤ q p then true else if eq_ℤ p q then str_leb i j else false

unfoldable pub precedes : {R : Type 0} → RuleSpec R → RuleSpec R → Bool
precedes r s = key_leb r.priority r.id s.priority s.id

-- `sorted(rules, key=…)`
unfoldable pub sort_rules : {R : Type 0} → List (RuleSpec R) → List (RuleSpec R)
sort_rules = sorted precedes

ltb_ℤ_total : (a b : ℤ) → ltb_ℤ a b ≡ false → eq_ℤ b a ≡ false → ltb_ℤ b a ≡ true
ltb_ℤ_total a b h k = ground arith

pub key_leb_total : (p q : ℤ) (i j : String) → key_leb p i q j ≡ false → key_leb q j p i ≡ true
key_leb_total p q i j h = ground (arith, str_leb_total i j)

pub key_leb_trans :
    (p q r : ℤ) (i j k : String)
    → key_leb p i q j ≡ true
    → key_leb q j r k ≡ true
    → key_leb p i r k ≡ true
key_leb_trans p q r i j k g h = ground (arith, str_leb_trans i j k)

pub precedes-IsOrder : {R : Type 0} → IsOrder (precedes {R = R})
unfolding precedes
precedes-IsOrder = record {
  total = λ r s. key_leb_total r.priority s.priority r.id s.id;
  transitive = λ r s t. key_leb_trans r.priority s.priority t.priority r.id s.id t.id;
}

ids-differ : {R : Type 0} (r s : RuleSpec R) → r.id ≢ s.id → ties precedes r s ≡ false
unfolding precedes
ids-differ r s h = ground (arith, str_leb_antisymm r.id s.id)

NoTies-head :
    {R : Type 0} (r : RuleSpec R) (rs : List (RuleSpec R))
    → Absent r.id (map (λ (s : RuleSpec R). s.id) rs)
    → All (λ s. ties precedes r s ≡ false) rs
NoTies-head r [] h = tt
NoTies-head r (s ∷ rs) h = (ids-differ r s h.0, NoTies-head r rs h.1)

-- Rules with distinct ids do not tie.
pub NoTies-of_ids :
    {R : Type 0} (rs : List (RuleSpec R))
    → Distinct (map (λ (r : RuleSpec R). r.id) rs)
    → NoTies precedes rs
NoTies-of_ids [] h = tt
NoTies-of_ids (r ∷ rs) h = (NoTies-head r rs h.0, NoTies-of_ids rs h.1)

module _ {R : Type 0} where
  abbrev ids : List (RuleSpec R) → List String
  ids = map (λ r. r.id)

  Absent-insert :
      (k : String) (r : RuleSpec R) (rs : List (RuleSpec R))
      → k ≢ r.id
      → Absent k (ids rs)
      → Absent k (ids (insert precedes r rs))
  unfolding insert
  Absent-insert k r [] h a = (h, tt)
  Absent-insert k r (s ∷ rs) h a = elim (Bool-cases (precedes r s)) [
    | inl e ↦ rw e (h, a)
    | inr e ↦ rw e (a.0, Absent-insert k r rs h a.1)
  ]

  Distinct-insert :
      (r : RuleSpec R) (rs : List (RuleSpec R))
      → Absent r.id (ids rs)
      → Distinct (ids rs)
      → Distinct (ids (insert precedes r rs))
  unfolding insert
  Distinct-insert r [] a d = (tt, tt)
  Distinct-insert r (s ∷ rs) a d = elim (Bool-cases (precedes r s)) [
    | inl e ↦ rw e (a, d)
    | inr e ↦ rw e (Absent-insert s.id r rs (λ p. a.0 (sym p)) d.0, Distinct-insert r rs a.1 d.1)
  ]

  Absent-sorted :
      (k : String) (rs : List (RuleSpec R))
      → Absent k (ids rs)
      → Absent k (ids (sorted precedes rs))
  unfolding sorted
  Absent-sorted k [] a = tt
  Absent-sorted k (r ∷ rs) a = Absent-insert k r (sorted precedes rs) a.0 (Absent-sorted k rs a.1)

  pub Distinct-sort_rules :
      (rs : List (RuleSpec R)) → Distinct (ids rs) → Distinct (ids (sort_rules rs))
  unfolding sort_rules sorted
  Distinct-sort_rules [] d = tt
  Distinct-sort_rules (r ∷ rs) d =
      Distinct-insert r (sorted precedes rs) (Absent-sorted r.id rs d.0)
        (Distinct-sort_rules rs d.1)
