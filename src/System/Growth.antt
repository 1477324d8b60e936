-- ===== src/System/Growth.antt =====
-- No change of the shared state takes a row away from a table of the audit, or alters one.
use mathlib.Core.List.{append_assoc}
use x_social_trader.Base.{◌≡◌, refl, sym, ap, ◌∙◌, List, [], ◌∷◌, ◌++◌}
use x_social_trader.Models.{RuleSpec}
use x_social_trader.World.{World, Db}
use x_social_trader.Providers.{BrokerProvider}
use x_social_trader.KillSwitch.Agreement.{Operation, apply, apply-history, other_tables-apply}
use x_social_trader.System.Changes.{
  Change, Changes, here, next, messaged, switched, tweet_added, decision_added, event_added,
  evaluations_added, fill_added, positions_set, ordered, sent,
}

-- `new` rows stand in front of the old ones.
abbrev pub Grown : {A : Type 0} → List A → List A → Type 0
Grown {A} old rows = (new : List A) × (rows ≡ new ++ old)

module _ {A : Type 0} where
  same : {old : List A} → Grown old old
  same = ([], refl)

  more : {old : List A} (new : List A) → Grown old (new ++ old)
  more new = (new, refl)

  Grown-trans : {xs ys zs : List A} → Grown xs ys → Grown ys zs → Grown xs zs
  Grown-trans {xs} (a, e) (b, f) = (b ++ a, f ∙ ap (λ l. b ++ l) e ∙ sym (append_assoc b a xs))

module _ {R : Type 0} where
  -- The tables of the audit trail, and those that it refers to.
  pub record Grows (a b : Db R) : Type 0 where
    pub raw_tweets : Grown a.raw_tweets b.raw_tweets
    pub llm_decisions : Grown a.llm_decisions b.llm_decisions
    pub events : Grown a.events b.events
    pub rule_evaluations : Grown a.rule_evaluations b.rule_evaluations
    pub orders : Grown a.orders b.orders
    pub fills : Grown a.fills b.fills
    pub kill_switch_events : Grown a.kill_switch_events b.kill_switch_events

  grows :
      {a b : Db R}
      → Grown a.raw_tweets b.raw_tweets
      → Grown a.llm_decisions b.llm_decisions
      → Grown a.events b.events
      → Grown a.rule_evaluations b.rule_evaluations
      → Grown a.orders b.orders
      → Grown a.fills b.fills
      → Grown a.kill_switch_events b.kill_switch_events
      → Grows a b
  grows t d e r o f k = record {
    raw_tweets = t;
    llm_decisions = d;
    events = e;
    rule_evaluations = r;
    orders = o;
    fills = f;
    kill_switch_events = k;
  }

  Grows-refl : (a : Db R) → Grows a a
  Grows-refl a = grows same same same same same same same

  Grows-trans : (a b c : Db R) → Grows a b → Grows b c → Grows a c
  Grows-trans a b c x y = record {
    raw_tweets = Grown-trans x.raw_tweets y.raw_tweets;
    llm_decisions = Grown-trans x.llm_decisions y.llm_decisions;
    events = Grown-trans x.events y.events;
    rule_evaluations = Grown-trans x.rule_evaluations y.rule_evaluations;
    orders = Grown-trans x.orders y.orders;
    fills = Grown-trans x.fills y.fills;
    kill_switch_events = Grown-trans x.kill_switch_events y.kill_switch_events;
  }

  Grows-apply : (o : Operation) (w : World R) → Grows w.db (apply o w).db
  Grows-apply o w =
      let (new, e, _) = apply-history o w in
      rw (other_tables-apply o w) (grows same same same same same same (new, e))

  module _ (broker : BrokerProvider R) (Admits : RuleSpec R → Type 0) where
    Change-Grows : {w w' : World R} → Change broker Admits w w' → Grows w.db w'.db
    Change-Grows {w} (messaged h) = rw h.tables (Grows-refl w.db)
    Change-Grows {w} (switched o e) = rw e (Grows-apply o w)
    Change-Grows {w} (tweet_added row _ h) =
        rw h.tables (grows (more (row ∷ [])) same same same same same same)
    Change-Grows {w} (decision_added d _ h) =
        rw h.tables (grows same (more (d ∷ [])) same same same same same)
    Change-Grows {w} (event_added e _ _ _ h) =
        rw h.tables (grows same same (more (e ∷ [])) same same same same)
    Change-Grows {w} (evaluations_added rows h) =
        rw h.tables (grows same same same (more rows) same same same)
    Change-Grows {w} (fill_added f h) =
        rw h.tables (grows same same same same same (more (f ∷ [])) same)
    Change-Grows {w} (positions_set rows h) = rw h.tables (grows same same same same same same same)
    Change-Grows {w} (ordered v row _ _ _ e _ _) =
        rw e (grows same same same same (more (row ∷ [])) same same)
    Change-Grows {w} (sent rule event _ _ e _ _) = rw e (Grows-refl w.db)

    pub Changes-Grows : {w w' : World R} → Changes broker Admits w w' → Grows w.db w'.db
    Changes-Grows {w} here = Grows-refl w.db
    Changes-Grows {w} {w'} (next {u} s c) =
        Grows-trans w.db u.db w'.db (Changes-Grows s) (Change-Grows c)
