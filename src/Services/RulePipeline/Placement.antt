-- ===== src/Services/RulePipeline/Placement.antt =====
-- Where the orders come from that a run of the rule pipeline gives to the broker.
use mathlib.Core.Option
use mathlib.Core.List.{append_assoc}
use x_social_trader.Base.{
  ℕ, zero, suc, ◌+◌, ◌≤◌, ◌<◌, ◌≡◌, ◌⊎◌, inl, inr, refl, sym, subst, ap, ◌∙◌, String, Bool, true,
  Option, none, some, List, [], ◌∷◌, ◌++◌, arith, length, All, All-append, Option-cases,
  length-append,
}
use x_social_trader.Models.{Event, RuleSpec, ProposedOrder, ValidatedOrder, paper}
use x_social_trader.Runtime.{Runtime}
use x_social_trader.Settings.{Settings, is_live_trading}
use x_social_trader.World.{in_session, World, Result-cases}
use x_social_trader.Providers.{BrokerProvider}
use x_social_trader.Execution.{validated_order}
use x_social_trader.Execution.Gates.{placed-submit}
use x_social_trader.Execution.Attempt.{attempt, attempt-cases, executor}
use x_social_trader.Rules.{
  RuleEvaluationRecord, RuleEngineOutcome, evaluate, sort_rules, build_proposed_order, record_of,
}
use x_social_trader.Rules.FirstMatch.{first_match, match_record, evaluate-first_match}
use x_social_trader.Services.Worker.{Ending}
use x_social_trader.Services.RulePipeline.{
  RulePipelineReport, counted, proposal, popped, persist_evaluations, try_submit, handle,
  drain_from, run_rule_pipeline,
}
use x_social_trader.Services.RulePipeline.Rounds.{
  round, session, halted, drained, missing, handled, broken,
}
use x_social_trader.Services.RulePipeline.Termination.{queue-session}

module _ {R : Type 0} ⦃py : Runtime R⦄ where
  placed-persist_evaluations :
      (event_id : String) (rs : List (RuleEvaluationRecord R)) (w : World R)
      → (persist_evaluations event_id rs w).placed ≡ w.placed
  unfolding persist_evaluations
  placed-persist_evaluations event_id [] w = refl
  placed-persist_evaluations event_id (r ∷ rs) w = placed-persist_evaluations event_id rs _

  -- What is proposed is the order of the first match.
  pub proposal-first_match :
      (row : Event R) (o : Option (RuleSpec R)) (out : RuleEngineOutcome R) (p : ProposedOrder R)
      → out.matched ≡ Option.map (match_record row) o
      → proposal out ≡ some p
      → (r : RuleSpec R) × (o ≡ some r) × (p ≡ build_proposed_order r row)
  unfolding record_of
  proposal-first_match row none out p h k = absurd (ground (arith, h, k))
  proposal-first_match row (some r) out p h k = (r, refl, ground (arith, h, k))

module _ {R : Type 0} ⦃py : Runtime R⦄ (broker : BrokerProvider R) (settings : Settings R)
    (is_open_at : ℕ → Bool) (rules : List (RuleSpec R)) where
  -- The order is the one that the first matching rule proposes for an event, on paper or permitted.
  pub record IsJustified (v : ValidatedOrder R) : Type 0 where
    pub row : Event R
    pub rule : RuleSpec R
    pub first : first_match (sort_rules rules) row ≡ some rule
    pub order : v ≡ validated_order (build_proposed_order rule row)
    pub mode : (v.trading_mode ≡ paper) ⊎ (is_live_trading settings ≡ true)

  placed-attempt :
      (p : ProposedOrder R) (w : World R)
      → ((attempt broker settings is_open_at p w).1.placed ≡ w.placed)
        ⊎ (((attempt broker settings is_open_at p w).1.placed ≡ validated_order p ∷ w.placed)
            × ((p.trading_mode ≡ paper) ⊎ (is_live_trading settings ≡ true)))
  unfolding executor
  placed-attempt p w = elim (attempt-cases broker settings is_open_at p w) [
    | inl same ↦ inl (ap (λ u. u.placed) same)
    | inr (context, e, _, _) ↦
        elim (placed-submit (executor broker settings is_open_at) p context w) [
          | inl same ↦ inl (ap (λ u. u.placed) e ∙ same)
          | inr (added, cleared) ↦ inr (ap (λ u. u.placed) e ∙ added, cleared.mode)
        ]
  ]

  placed-handle :
      (row : Event R) (w : World R)
      → let w' = (handle broker settings is_open_at rules row w).1 in
        (w'.placed ≡ w.placed)
        ⊎ ((v : ValidatedOrder R) × IsJustified v × (w'.placed ≡ v ∷ w.placed))
  unfolding handle try_submit
  placed-handle row w = elim (Result-cases (evaluate rules row)) [
    | inr (x, e) ↦ inl (ground (arith, e))
    | inl (out, e) ↦
        let kept = placed-persist_evaluations row.event_id out.evaluations w in
        elim (Option-cases (proposal out)) [
          | inl f ↦ inl (ground (arith, e, f, kept))
          | inr (p, f) ↦
              let (r, first, eq) =
                proposal-first_match row (first_match (sort_rules rules) row) out p
                  (evaluate-first_match rules row out e).1 f in
              elim (placed-attempt p (persist_evaluations row.event_id out.evaluations w)) [
                | inl same ↦ inl (ground (arith, e, f, kept, same))
                | inr (added, mode) ↦ inr (
                  validated_order p,
                  record {
                    row = row;
                    rule = r;
                    first = first;
                    order = ap validated_order eq;
                    mode = mode;
                  },
                  ground (arith, e, f, kept, added),
                )
              ]
        ]
  ]

  placed-session :
      (row : Event R) (queue : List String) (w : World R)
      → let w' = (session broker settings is_open_at rules row queue w).1 in
        (w'.placed ≡ w.placed)
        ⊎ ((v : ValidatedOrder R) × IsJustified v × (w'.placed ≡ v ∷ w.placed))
  unfolding in_session
  placed-session row queue w = elim (placed-handle row (popped queue w)) [
    | inl same ↦ inl (ground (arith, same))
    | inr (v, j, added) ↦ inr (v, j, ground (arith, added))
  ]

  -- What a run from `w` that ends in `w'` has given to the broker.
  pub record HasPlaced (w w' : World R) : Type 0 where
    pub new : List (ValidatedOrder R)
    pub placed : w'.placed ≡ new ++ w.placed
    pub justified : All IsJustified new
    pub few : length new + length w'.redis.events ≤ length w.redis.events

  HasPlaced-none : (w : World R) → HasPlaced w w
  HasPlaced-none w = record { new = []; placed = refl; justified = tt; few = omega arith }

  HasPlaced-skip :
      (w u w' : World R)
      → u.placed ≡ w.placed
      → length u.redis.events ≤ length w.redis.events
      → HasPlaced u w'
      → HasPlaced w w'
  HasPlaced-skip w u w' same le h = record {
    new = h.new;
    placed = h.placed ∙ ap (λ l. h.new ++ l) same;
    justified = h.justified;
    few = omega (arith, h.few);
  }

  HasPlaced-one :
      (v : ValidatedOrder R) (w u w' : World R)
      → IsJustified v
      → u.placed ≡ v ∷ w.placed
      → length u.redis.events < length w.redis.events
      → HasPlaced u w'
      → HasPlaced w w'
  HasPlaced-one v w u w' j added lt h = record {
    new = h.new ++ v ∷ [];
    placed = h.placed ∙ ap (λ l. h.new ++ l) added ∙ sym (append_assoc h.new (v ∷ []) w.placed);
    justified = All-append IsJustified h.new (v ∷ []) h.justified (j, tt);
    few = omega (arith, h.few, length-append h.new (v ∷ []));
  }

  HasPlaced-session :
      (event_id : String) (queue : List String) (row : Event R) (w w' : World R)
      → w.redis.events ≡ event_id ∷ queue
      → HasPlaced (session broker settings is_open_at rules row queue w).1 w'
      → HasPlaced w w'
  HasPlaced-session event_id queue row w w' e h =
      let shorter = queue-session broker settings is_open_at rules row queue w in
      elim (placed-session row queue w) [
        | inl same ↦ HasPlaced-skip w _ w' same (rw (shorter, e) (omega arith)) h
        | inr (v, j, added) ↦ HasPlaced-one v w _ w' j added (rw (shorter, e) (omega arith)) h
      ]

  abbrev Places : World R → Ending R RulePipelineReport × World R → Type 0
  Places w (e, w') = HasPlaced w w'

  drain_from-HasPlaced :
      (n : ℕ) (t : RulePipelineReport) (w : World R)
      → HasPlaced w (drain_from broker settings is_open_at rules n t w).1
  unfolding drain_from
  drain_from-HasPlaced zero t w = HasPlaced-none w
  drain_from-HasPlaced (suc n) t w = elim (round broker settings is_open_at rules n t w) [
    | halted a q ↦ subst (Places w) (sym q) (HasPlaced-none w)
    | drained a q ↦ subst (Places w) (sym q) (HasPlaced-none w)
    | missing event_id queue e q ↦ subst (Places w) (sym q) (
        HasPlaced-skip w (popped queue w) _ refl (rw e (omega arith))
          (drain_from-HasPlaced n t (popped queue w)))
    | handled event_id queue row p e f s q ↦
        subst (Places w) (sym q)
          (HasPlaced-session event_id queue row w _ e (drain_from-HasPlaced n (counted p t) _))
    | broken event_id queue row x e f s q ↦
        subst (Places w) (sym q) (HasPlaced-session event_id queue row w _ e (HasPlaced-none _))
  ]

  -- However a run of the rule pipeline ends, it has given the broker at most one order for each
  -- message that it took from the queue, and kept those given before. Each of its orders is the one
  -- that the first matching rule, in the order of precedence, proposes for an event, and is on paper
  -- unless the settings permit live trading.
  pub run_rule_pipeline-HasPlaced :
      (fuel : ℕ) (w : World R)
      → HasPlaced w (run_rule_pipeline broker settings is_open_at rules fuel w).1
  unfolding run_rule_pipeline
  run_rule_pipeline-HasPlaced fuel w = drain_from-HasPlaced fuel _ w
