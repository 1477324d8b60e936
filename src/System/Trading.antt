-- ===== src/System/Trading.antt =====
-- A run of the rule pipeline as a sequence of changes.
mod Attempts
use mathlib.Core.List.{Mem, mem-cons_self, mem-cons_of_mem}
use x_social_trader.Base.{
  ℕ, zero, suc, ◌<◌, ◌≡◌, ◌≢◌, ◌⊎◌, inl, inr, refl, sym, subst, ap, ◌∙◌, String, str_eq, eq_iff,
  true, false, Option, none, some, List, [], ◌∷◌, ◌++◌, map, arith, All, Absent, Bool, All-sorted,
  Option-cases, Bool-cases, ltb,
}
use x_social_trader.Models.{
  Event, RuleSpec, ProposedOrder, ValidationContext, OrderReceipt, RuleEvaluation, failures,
}
use x_social_trader.Runtime.{Runtime}
use x_social_trader.Settings.{Settings}
use x_social_trader.World.{
  World, Db, Error, Result, Result-cases, returned, raised, in_session, broker_error,
  integrity_error, kill_switch_active, live_mode_not_permitted, submission_rejected,
}
use x_social_trader.Providers.{BrokerProvider}
use x_social_trader.Risk.{idempotency_key, build_risk_manager, validate}
use x_social_trader.Risk.Audit.{with_evaluations, with_evaluations-append, validate_audits}
use x_social_trader.Execution.{
  OrderExecutor, build_validation_context, SubmissionResult, submit, validated_order, order_row,
  insert_order, key_taken, limit_price_fits, joined_reasons,
}
use x_social_trader.KillSwitch.{is_active}
use x_social_trader.Execution.Outcome.{submit_refusals}
use x_social_trader.Execution.Gates.{Cleared}
use x_social_trader.Execution.Attempt.{
  order_events, order_keys, key_taken-Absent, build_validation_context-seen, attempt, attempt-cases,
  executor,
}
use x_social_trader.Execution.Idempotency.{Cleared-new}
use x_social_trader.Rules.FirstMatch.{first_match, holds, evaluate-first_match}
use x_social_trader.Rules.{
  RuleEvaluationRecord, precedes, precedes-IsOrder, evaluate, sort_rules, build_proposed_order,
}
use x_social_trader.Services.LlmPipeline.Effects.{event_ids}
use x_social_trader.Services.Worker.{Ending}
use x_social_trader.Services.RulePipeline.{
  RulePipelineReport, evaluation_row, counted, proposal, find_event, popped, persist_evaluations,
  try_submit, handle, drain_from, run_rule_pipeline, is_rejection,
}
use x_social_trader.Services.RulePipeline.Rounds.{
  round, session, halted, drained, missing, handled, broken,
}
use x_social_trader.Services.RulePipeline.Placement.{proposal-first_match}
use x_social_trader.System.Trading.Attempts.{Outcome-attempt, unstarted, rejected, recorded, lost}
use x_social_trader.System.Changes.{
  Change, Changes, here, next, Changes-trans, Changes-one, messaged, evaluations_added, ordered,
  sent, Wrote, IsUnrecordable,
}

module _ {R : Type 0} where
  find_event-mem :
      (k : String) (es : List (Event R)) (row : Event R)
      → find_event k es ≡ some row
      → Mem row.event_id (event_ids es)
  find_event-mem k [] row h = absurd (ground arith)
  find_event-mem k (e ∷ es) row h = elim (Bool-cases (str_eq k e.event_id)) [
    | inl c ↦ let same : e ≡ row = ground (arith, h, c) in rw (sym same) mem-cons_self
    | inr c ↦ mem-cons_of_mem e.event_id (find_event-mem k es row (ground (arith, h, c)))
  ]

module _ {R : Type 0} ⦃py : Runtime R⦄ where
  first_match-All :
      (P : RuleSpec R → Type 0) (row : Event R) (rs : List (RuleSpec R))
      → All P rs
      → (r : RuleSpec R) → first_match rs row ≡ some r
      → P r
  first_match-All P row [] h r e = absurd (ground arith)
  first_match-All P row (x ∷ rs) h r e = elim (Bool-cases (holds x row)) [
    | inl c ↦ let same : x ≡ r = ground (arith, e, c) in subst P same h.0
    | inr c ↦ first_match-All P row rs h.1 r (ground (arith, e, c))
  ]

  -- The evaluations of the engine, as one change.
  persist_evaluations-eq :
      (event_id : String) (rs : List (RuleEvaluationRecord R)) (w : World R)
      → (rows : List (RuleEvaluation R)) × (persist_evaluations event_id rs w
          ≡ with_evaluations rows w)
  unfolding persist_evaluations
  persist_evaluations-eq event_id [] w = ([], refl)
  persist_evaluations-eq event_id (r ∷ rs) w =
      let first = evaluation_row event_id r in
      let (rows, e) = persist_evaluations-eq event_id rs (with_evaluations (first ∷ []) w) in
      (rows ++ first ∷ [], e ∙ with_evaluations-append rows first w)

module _ {R : Type 0} ⦃py : Runtime R⦄ (broker : BrokerProvider R) (settings : Settings R)
    (is_open_at : ℕ → Bool) (Admits : RuleSpec R → Type 0) (rules : List (RuleSpec R))
    (admitted : All Admits rules) where
  abbrev after : Event R → List String → World R → World R
  after row queue w = (session broker settings is_open_at rules row queue w).1

  admitted_match :
      (row : Event R) (r : RuleSpec R) → first_match (sort_rules rules) row ≡ some r → Admits r
  unfolding sort_rules
  admitted_match row r e =
      first_match-All Admits row (sort_rules rules)
        (All-sorted precedes precedes-IsOrder Admits rules admitted) r e

  -- The session of an event whose order was attempted.
  Changes-attempted :
      (row : Event R) (queue : List String) (w : World R) (rows : List (RuleEvaluation R))
      (rule : RuleSpec R)
      → Admits rule
      → Mem row.event_id (event_ids w.db.events)
      → (let u = with_evaluations rows (popped queue w) in
          let p = build_proposed_order rule row in
          (handle broker settings is_open_at rules row (popped queue w)
            ≡ try_submit broker settings is_open_at rules p u))
      → Changes broker Admits w (after row queue w)
  unfolding in_session try_submit
  Changes-attempted row queue w rows rule a m h =
      let u = with_evaluations rows (popped queue w) in
      let p = build_proposed_order rule row in
      let tried = (attempt broker settings is_open_at p u).1 in
      let rolled_back : World R = record tried { db = w.db } in
      let evaluated : Changes broker Admits w u =
        Changes-one
          (evaluations_added rows (record { tables = refl; placed = refl; flag = refl })) in
      elim (Outcome-attempt broker settings is_open_at p u) [
        | unstarted e r k ↦ elim (Bool-cases (is_rejection e)) [
          | inl i ↦
              let same : after row queue w ≡ u = ground (arith, h, r, k, i) in rw same evaluated
          | inr i ↦
              let same : after row queue w ≡ popped queue w = ground (arith, h, r, k, i) in
              rw same
                (Changes-one (messaged (record { tables = refl; placed = refl; flag = refl })))
        ]
        | rejected e more i r k ↦
            let same : after row queue w ≡ with_evaluations more u = ground (arith, h, r, k, i) in
            rw same (
              next evaluated
                (evaluations_added more (record { tables = refl; placed = refl; flag = refl })))
        | recorded s more receipt new r t q k ↦
            let same : after row queue w ≡ (attempt broker settings is_open_at p u).1 =
              ground (arith, h, r) in
            let judged : Changes broker Admits w (with_evaluations more u) =
              next evaluated
                (evaluations_added more (record { tables = refl; placed = refl; flag = refl })) in
            rw same
              (next judged (ordered (validated_order p) (order_row p receipt u) refl new m t q k))
        | lost e i cause r q k ↦
            let same : after row queue w ≡ rolled_back = ground (arith, h, r, i) in
            rw same (Changes-one (sent rule row a cause refl q k))
      ]

  Changes-session :
      (row : Event R) (queue : List String) (w : World R)
      → Mem row.event_id (event_ids w.db.events)
      → Changes broker Admits w (after row queue w)
  unfolding in_session handle
  Changes-session row queue w m = elim (Result-cases (evaluate rules row)) [
    | inr (x, e) ↦
        let same : after row queue w ≡ popped queue w = ground (arith, e) in
        rw same (Changes-one (messaged (record { tables = refl; placed = refl; flag = refl })))
    | inl (out, e) ↦
        let (rows, wrote) = persist_evaluations-eq row.event_id out.evaluations (popped queue w) in
        elim (Option-cases (proposal out)) [
          | inl f ↦
              let same : after row queue w ≡ with_evaluations rows (popped queue w) =
                ground (arith, e, f, wrote) in
              rw same (
                Changes-one
                  (evaluations_added rows (record { tables = refl; placed = refl; flag = refl })))
          | inr (p, f) ↦
              let (rule, first, eq) =
                proposal-first_match row (first_match (sort_rules rules) row) out p
                  (evaluate-first_match rules row out e).1 f in
              Changes-attempted row queue w rows rule (admitted_match row rule first) m
                (ground (arith, e, f, wrote, eq))
        ]
  ]

  abbrev Runs : World R → Ending R RulePipelineReport × World R → Type 0
  Runs w (e, w') = Changes broker Admits w w'

  Changes-drain_from :
      (n : ℕ) (t : RulePipelineReport) (w : World R)
      → Changes broker Admits w (drain_from broker settings is_open_at rules n t w).1
  unfolding drain_from
  Changes-drain_from zero t w = here
  Changes-drain_from (suc n) t w = elim (round broker settings is_open_at rules n t w) [
    | halted a q ↦ subst (Runs w) (sym q) here
    | drained a q ↦ subst (Runs w) (sym q) here
    | missing event_id queue e q ↦
        let dropped : Changes broker Admits w (popped queue w) =
          Changes-one (messaged (record { tables = refl; placed = refl; flag = refl })) in
        subst (Runs w) (sym q) (Changes-trans dropped (Changes-drain_from n t (popped queue w)))
    | handled event_id queue row p e f s q ↦ subst (Runs w) (sym q) (
        Changes-trans (Changes-session row queue w (find_event-mem event_id _ row f))
          (Changes-drain_from n (counted p t) _))
    | broken event_id queue row x e f s q ↦
        subst (Runs w) (sym q) (Changes-session row queue w (find_event-mem event_id _ row f))
  ]

  pub Changes-run_rule_pipeline :
      (fuel : ℕ) (w : World R)
      → Changes broker Admits w (run_rule_pipeline broker settings is_open_at rules fuel w).1
  unfolding run_rule_pipeline
  Changes-run_rule_pipeline fuel w = Changes-drain_from fuel _ w
