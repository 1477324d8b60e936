-- ===== src/Services/RulePipeline/Termination.antt =====
-- A run of the rule pipeline ends, and its counters add up.
use x_social_trader.Base.{
  ℕ, zero, suc, ◌+◌, ◌<◌, ◌≤◌, ◌≡◌, inl, inr, refl, sym, subst, String, Bool, Option, none, List,
  [], ◌∷◌, arith, length, Option-cases,
}
use x_social_trader.Models.{Event, RuleSpec, ProposedOrder, ValidationContext}
use x_social_trader.Runtime.{Runtime}
use x_social_trader.Settings.{Settings}
use x_social_trader.World.{in_session, World, Error, Result-cases}
use x_social_trader.Providers.{BrokerProvider}
use x_social_trader.Risk.Audit.{redis-validate}
use x_social_trader.Execution.{OrderExecutor, submit, insert_order, build_validation_context}
use x_social_trader.Execution.Attempt.{attempt, executor}
use x_social_trader.Rules.{RuleEvaluationRecord, evaluate}
use x_social_trader.Services.Worker.{Ending, finished, crashed}
use x_social_trader.Services.RulePipeline.{
  RulePipelineReport, counted, stopped, proposal, popped, persist_evaluations, try_submit, handle,
  drain_from, run_rule_pipeline, Progress, no_match, order_submitted, order_rejected,
}
use x_social_trader.Services.RulePipeline.Rounds.{
  round, session, halted, drained, missing, handled, broken,
}

-- What the counters of a report satisfy.
pub record IsBalanced (t : RulePipelineReport) : Type 0 where
  pub matches : t.matched ≡ t.submitted + t.rejected
  pub evaluations : t.matched ≤ t.evaluated

IsBalanced-counted :
    (p : Progress) (t : RulePipelineReport) → IsBalanced t → IsBalanced (counted p t)
IsBalanced-counted no_match t h = record {
  matches = h.matches;
  evaluations = omega (arith, h.evaluations);
}
IsBalanced-counted order_submitted t h = record {
  matches = omega (arith, h.matches);
  evaluations = omega (arith, h.evaluations);
}
IsBalanced-counted order_rejected t h = record {
  matches = omega (arith, h.matches);
  evaluations = omega (arith, h.evaluations);
}

IsBalanced-stopped :
    (reason : Option String) (t : RulePipelineReport) → IsBalanced t → IsBalanced (stopped reason t)
IsBalanced-stopped reason t h = record { matches = h.matches; evaluations = h.evaluations }

-- A run has ended with a balanced report or with an error.
pub data HasEnded {R : Type 0} : Ending R RulePipelineReport → Type 0 where
  reported : (t : RulePipelineReport) → IsBalanced t → HasEnded (finished t)
  failed_with : (e : Error R) → HasEnded (crashed e)

module _ {R : Type 0} ⦃py : Runtime R⦄ where
  redis-submit :
      (self : OrderExecutor R) (p : ProposedOrder R) (context : ValidationContext R) (w : World R)
      → (submit self p context w).1.redis ≡ w.redis
  unfolding submit insert_order
  redis-submit self p context w = ground (arith, redis-validate self.risk_manager p context w)

  redis-persist_evaluations :
      (event_id : String) (rs : List (RuleEvaluationRecord R)) (w : World R)
      → (persist_evaluations event_id rs w).redis ≡ w.redis
  unfolding persist_evaluations
  redis-persist_evaluations event_id [] w = refl
  redis-persist_evaluations event_id (r ∷ rs) w = redis-persist_evaluations event_id rs _

  redis-build_validation_context :
      (broker : BrokerProvider R) (given : Option ℕ) (peak : Option R) (pnl : R) (w : World R)
      → (build_validation_context broker given peak pnl w).1.redis ≡ w.redis
  unfolding build_validation_context
  redis-build_validation_context broker given peak pnl w = ground arith

module _ {R : Type 0} ⦃py : Runtime R⦄ (broker : BrokerProvider R) (settings : Settings R)
    (is_open_at : ℕ → Bool) (rules : List (RuleSpec R)) where
  redis-attempt :
      (p : ProposedOrder R) (w : World R)
      → (attempt broker settings is_open_at p w).1.redis ≡ w.redis
  unfolding attempt
  redis-attempt p w =
      let built = build_validation_context broker none none py.zero w in
      elim (Result-cases built.0) [
        | inl (context, e) ↦ ground (
          arith,
          e,
          redis-build_validation_context broker none none py.zero w,
          redis-submit (executor broker settings is_open_at) p context built.1,
        )
        | inr (x, e) ↦ ground (arith, e, redis-build_validation_context broker none none py.zero w)
      ]

  redis-handle :
      (row : Event R) (w : World R)
      → (handle broker settings is_open_at rules row w).1.redis ≡ w.redis
  unfolding handle try_submit
  redis-handle row w = elim (Result-cases (evaluate rules row)) [
    | inr (x, e) ↦ ground (arith, e)
    | inl (out, e) ↦ elim (Option-cases (proposal out)) [
      | inl f ↦ ground (arith, e, f, redis-persist_evaluations row.event_id out.evaluations w)
      | inr (p, f) ↦ ground (
        arith,
        e,
        f,
        redis-persist_evaluations row.event_id out.evaluations w,
        redis-attempt p (persist_evaluations row.event_id out.evaluations w),
      )
    ]
  ]

  pub queue-session :
      (row : Event R) (queue : List String) (w : World R)
      → (in_session (handle broker settings is_open_at rules row) (popped queue w)).1.redis.events
        ≡ queue
  unfolding in_session
  queue-session row queue w = ground (arith, redis-handle row (popped queue w))

  shorter :
      (event_id : String) (queue : List String) (w : World R) (n : ℕ)
      → w.redis.events ≡ event_id ∷ queue
      → length w.redis.events < suc n
      → length queue < n
  shorter event_id queue w n e h = ground (arith, e, h)

  abbrev Ends : Ending R RulePipelineReport × World R → Type 0
  Ends (e, w) = HasEnded e

  drain_from-HasEnded :
      (n : ℕ) (t : RulePipelineReport) (w : World R)
      → length w.redis.events < n
      → IsBalanced t
      → HasEnded (drain_from broker settings is_open_at rules n t w).0
  unfolding drain_from
  drain_from-HasEnded zero t w h b = absurd (omega arith)
  drain_from-HasEnded (suc n) t w h b = elim (round broker settings is_open_at rules n t w) [
    | halted a q ↦ subst Ends (sym q) (reported _ (IsBalanced-stopped _ t b))
    | drained a q ↦ subst Ends (sym q) (reported t b)
    | missing event_id queue e q ↦
        subst Ends (sym q)
          (drain_from-HasEnded n t (popped queue w) (shorter event_id queue w n e h) b)
    | handled event_id queue row p e f s q ↦ subst Ends (sym q) (
        drain_from-HasEnded n (counted p t) (session broker settings is_open_at rules row queue w).1
          (rw (queue-session row queue w) (shorter event_id queue w n e h))
          (IsBalanced-counted p t b))
    | broken event_id queue row x e f s q ↦ subst Ends (sym q) (failed_with x)
  ]

  -- With more fuel than the queue has messages, a run of the pipeline does not run out of it. It
  -- ends with an error that is not caught, or with a report in which the matched events are those
  -- that were submitted and those that were rejected, and no more than the evaluated ones.
  pub run_rule_pipeline-HasEnded :
      (fuel : ℕ) (w : World R)
      → length w.redis.events < fuel
      → HasEnded (run_rule_pipeline broker settings is_open_at rules fuel w).0
  unfolding run_rule_pipeline
  run_rule_pipeline-HasEnded fuel w h =
      drain_from-HasEnded fuel _ w h (record { matches = refl; evaluations = omega arith })
