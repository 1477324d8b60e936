-- ===== src/Services/RulePipeline/Rounds.antt =====
-- The ways that a round of the rule pipeline's loop goes.
use x_social_trader.Base.{
  ℕ, suc, ◌≡◌, inl, inr, String, str_append, Bool, true, some, List, [], ◌∷◌, arith, Bool-cases,
  List-cases, Option-cases,
}
use x_social_trader.Models.{Event, RuleSpec}
use x_social_trader.Runtime.{Runtime}
use x_social_trader.Settings.{Settings}
use x_social_trader.World.{in_session, World, Error, Result, returned, raised, Result-cases}
use x_social_trader.Providers.{BrokerProvider}
use x_social_trader.KillSwitch.{is_active}
use x_social_trader.Services.Worker.{Ending, finished, crashed}
use x_social_trader.Services.RulePipeline.{
  RulePipelineReport, counted, stopped, find_event, popped, handle, drain_from, Progress,
}

module _ {R : Type 0} ⦃py : Runtime R⦄ (broker : BrokerProvider R) (settings : Settings R)
    (is_open_at : ℕ → Bool) (rules : List (RuleSpec R)) where
  -- the session of an event, and the world after it
  abbrev pub session : Event R → List String → World R → Result R Progress × World R
  session row queue w = in_session (handle broker settings is_open_at rules row) (popped queue w)

  pub data Round (n : ℕ) (t : RulePipelineReport) (w : World R)
      (out : Ending R RulePipelineReport × World R) : Type 0 where
    halted :
        (is_active w).active ≡ true
        → out
          ≡ (finished (stopped (some (str_append "kill_switch_active:" (is_active w).source)) t), w)
        → Round n t w out
    drained : w.redis.events ≡ [] → out ≡ (finished t, w) → Round n t w out
    missing :
        (event_id : String) (queue : List String)
        → w.redis.events ≡ event_id ∷ queue
        → out ≡ drain_from broker settings is_open_at rules n t (popped queue w)
        → Round n t w out
    handled :
        (event_id : String) (queue : List String) (row : Event R) (p : Progress)
        → w.redis.events ≡ event_id ∷ queue
        → find_event event_id w.db.events ≡ some row
        → (session row queue w).0 ≡ returned p
        → out ≡ drain_from broker settings is_open_at rules n (counted p t) (session row queue w).1
        → Round n t w out
    broken :
        (event_id : String) (queue : List String) (row : Event R) (e : Error R)
        → w.redis.events ≡ event_id ∷ queue
        → find_event event_id w.db.events ≡ some row
        → (session row queue w).0 ≡ raised e
        → out ≡ (crashed e, (session row queue w).1)
        → Round n t w out

  pub round :
      (n : ℕ) (t : RulePipelineReport) (w : World R)
      → Round n t w (drain_from broker settings is_open_at rules (suc n) t w)
  unfolding drain_from
  round n t w = elim (Bool-cases (is_active w).active) [
    | inl a ↦ halted a (ground (arith, a))
    | inr a ↦ elim (List-cases w.redis.events) [
      | inl q ↦ drained q (ground (arith, a, q))
      | inr (event_id, queue, q) ↦ elim (Option-cases (find_event event_id w.db.events)) [
        | inl f ↦ missing event_id queue q (ground (arith, a, q, f))
        | inr (row, f) ↦ elim (Result-cases (session row queue w).0) [
          | inl (p, s) ↦ handled event_id queue row p q f s (ground (arith, a, q, f, s))
          | inr (e, s) ↦ broken event_id queue row e q f s (ground (arith, a, q, f, s))
        ]
      ]
    ]
  ]
