-- ===== src/System/Soundness.antt =====
-- What every change of the shared state keeps.
use mathlib.Core.List.{Mem, mem-cons_of_mem}
use x_social_trader.Base.{
  ◌≡◌, ◌≢◌, ◌<◌, sym, inl, inr, refl, true, none, List, [], ◌∷◌, All, Distinct, arith,
}
use x_social_trader.Models.{LlmDecisionRow, Event, Order, RuleSpec, ValidatedOrder}
use x_social_trader.World.{World, Db}
use x_social_trader.Providers.{BrokerProvider}
use x_social_trader.KillSwitch.{redis_flag}
use x_social_trader.KillSwitch.Agreement.{
  Operation, apply, IsConsistent, apply-IsConsistent, other_tables-apply, placed-apply,
  orders-apply,
}
use x_social_trader.Execution.{limit_price_fits}
use x_social_trader.Execution.Idempotency.{IsSynced, IsSynced-same, IsSynced-added}
use x_social_trader.Services.Ingestion.Durability.{tweet_ids}
use x_social_trader.Services.LlmPipeline.Effects.{event_ids}
use x_social_trader.System.Changes.{
  Change, Changes, here, next, messaged, switched, tweet_added, decision_added, event_added,
  evaluations_added, fill_added, positions_set, ordered, sent, Wrote, tweet_keys, decision_keys,
}

module _ {R : Type 0} where
  -- The audit trail can be followed back: an order's event, an event's decision and tweet, and a
  -- decision's tweet are in their tables.
  pub record IsTraced (db : Db R) : Type 0 where
    pub decisions :
        All
          (λ (d : LlmDecisionRow R). Mem d.raw_tweet_id (tweet_keys db.raw_tweets))
          db.llm_decisions
    pub tweets : All (λ (e : Event R). Mem e.raw_tweet_id (tweet_keys db.raw_tweets)) db.events
    pub causes :
        All (λ (e : Event R). Mem e.llm_decision_id (decision_keys db.llm_decisions)) db.events
    pub orders : All (λ (o : Order R). Mem o.event_id (event_ids db.events)) db.orders

  -- No tweet and no event stands twice, and the trail can be followed back.
  pub record IsSound (db : Db R) : Type 0 where
    pub distinct_tweets : Distinct (tweet_ids db.raw_tweets)
    pub distinct_events : Distinct (event_ids db.events)
    pub traced : IsTraced db

  -- The tables that soundness does not read.
  IsSound-of :
      {a b : Db R}
      → a.raw_tweets ≡ b.raw_tweets
      → a.llm_decisions ≡ b.llm_decisions
      → a.events ≡ b.events
      → a.orders ≡ b.orders
      → IsSound a
      → IsSound b
  IsSound-of t d e o s = record {
    distinct_tweets = rw (sym t) s.distinct_tweets;
    distinct_events = rw (sym e) s.distinct_events;
    traced = record {
      decisions = rw (sym t, sym d) s.traced.decisions;
      tweets = rw (sym t, sym e) s.traced.tweets;
      causes = rw (sym d, sym e) s.traced.causes;
      orders = rw (sym e, sym o) s.traced.orders;
    };
  }

All-weaken {ℓ κ} :
    {A : Type ℓ} {P Q : A → Type κ} → ((a : A) → P a → Q a) → (xs : List A) → All P xs → All Q xs
All-weaken f [] h = tt
All-weaken f (x ∷ xs) h = (f x h.0, All-weaken f xs h.1)

module _ {R : Type 0} where
  IsSound-apply : (o : Operation) (w : World R) → IsSound w.db → IsSound (apply o w).db
  IsSound-apply o w s = rw (other_tables-apply o w) (IsSound-of refl refl refl refl s)

  -- The Redis flag and the switch's table stay, so the switch stays consistent.
  IsConsistent-of :
      (w w' : World R)
      → w'.db.kill_switch_events ≡ w.db.kill_switch_events
      → w'.redis.kill_flag ≡ w.redis.kill_flag
      → IsConsistent w
      → IsConsistent w'
  unfolding redis_flag
  IsConsistent-of w w' t f h = ground (arith, t, f, h)

  IsSynced-of :
      {w w' : World R} {db : Db R}
      → Wrote w db w'
      → db.orders ≡ w.db.orders
      → IsSynced w
      → IsSynced w'
  IsSynced-of {w} {w'} k e s = IsSynced-same w w' k.placed (rw k.tables e) s

  module _ (broker : BrokerProvider R) (Admits : RuleSpec R → Type 0) where
    abbrev C : World R → World R → Type 0
    C = Change broker Admits

    Change-IsSound : {w w' : World R} → C w w' → IsSound w.db → IsSound w'.db
    Change-IsSound (messaged h) s = rw h.tables s
    Change-IsSound {w} (switched o e) s = rw e (IsSound-apply o w s)
    Change-IsSound {w} (tweet_added row new h) s = rw h.tables (record {
      distinct_tweets = (new, s.distinct_tweets);
      distinct_events = s.distinct_events;
      traced = record {
        decisions =
            All-weaken (λ d m. mem-cons_of_mem row.id m) w.db.llm_decisions s.traced.decisions;
        tweets = All-weaken (λ e m. mem-cons_of_mem row.id m) w.db.events s.traced.tweets;
        causes = s.traced.causes;
        orders = s.traced.orders;
      };
    })
    Change-IsSound {w} (decision_added d m h) s = rw h.tables (record {
      distinct_tweets = s.distinct_tweets;
      distinct_events = s.distinct_events;
      traced = record {
        decisions = (m, s.traced.decisions);
        tweets = s.traced.tweets;
        causes = All-weaken (λ e c. mem-cons_of_mem d.id c) w.db.events s.traced.causes;
        orders = s.traced.orders;
      };
    })
    Change-IsSound {w} (event_added e new t c h) s = rw h.tables (record {
      distinct_tweets = s.distinct_tweets;
      distinct_events = (new, s.distinct_events);
      traced = record {
        decisions = s.traced.decisions;
        tweets = (t, s.traced.tweets);
        causes = (c, s.traced.causes);
        orders = All-weaken (λ o m. mem-cons_of_mem e.event_id m) w.db.orders s.traced.orders;
      };
    })
    Change-IsSound (evaluations_added rows h) s = rw h.tables (IsSound-of refl refl refl refl s)
    Change-IsSound (fill_added f h) s = rw h.tables (IsSound-of refl refl refl refl s)
    Change-IsSound (positions_set rows h) s = rw h.tables (IsSound-of refl refl refl refl s)
    Change-IsSound (ordered v row _ _ m e _ _) s = rw e (record {
      distinct_tweets = s.distinct_tweets;
      distinct_events = s.distinct_events;
      traced = record {
        decisions = s.traced.decisions;
        tweets = s.traced.tweets;
        causes = s.traced.causes;
        orders = (m, s.traced.orders);
      };
    })
    Change-IsSound (sent rule event _ _ e _ _) s = rw e s

    pub Changes-IsSound :
        {w w' : World R} → Changes broker Admits w w' → IsSound w.db → IsSound w'.db
    Changes-IsSound here s = s
    Changes-IsSound (next a c) s = Change-IsSound c (Changes-IsSound a s)

    Change-IsConsistent : {w w' : World R} → C w w' → IsConsistent w → IsConsistent w'
    Change-IsConsistent {w} (switched o e) h = rw e (apply-IsConsistent o w h)
    Change-IsConsistent (messaged k) h = IsConsistent-of _ _ (rw k.tables) k.flag h
    Change-IsConsistent (tweet_added _ _ k) h = IsConsistent-of _ _ (rw k.tables) k.flag h
    Change-IsConsistent (decision_added _ _ k) h = IsConsistent-of _ _ (rw k.tables) k.flag h
    Change-IsConsistent (event_added _ _ _ _ k) h = IsConsistent-of _ _ (rw k.tables) k.flag h
    Change-IsConsistent (evaluations_added _ k) h = IsConsistent-of _ _ (rw k.tables) k.flag h
    Change-IsConsistent (fill_added _ k) h = IsConsistent-of _ _ (rw k.tables) k.flag h
    Change-IsConsistent (positions_set _ k) h = IsConsistent-of _ _ (rw k.tables) k.flag h
    Change-IsConsistent (ordered _ _ _ _ _ t _ f) h = IsConsistent-of _ _ (rw t) f h
    Change-IsConsistent (sent _ _ _ _ t _ f) h = IsConsistent-of _ _ (rw t) f h

    pub Changes-IsConsistent :
        {w w' : World R} → Changes broker Admits w w' → IsConsistent w → IsConsistent w'
    Changes-IsConsistent here h = h
    Changes-IsConsistent (next a c) h = Change-IsConsistent c (Changes-IsConsistent a h)

    module _
        (accepts : (history : List (ValidatedOrder R)) (v : ValidatedOrder R)
          → broker.accept history v ≢ none)
        (fits : (r : RuleSpec R)
          → Admits r
          → (0 < r.action.quantity)
            × (limit_price_fits r.action.order_type r.action.limit_price ≡ true)) where
      Change-IsSynced : {w w' : World R} → C w w' → IsSynced w → IsSynced w'
      Change-IsSynced {w} {w'} (switched o e) s =
          rw e (IsSynced-same w (apply o w) (placed-apply o w) (orders-apply o w) s)
      Change-IsSynced (messaged k) s = IsSynced-of k refl s
      Change-IsSynced (tweet_added _ _ k) s = IsSynced-of k refl s
      Change-IsSynced (decision_added _ _ k) s = IsSynced-of k refl s
      Change-IsSynced (event_added _ _ _ _ k) s = IsSynced-of k refl s
      Change-IsSynced (evaluations_added _ k) s = IsSynced-of k refl s
      Change-IsSynced (fill_added _ k) s = IsSynced-of k refl s
      Change-IsSynced (positions_set _ k) s = IsSynced-of k refl s
      Change-IsSynced {w} {w'} (ordered v row same new _ t p _) s =
          IsSynced-added v row w w' p (rw t) same new s
      Change-IsSynced {w} (sent rule event a (inl refused) _ _ _) s = absurd (accepts _ _ refused)
      Change-IsSynced {w} (sent rule event a (inr violated) _ _ _) s =
          absurd (violated (fits rule a).0 (fits rule a).1)

      pub Changes-IsSynced :
          {w w' : World R} → Changes broker Admits w w' → IsSynced w → IsSynced w'
      Changes-IsSynced here s = s
      Changes-IsSynced (next a c) s = Change-IsSynced c (Changes-IsSynced a s)
