-- ===== src/System/Changes.antt =====
-- The elementary changes of the shared state: a row added to a table, a message, an order given to
-- the broker, an operation of the kill switch. What every worker does is a sequence of these.
use mathlib.Core.List.{Mem}
use x_social_trader.Base.{◌≡◌, ◌≢◌, ◌⊎◌, List, ◌∷◌, ◌++◌, map, ℕ, ◌<◌, none, true, Absent}
use x_social_trader.Models.{
  RawTweetRow, LlmDecisionRow, Event, RuleEvaluation, Order, FillRow, PositionRow, RuleSpec,
  ValidatedOrder,
}
use x_social_trader.World.{World, Db}
use x_social_trader.Providers.{BrokerProvider}
use x_social_trader.KillSwitch.Agreement.{Operation, apply}
use x_social_trader.Execution.{limit_price_fits, validated_order}
use x_social_trader.Execution.Attempt.{order_events}
use x_social_trader.Rules.{build_proposed_order}
use x_social_trader.Services.Ingestion.Durability.{tweet_ids}
use x_social_trader.Services.LlmPipeline.Effects.{event_ids}

-- The keys that other tables refer to.
abbrev pub tweet_keys : List RawTweetRow → List ℕ
tweet_keys = map (λ r. r.id)

abbrev pub decision_keys : {R : Type 0} → List (LlmDecisionRow R) → List ℕ
decision_keys = map (λ d. d.id)

module _ {R : Type 0} where
  -- The tables become `db`; the orders given to the broker and the Redis flag stay.
  pub record Wrote (w : World R) (db : Db R) (w' : World R) : Type 0 where
    pub tables : w'.db ≡ db
    pub placed : w'.placed ≡ w.placed
    pub flag : w'.redis.kill_flag ≡ w.redis.kill_flag

  -- Why an order that was given to the broker can be without a row: the broker raised, or the row
  -- violates a constraint of the table.
  abbrev pub IsUnrecordable : BrokerProvider R → List (ValidatedOrder R) → ValidatedOrder R → Type 0
  IsUnrecordable broker history v =
      (broker.accept history v ≡ none)
      ⊎ (0 < v.quantity → limit_price_fits v.order_type v.limit_price ≢ true)

module _ {R : Type 0} (broker : BrokerProvider R) (Admits : RuleSpec R → Type 0) where
  pub data Change (w w' : World R) : Type 0 where
    messaged : Wrote w w.db w' → Change w w'
    switched : (o : Operation) → w' ≡ apply o w → Change w w'
    tweet_added :
        (row : RawTweetRow)
        → Absent row.tweet_id (tweet_ids w.db.raw_tweets)
        → (let db : Db R = w.db in Wrote w (record db { raw_tweets = row ∷ w.db.raw_tweets }) w')
        → Change w w'
    decision_added :
        (d : LlmDecisionRow R)
        → Mem d.raw_tweet_id (tweet_keys w.db.raw_tweets)
        → (let db : Db R = w.db in
            Wrote w (record db { llm_decisions = d ∷ w.db.llm_decisions }) w')
        → Change w w'
    event_added :
        (e : Event R)
        → Absent e.event_id (event_ids w.db.events)
        → Mem e.raw_tweet_id (tweet_keys w.db.raw_tweets)
        → Mem e.llm_decision_id (decision_keys w.db.llm_decisions)
        → (let db : Db R = w.db in Wrote w (record db { events = e ∷ w.db.events }) w')
        → Change w w'
    evaluations_added :
        (rows : List (RuleEvaluation R))
        → (let db : Db R = w.db in
            Wrote w (record db { rule_evaluations = rows ++ w.db.rule_evaluations }) w')
        → Change w w'
    fill_added :
        (f : FillRow R)
        → (let db : Db R = w.db in Wrote w (record db { fills = f ∷ w.db.fills }) w')
        → Change w w'
    positions_set :
        (rows : List (PositionRow R))
        → (let db : Db R = w.db in Wrote w (record db { positions = rows }) w')
        → Change w w'
    ordered :
        (v : ValidatedOrder R) (row : Order R)
        → v.event_id ≡ row.event_id
        → Absent row.event_id (order_events w.db.orders)
        → Mem row.event_id (event_ids w.db.events)
        → (let db : Db R = w.db in w'.db ≡ record db { orders = row ∷ w.db.orders })
        → w'.placed ≡ v ∷ w.placed
        → w'.redis.kill_flag ≡ w.redis.kill_flag
        → Change w w'
    sent :
        (rule : RuleSpec R) (event : Event R)
        → Admits rule
        → IsUnrecordable broker w.placed (validated_order (build_proposed_order rule event))
        → w'.db ≡ w.db
        → w'.placed ≡ validated_order (build_proposed_order rule event) ∷ w.placed
        → w'.redis.kill_flag ≡ w.redis.kill_flag
        → Change w w'

  pub data Changes (w : World R) : World R → Type 0 where
    here : Changes w w
    next : {u u' : World R} → Changes w u → Change u u' → Changes w u'

module _ {R : Type 0} {broker : BrokerProvider R} {Admits : RuleSpec R → Type 0} where
  pub Changes-trans :
      {w u u' : World R}
      → Changes broker Admits w u
      → Changes broker Admits u u'
      → Changes broker Admits w u'
  Changes-trans a here = a
  Changes-trans a (next b c) = next (Changes-trans a b) c

  pub Changes-one : {w u : World R} → Change broker Admits w u → Changes broker Admits w u
  Changes-one c = next here c
