-- ===== src/System/Safety.antt =====
-- What holds in every state that the machine reaches.
use x_social_trader.Base.{ℕ, Bool, ◌≡◌, ◌≢◌, ◌<◌, ◌||◌, true, none, List, Distinct}
use x_social_trader.Models.{RuleSpec, ValidatedOrder}
use x_social_trader.Runtime.{Runtime}
use x_social_trader.Settings.{Settings}
use x_social_trader.World.{World}
use x_social_trader.Providers.{BrokerProvider}
use x_social_trader.KillSwitch.{is_active, env_on, db_active}
use x_social_trader.KillSwitch.Agreement.{IsConsistent, active-of_consistent}
use x_social_trader.Execution.{limit_price_fits}
use x_social_trader.Execution.Attempt.{order_events}
use x_social_trader.Execution.Idempotency.{IsSynced, placed_events}
use x_social_trader.System.Growth.{Grows, Changes-Grows}
use x_social_trader.System.Soundness.{
  IsSound, Changes-IsSound, Changes-IsConsistent, Changes-IsSynced,
}
use x_social_trader.System.Machine.{Reach, Reach-Changes}

module _ {R : Type 0} ⦃py : Runtime R⦄ (broker : BrokerProvider R) (settings : Settings R)
    (is_open_at : ℕ → Bool) (Admits : RuleSpec R → Type 0) where
  abbrev Reaches : World R → World R → Type 0
  Reaches = Reach broker settings is_open_at Admits

  -- Whatever runs of the workers, requests, operations of the kill switch, fills and waits follow
  -- each other, the tables `raw_tweets`, `llm_decisions`, `events`, `rule_evaluations`, `orders`,
  -- `fills` and `kill_switch_events` keep every row as it was, and only get new ones.
  pub Reach-Grows : {w w' : World R} → Reaches w w' → Grows w.db w'.db
  Reach-Grows r = Changes-Grows broker Admits (Reach-Changes broker settings is_open_at Admits r)

  -- In every state that is reached from one where this holds: no tweet id stands twice in
  -- `raw_tweets` and no event id twice in `events`; the event of each order is in `events`, the
  -- decision and the tweet of each event are in `llm_decisions` and `raw_tweets`, and the tweet of
  -- each decision is in `raw_tweets`.
  pub Reach-IsSound : {w w' : World R} → Reaches w w' → IsSound w.db → IsSound w'.db
  Reach-IsSound r s =
      Changes-IsSound broker Admits (Reach-Changes broker settings is_open_at Admits r) s

  -- In every state that is reached from one where the Redis key is set only if the latest row of
  -- `kill_switch_events` is an activation, `is_active` reports active exactly if KILL_SWITCH is on or
  -- that latest row is an activation.
  pub active-Reach :
      {w w' : World R}
      → Reaches w w'
      → IsConsistent w
      → (is_active w').active ≡ (env_on w'.env || db_active w'.db.kill_switch_events)
  active-Reach {w} {w'} r h =
      active-of_consistent w'
        (Changes-IsConsistent broker Admits (Reach-Changes broker settings is_open_at Admits r) h)

  -- For a broker that raises on no order, and rules with a positive quantity and a limit price
  -- exactly if they place limit orders: in every state that is reached from one where this holds, no
  -- two orders that were given to the broker have the same event, and the table `orders` has exactly
  -- their events.
  pub placed_once-Reach :
      ((history : List (ValidatedOrder R)) (v : ValidatedOrder R) → broker.accept history v ≢ none)
      → ((r : RuleSpec R)
          → Admits r
          → (0 < r.action.quantity)
            × (limit_price_fits r.action.order_type r.action.limit_price ≡ true))
      → {w w' : World R} → Reaches w w'
      → IsSynced w
      → Distinct (placed_events w'.placed) × (placed_events w'.placed ≡ order_events w'.db.orders)
  placed_once-Reach accepts fits r s =
      let synced =
        Changes-IsSynced broker Admits accepts fits
          (Reach-Changes broker settings is_open_at Admits r) s in
      (rw synced.recorded synced.distinct, synced.recorded)
