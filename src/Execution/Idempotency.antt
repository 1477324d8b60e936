-- ===== src/Execution/Idempotency.antt =====
-- INV-6: an event gives at most one order.
use x_social_trader.Base.{
  ℕ, ◌+◌, ◌<◌, ◌≡◌, ◌≢◌, inl, inr, refl, String, Bool, true, none, List, [], ◌∷◌, map, All, Absent,
  Distinct, Option-cases,
}
use x_social_trader.Models.{ProposedOrder, ValidationContext, ValidatedOrder, Order}
use x_social_trader.Runtime.{Runtime}
use x_social_trader.Settings.{Settings}
use x_social_trader.World.{World}
use x_social_trader.Providers.{BrokerProvider}
use x_social_trader.KillSwitch.Agreement.{Operation, apply, placed-apply, orders-apply}
use x_social_trader.Risk.{idempotency_key}
use x_social_trader.Risk.Admission.{ok-validate_iff}
use x_social_trader.Execution.Executor.{submit, validated_order, order_row, limit_price_fits}
use x_social_trader.Execution.Gates.{Cleared}
use x_social_trader.Execution.Attempt.{
  order_events, order_keys, executor, attempt, attempt-cases, submit-cases, key_taken-Absent,
}

abbrev pub placed_events : {R : Type 0} → List (ValidatedOrder R) → List String
placed_events = map (λ o. o.event_id)

-- Every proposed order of the table has another event, and the orders given to the broker are, by
-- their events, those of the table.
pub record IsSynced {R : Type 0} (w : World R) : Type 0 where
  pub recorded : placed_events w.placed ≡ order_events w.db.orders
  pub distinct : Distinct (order_events w.db.orders)

pub IsSynced-same :
    {R : Type 0} (w u : World R)
    → u.placed ≡ w.placed
    → u.db.orders ≡ w.db.orders
    → IsSynced w
    → IsSynced u
IsSynced-same w u p o s = record { recorded = rw (p, o) s.recorded; distinct = rw o s.distinct }

pub IsSynced-added :
    {R : Type 0} (v : ValidatedOrder R) (row : Order R) (w u : World R)
    → u.placed ≡ v ∷ w.placed
    → u.db.orders ≡ row ∷ w.db.orders
    → v.event_id ≡ row.event_id
    → Absent row.event_id (order_events w.db.orders)
    → IsSynced w
    → IsSynced u
IsSynced-added v row w u p o e new s = record {
  recorded = rw (p, o) (cc (s.recorded, e));
  distinct = rw o (new, s.distinct);
}

-- The constraints of the table `orders` that no earlier check covers.
pub record IsWellFormed {R : Type 0} (p : ProposedOrder R) : Type 0 where
  pub positive : 0 < p.quantity
  pub priced : limit_price_fits p.order_type p.limit_price ≡ true

-- What happens over time: an attempt to submit an order, an operation of the kill switch, and time
-- that passes.
pub data Move (R : Type 0) : Type 0 where
  submission : ProposedOrder R → Move R
  switch : Operation → Move R
  wait : ℕ → Move R

abbrev pub Fits : {R : Type 0} → Move R → Type 0
Fits (submission p) = IsWellFormed p
Fits _ = Unit

module _ {R : Type 0} ⦃py : Runtime R⦄ (broker : BrokerProvider R) (settings : Settings R)
    (is_open_at : ℕ → Bool) where
  pub move : Move R → World R → World R
  move (submission p) w = (attempt broker settings is_open_at p w).1
  move (switch o) w = apply o w
  move (wait n) w = record w { now = w.now + n }

  pub moves : List (Move R) → World R → World R
  moves [] w = w
  moves (m ∷ ms) w = moves ms (move m w)

  -- An order that reaches the broker has a new event and a new key.
  pub Cleared-new :
      (p : ProposedOrder R) (context : ValidationContext R) (w : World R)
      → Cleared (executor broker settings is_open_at) p context w
      → Absent p.event_id context.seen_event_ids
        × Absent (idempotency_key p.event_id p.strategy_id) context.seen_idempotency_keys
  unfolding executor
  Cleared-new p context w c =
      let a = (ok-validate_iff settings is_open_at p context w).0 c.verdict in (a.event, a.key)

  submit-IsSynced :
      (p : ProposedOrder R) (context : ValidationContext R) (w : World R)
      → ((history : List (ValidatedOrder R)) (v : ValidatedOrder R)
          → broker.accept history v ≢ none)
      → IsWellFormed p
      → context.seen_event_ids ≡ order_events w.db.orders
      → context.seen_idempotency_keys ≡ order_keys w.db.orders
      → IsSynced w
      → IsSynced (submit (executor broker settings is_open_at) p context w).1
  unfolding executor
  submit-IsSynced p context w accepts fits events keys s =
      elim (submit-cases (executor broker settings is_open_at) p context w) [
        | inl (placed, orders) ↦
            IsSynced-same w (submit (executor broker settings is_open_at) p context w).1 placed
              orders s
        | inr (cleared, placed, recorded) ↦
            let (new_event, new_key) = Cleared-new p context w cleared in
            let key_free =
              key_taken-Absent (idempotency_key p.event_id p.strategy_id) w.db.orders
                (rw keys at new_key) in
            elim (Option-cases (broker.accept w.placed (validated_order p))) [
              | inl refused ↦ absurd (accepts w.placed (validated_order p) refused)
              | inr (receipt, accepted) ↦
                  IsSynced-added (validated_order p) (order_row p receipt w) w
                    (submit (executor broker settings is_open_at) p context w).1 placed
                    (recorded receipt accepted key_free fits.positive fits.priced) refl
                    (rw events at new_event) s
            ]
      ]

  module _
      (accepts : (history : List (ValidatedOrder R)) (v : ValidatedOrder R)
        → broker.accept history v ≢ none) where
    attempt-IsSynced :
        (p : ProposedOrder R) (w : World R)
        → IsWellFormed p
        → IsSynced w
        → IsSynced (attempt broker settings is_open_at p w).1
    attempt-IsSynced p w fits s = elim (attempt-cases broker settings is_open_at p w) [
      | inl same ↦ rw same s
      | inr (context, e, events, keys) ↦
          rw e (submit-IsSynced p context w accepts fits events keys s)
    ]

    move-IsSynced : (m : Move R) (w : World R) → Fits m → IsSynced w → IsSynced (move m w)
    unfolding move
    move-IsSynced (submission p) w f s = attempt-IsSynced p w f s
    move-IsSynced (switch o) w f s =
        IsSynced-same w (apply o w) (placed-apply o w) (orders-apply o w) s
    move-IsSynced (wait n) w f s = IsSynced-same w (record w { now = w.now + n }) refl refl s

    moves-IsSynced :
        (ms : List (Move R)) (w : World R) → All Fits ms → IsSynced w → IsSynced (moves ms w)
    unfolding moves
    moves-IsSynced [] w f s = s
    moves-IsSynced (m ∷ ms) w f s = moves-IsSynced ms (move m w) f.1 (move-IsSynced m w f.0 s)

    -- Over any sequence of attempts to submit orders, operations of the kill switch and passing
    -- time, no two orders that were given to the broker have the same event, and the table `orders`
    -- has exactly their events. This holds for a broker that raises on no order, for proposed
    -- orders with a positive quantity and a limit price exactly if they are limit orders, and from a
    -- world in which it holds.
    pub placed_once :
        (ms : List (Move R)) (w : World R)
        → All Fits ms
        → IsSynced w
        → Distinct (placed_events (moves ms w).placed)
          × (placed_events (moves ms w).placed ≡ order_events (moves ms w).db.orders)
    placed_once ms w f s =
        let synced = moves-IsSynced ms w f s in
        (rw synced.recorded synced.distinct, synced.recorded)
