-- ===== src/KillSwitch/Agreement.antt =====
-- What the three sources of the kill switch say together, over any sequence of its operations.
use x_social_trader.Base.{
  ℕ, String, ◌≡◌, refl, Bool, true, false, ◌||◌, Option, none, some, List, [], ◌∷◌, ◌++◌, arith,
  ◌⊎◌, is_some, ◌+◌, ap, sym, ◌∙◌, length, length-append,
}
use mathlib.Core.List.{append_assoc}
use x_social_trader.Models.{KillSwitchTrigger, KillSwitchEvent}
use x_social_trader.Runtime.{Runtime}
use x_social_trader.World.{World, Redis, Db}
use x_social_trader.KillSwitch.{
  env_on, redis_flag, db_active, is_active, activate, deactivate, add_event, trigger_from_drawdown,
}
use x_social_trader.KillSwitch.History.{db_active-add}

-- The operations of the service, the loss of the Redis key (an eviction, a restart of Redis), and a
-- change of the variable KILL_SWITCH.
pub data Operation : Type 0 where
  activate_op : KillSwitchTrigger → String → Option String → Operation
  deactivate_op : String → String → Operation
  lose_key : Operation
  set_env : Option String → Operation

-- The switch as its users think of it: armed by an activation until the next deactivation.
abbrev pub armed_after : Operation → Bool → Bool
armed_after (activate_op _ _ _) b = true
armed_after (deactivate_op _ _) b = false
armed_after _ b = b

abbrev pub armed : List Operation → Bool → Bool
armed [] b = b
armed (o ∷ os) b = armed os (armed_after o b)

-- How many rows an operation, or a sequence of them, adds to `kill_switch_events`.
abbrev pub rows_of : Operation → ℕ
rows_of (activate_op _ _ _) = 1
rows_of (deactivate_op _ _) = 1
rows_of _ = 0

abbrev pub rows : List Operation → ℕ
rows [] = 0
rows (o ∷ os) = rows_of o + rows os

module _ {R : Type 0} where
  pub apply : Operation → World R → World R
  apply (activate_op t a r) w = (activate t a r w).1
  apply (deactivate_op a r) w = (deactivate a r w).1
  apply lose_key w =
      let redis : Redis R = w.redis in record w { redis = record redis { kill_flag = none } }
  apply (set_env v) w = record w { env = v }

  pub run : List Operation → World R → World R
  run [] w = w
  run (o ∷ os) w = run os (apply o w)

  pub apply-activate :
      (t : KillSwitchTrigger) (a : String) (r : Option String) (w : World R)
      → (activate t a r w).1 ≡ apply (activate_op t a r) w
  unfolding apply
  apply-activate t a r w = refl

  pub apply-deactivate :
      (a r : String) (w : World R) → (deactivate a r w).1 ≡ apply (deactivate_op a r) w
  unfolding apply
  apply-deactivate a r w = refl

  -- The Redis key is set only while the table says active.
  abbrev pub IsConsistent : World R → Type 0
  IsConsistent w = redis_flag w ≡ true → db_active w.db.kill_switch_events ≡ true

  apply-db_active :
      (o : Operation) (w : World R)
      → db_active (apply o w).db.kill_switch_events
        ≡ armed_after o (db_active w.db.kill_switch_events)
  unfolding apply activate deactivate
  apply-db_active (activate_op t a r) w = db_active-add true t a r w
  apply-db_active (deactivate_op a r) w = db_active-add false _ a (some r) w
  apply-db_active lose_key w = refl
  apply-db_active (set_env v) w = refl

  pub apply-IsConsistent : (o : Operation) (w : World R) → IsConsistent w → IsConsistent (apply o w)
  unfolding apply activate deactivate redis_flag
  apply-IsConsistent (activate_op t a r) w h k = db_active-add true t a r w
  apply-IsConsistent (deactivate_op a r) w h k = cc
  apply-IsConsistent lose_key w h k = cc
  apply-IsConsistent (set_env v) w h k = h k

  -- In a consistent world the switch is active if the variable or the table says so.
  pub active-of_consistent :
      (w : World R)
      → IsConsistent w
      → (is_active w).active ≡ (env_on w.env || db_active w.db.kill_switch_events)
  unfolding is_active
  active-of_consistent w h = ground arith

  pub run-IsConsistent :
      (os : List Operation) (w : World R) → IsConsistent w → IsConsistent (run os w)
  unfolding run
  run-IsConsistent [] w h = h
  run-IsConsistent (o ∷ os) w h = run-IsConsistent os (apply o w) (apply-IsConsistent o w h)

  run-db_active :
      (os : List Operation) (w : World R)
      → db_active (run os w).db.kill_switch_events ≡ armed os (db_active w.db.kill_switch_events)
  unfolding run
  run-db_active [] w = refl
  run-db_active (o ∷ os) w = cc (run-db_active os (apply o w), apply-db_active o w)

  -- From a world in which the Redis key is set only if the latest row of the table is an activation,
  -- and after any sequence of activations, deactivations, losses of the Redis key and changes of
  -- KILL_SWITCH, `is_active` reports active exactly if KILL_SWITCH is on or the last activation has
  -- not been followed by a deactivation.
  pub active-run :
      (os : List Operation) (w : World R)
      → IsConsistent w
      → (is_active (run os w)).active
        ≡ (env_on (run os w).env || armed os (db_active w.db.kill_switch_events))
  active-run os w h =
      cc (active-of_consistent (run os w) (run-IsConsistent os w h), run-db_active os w)

  -- The operations do not touch the orders.
  pub placed-apply : (o : Operation) (w : World R) → (apply o w).placed ≡ w.placed
  unfolding apply activate deactivate
  placed-apply (activate_op t a r) w = refl
  placed-apply _ w = refl

  pub orders-apply : (o : Operation) (w : World R) → (apply o w).db.orders ≡ w.db.orders
  unfolding apply activate deactivate
  orders-apply (activate_op t a r) w = refl
  orders-apply _ w = refl

  pub apply-history :
      (o : Operation) (w : World R)
      → (new : List KillSwitchEvent) × ((apply o w).db.kill_switch_events
          ≡ new ++ w.db.kill_switch_events)
        × (length new ≡ rows_of o)
  unfolding apply activate deactivate
  apply-history (activate_op t a r) w = (add_event true t a r w ∷ [], refl, refl)
  apply-history (deactivate_op a r) w = (add_event false _ a (some r) w ∷ [], refl, refl)
  apply-history lose_key w = ([], refl, refl)
  apply-history (set_env v) w = ([], refl, refl)

  -- The other tables stay.
  pub other_tables-apply :
      (o : Operation) (w : World R)
      → let db : Db R = w.db in
        (apply o w).db ≡ record db { kill_switch_events = (apply o w).db.kill_switch_events }
  unfolding apply activate deactivate
  other_tables-apply (activate_op t a r) w = refl
  other_tables-apply (deactivate_op a r) w = refl
  other_tables-apply lose_key w = refl
  other_tables-apply (set_env v) w = refl

  -- Any sequence of operations only adds rows to `kill_switch_events`, one for each activation and
  -- each deactivation, and keeps every earlier row as it was.
  run-history :
      (os : List Operation) (w : World R)
      → (new : List KillSwitchEvent) × ((run os w).db.kill_switch_events
          ≡ new ++ w.db.kill_switch_events)
        × (length new ≡ rows os)
  unfolding run
  run-history [] w = ([], refl, refl)
  run-history (o ∷ os) w =
      let (first, e, n) = apply-history o w in
      let (later, f, m) = run-history os (apply o w) in
      (
        later ++ first,
        f ∙ ap (λ es. later ++ es) e ∙ sym (append_assoc later first w.db.kill_switch_events),
        omega (arith, length-append later first),
      )

module _ {R : Type 0} ⦃py : Runtime R⦄ where
  -- `trigger_from_drawdown` leaves the world as it is and returns no event if the drawdown is below
  -- the threshold. Otherwise, also if one of the two is a NaN, it returns an event and the switch is
  -- active afterwards.
  trigger_from_drawdown-active :
      (d t : R) (w : World R)
      → let (event, w') = trigger_from_drawdown d t w in
        ((py.lt d t ≡ true) × (event ≡ none) × (w' ≡ w))
        ⊎ ((py.lt d t ≡ false) × (is_some event ≡ true) × ((is_active w').active ≡ true))
  unfolding trigger_from_drawdown is_active activate redis_flag
  trigger_from_drawdown-active d t w = ground arith
