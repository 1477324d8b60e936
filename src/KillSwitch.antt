-- ===== src/KillSwitch.antt =====
-- backend/kill_switch/service.py: the switch's three sources, its changes, and the helper that
-- trips it on a drawdown. The session and the Redis client of the service are the world's.
pub mod History
pub mod Agreement
use x_social_trader.Base.{
  ℕ, String, str_append, str_eq, Bool, true, false, ◌||◌, Option, none, some, List, [], ◌∷◌, map,
  ltb, is_some, strip, if◌then◌else◌,
}
use x_social_trader.Models.{KillSwitchTrigger, manual, drawdown, KillSwitchEvent}
use x_social_trader.Runtime.{Runtime}
use x_social_trader.World.{World, Redis, Db}
use x_social_trader.World.Tables.{next_id}

-- `KillSwitchState`
pub record KillSwitchState : Type 0 where
  pub active : Bool
  pub source : String

-- `(self._env_getter() or "").strip() in {"1", "true", "yes"}`
unfoldable pub env_on : Option String → Bool
env_on none = false
env_on (some s) = let t = strip s in str_eq t "1" || str_eq t "true" || str_eq t "yes"

-- the later of two rows, by id
later : KillSwitchEvent → Option KillSwitchEvent → KillSwitchEvent
later e none = e
later e (some f) = if ltb e.id f.id then f else e

-- `_latest_db_event`: ORDER BY id DESC LIMIT 1
unfoldable pub latest_db_event : List KillSwitchEvent → Option KillSwitchEvent
unfolding later
latest_db_event [] = none
latest_db_event (e ∷ es) = some (later e (latest_db_event es))

-- `latest is not None and latest.activated`
unfoldable pub db_active : List KillSwitchEvent → Bool
db_active es = elim (latest_db_event es) [ none ↦ false | some e ↦ e.activated ]

module _ {R : Type 0} where
  -- `_redis_flag`
  unfoldable pub redis_flag : World R → Bool
  redis_flag w = is_some w.redis.kill_flag

  unfoldable pub is_active : World R → KillSwitchState
  is_active w =
      if env_on w.env
      then record { active = true; source = "env" }
      else if redis_flag w
      then record { active = true; source = "redis" }
      else if db_active w.db.kill_switch_events
      then record { active = true; source = "db" }
      else record { active = false; source = "inactive" }

  -- `session.add` and `flush`: the row gets its primary key.
  unfoldable pub add_event :
      Bool → KillSwitchTrigger → String → Option String → World R → KillSwitchEvent
  add_event activated trigger actor reason w = record {
    id = next_id (map (λ (e : KillSwitchEvent). e.id) w.db.kill_switch_events);
    activated = activated;
    trigger = trigger;
    actor = actor;
    reason = reason;
  }

  unfoldable pub activate :
      KillSwitchTrigger → String → Option String → World R → KillSwitchEvent × World R
  unfolding add_event
  activate trigger actor reason w =
      let event = add_event true trigger actor reason w in
      let db : Db R = w.db in
      let redis : Redis R = w.redis in
      (
        event,
        record w {
          db = record db { kill_switch_events = event ∷ w.db.kill_switch_events };
          redis = record redis {
            kill_flag = some "1";
            published = "activated" ∷ w.redis.published;
          };
          kill_switch_activations_total = trigger ∷ w.kill_switch_activations_total;
        },
      )

  unfoldable pub deactivate : String → String → World R → KillSwitchEvent × World R
  unfolding add_event
  deactivate actor reason w =
      let event = add_event false manual actor (some reason) w in
      let db : Db R = w.db in
      let redis : Redis R = w.redis in
      (
        event,
        record w {
          db = record db { kill_switch_events = event ∷ w.db.kill_switch_events };
          redis = record redis { kill_flag = none; published = "deactivated" ∷ w.redis.published };
        },
      )

  module _ ⦃py : Runtime R⦄ where
    drawdown_reason : R → R → String
    drawdown_reason drawdown_pct threshold_pct = str_append "daily drawdown " (
        str_append (py.fixed2 drawdown_pct)
          (str_append "% breached threshold " (str_append (py.fixed2 threshold_pct) "% (KILL-05)")))

    unfoldable pub trigger_from_drawdown : R → R → World R → Option KillSwitchEvent × World R
    unfolding drawdown_reason
    trigger_from_drawdown drawdown_pct threshold_pct w =
        if py.lt drawdown_pct threshold_pct
        then (none, w)
        else let (event, w') =
            activate drawdown "risk_manager" (some (drawdown_reason drawdown_pct threshold_pct))
              w in
          (some event, w')
