-- ===== src/World.antt =====
-- The state that the components share: the environment, Redis, the database as the current session
-- sees it, what was sent to the broker, and the business counters (backend/core/metrics.py).
-- Tables, queues' messages and logs are lists; tables and logs have the newest entry first, queues
-- the entry that is popped next.
pub mod Tables
use x_social_trader.Base.{ℕ, String, ◌≡◌, refl, ◌⊎◌, inl, inr, Bool, Option, List, if◌then◌else◌}
use x_social_trader.Models.{
  Event, RuleEvaluation, Order, KillSwitchEvent, RawTweetRow, LlmDecisionRow, PositionRow, AliasRow,
  FillRow, RawTweet, ValidatedOrder, TradingMode, KillSwitchTrigger, ValidationResult,
}

pub record Redis (R : Type 0) : Type 0 where
  -- the key `kill_switch:active`, and the messages published on the channel `kill_switch`
  pub kill_flag : Option String
  pub published : List String
  -- the lists `raw_tweets` and `events`
  pub raw_tweets : List String
  pub events : List String
  -- the counters that INCRBYFLOAT keeps
  pub spend : List (String × R)

pub record Db (R : Type 0) : Type 0 where
  pub raw_tweets : List RawTweetRow
  pub llm_decisions : List (LlmDecisionRow R)
  pub events : List (Event R)
  pub rule_evaluations : List (RuleEvaluation R)
  pub orders : List (Order R)
  pub kill_switch_events : List KillSwitchEvent
  pub positions : List (PositionRow R)
  pub aliases : List AliasRow
  pub fills : List (FillRow R)

pub record World (R : Type 0) : Type 0 where
  -- the variable KILL_SWITCH, and the time
  pub env : Option String
  pub now : ℕ
  pub redis : Redis R
  pub db : Db R
  -- every order that `broker.place_order` was called with
  pub placed : List (ValidatedOrder R)
  -- every tweet that `provider.analyze` was called with
  pub analyzed : List RawTweet
  -- one entry for each increment of `orders_submitted_total` and `kill_switch_activations_total`
  pub orders_submitted_total : List TradingMode
  pub kill_switch_activations_total : List KillSwitchTrigger

-- What a call raises.
pub data Error (R : Type 0) : Type 0 where
  -- `KillSwitchActiveError`, `LiveModeNotPermittedError`, `SubmissionRejected`: the three kinds of
  -- `SubmissionRejected` that `submit` raises
  kill_switch_active : String → Error R
  live_mode_not_permitted : Error R
  submission_rejected : String → ValidationResult R → Error R
  -- `ValidationContextError`
  context_unusable : Error R
  -- what the broker raises, and the database on a violated constraint
  broker_error : Error R
  -- what the LLM provider raises
  llm_error : Error R
  integrity_error : Error R
  -- `TypeError`, `ValueError`, `OverflowError`
  type_error value_error overflow_error : Error R

pub data Result {ℓ} (R : Type 0) (A : Type ℓ) : Type ℓ where
  returned : A → Result R A
  raised : Error R → Result R A

-- To split on how a call ended.
pub Result-cases {ℓ} :
    {R : Type 0} {A : Type ℓ} (r : Result R A)
    → ((a : A) × (r ≡ returned a)) ⊎ ((e : Error R) × (r ≡ raised e))
Result-cases (returned a) = inl (a, refl)
Result-cases (raised e) = inr (e, refl)

-- A call that changes the world; what was written before a raise stays written.
abbrev pub Action : Type 0 → Type 0 → Type 0
Action R A = World R → Result R A × World R

module _ {R A : Type 0} where
  abbrev pub pure : A → Action R A
  pure a w = (returned a, w)

  abbrev pub raise : Error R → Action R A
  raise e w = (raised e, w)

infixl 5 ◌>>=◌ ◌>>◌
abbrev pub ◌>>=◌ : {R A B : Type 0} → Action R A → (A → Action R B) → Action R B
◌>>=◌ m f w = let (r, w') = m w in elim r [ returned a ↦ f a w' | raised e ↦ raise e w' ]

abbrev pub ◌>>◌ : {R A B : Type 0} → Action R A → Action R B → Action R B
m >> k = m >>= λ _. k

abbrev pub gets : {R A : Type 0} → (World R → A) → Action R A
gets f w = (returned (f w), w)

abbrev pub modify : {R : Type 0} → (World R → World R) → Action R (Unit {0})
modify f w = (returned tt, f w)

abbrev pub raise_if : {R : Type 0} → Bool → Error R → Action R (Unit {0})
raise_if b e w = (if b then raised e else returned tt, w)

-- a session: it is committed when the call returns, and rolled back when it raises
unfoldable pub in_session : {R A : Type 0} → Action R A → Action R A
in_session act w =
    let (r, w') = act w in (r, elim r [ returned a ↦ w' | raised e ↦ record w' { db = w.db } ])
