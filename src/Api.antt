-- ===== src/Api.antt =====
-- The handlers of backend/api/kill_switch.py and admin_rules.py, the readiness probe of health.py and
-- the startup in main.py. Headers are what FastAPI passes on, `none` for a missing one; a session is
-- committed at the end of a handler.
pub mod Switch
use x_social_trader.Base.{
  ℕ, String, str_append, str_eq, Bool, true, false, ◌&&◌, not, Option, none, some, List, [], ◌∷◌,
  map, length, ℤ, is_some, if◌then◌else◌,
}
use x_social_trader.Models.{KillSwitchEvent, manual, RuleSpec}
use x_social_trader.World.{World}
use x_social_trader.KillSwitch.{KillSwitchState, is_active, activate, deactivate}
use x_social_trader.Rules.{
  RuleFile, RuleLoadError, LoadFailure, rule_load_error, unreadable_file, Loaded, loaded,
  load_error, RuleStore, reload,
}

-- What a handler returns, an `HTTPException`, or another error that escapes it.
pub data Response {ℓ} (A : Type ℓ) : Type ℓ where
  answered : A → Response A
  http_error : ℕ → String → Response A
  unhandled : Response A

-- the answer to a change of the switch
pub record SwitchAnswer : Type 0 where
  pub active : Bool
  pub source : String
  pub event_id : ℕ

-- The requests that change the switch, with the headers X-Actor and X-Reason, and X-Confirm first.
pub data SwitchRequest : Type 0 where
  activate_request : Option String → Option String → SwitchRequest
  deactivate_request : Option String → Option String → Option String → SwitchRequest

-- the default of a missing header
abbrev pub header_or : String → Option String → String
header_or default none = default
header_or default (some s) = s

abbrev pub is_confirmed : Option String → Bool
is_confirmed none = false
is_confirmed (some s) = str_eq s "I-understand"

module _ {R : Type 0} where
  -- `GET /kill-switch`
  abbrev pub switch_status : World R → KillSwitchState
  switch_status w = is_active w

  -- `activate` and `deactivate`
  unfoldable pub handle : SwitchRequest → World R → Response SwitchAnswer × World R
  handle (activate_request x_actor reason) w =
      let (event, w') = activate manual (header_or "anonymous" x_actor) reason w in
      (answered (record { active = true; source = "db"; event_id = event.id }), w')
  handle (deactivate_request x_confirm x_actor reason) w =
      let (event, w') = deactivate (header_or "anonymous" x_actor) (header_or "" reason) w in
      if not (is_confirmed x_confirm)
      then (http_error 400 "Deactivation requires header `X-Confirm: I-understand`", w)
      else if str_eq (header_or "" reason) ""
      then (http_error 400 "Deactivation requires a non-empty `X-Reason` header", w)
      else (answered (record { active = false; source = "db"; event_id = event.id }), w')

-- `app.state.rule_store`: nothing, an object of another type, or a store
pub data StoreSlot (R : Type 0) : Type 0 where
  no_store other_object : StoreSlot R
  store_in : RuleStore R → StoreSlot R

pub record RuleSummary : Type 0 where
  pub id : String
  pub priority : ℤ
  pub enabled : Bool
  pub description : String

-- `except RuleLoadError`
abbrev pub refused : (RuleLoadError → String) → LoadFailure → Response ℕ
refused text (rule_load_error e) = http_error 400 (text e)
refused text (unreadable_file name) = unhandled

module _ {R : Type 0} where
  -- `get_rule_store`
  unfoldable pub get_rule_store : StoreSlot R → Response (RuleStore R)
  get_rule_store no_store = http_error 503 "rule store not initialised"
  get_rule_store other_object = http_error 500 "app.state.rule_store has unexpected type"
  get_rule_store (store_in store) = answered store

  abbrev pub summary_of : RuleSpec R → RuleSummary
  summary_of r = record {
    id = r.id;
    priority = r.priority;
    enabled = r.enabled;
    description = r.description;
  }

  -- `list_rules`: the count and the rules
  unfoldable pub list_rules : StoreSlot R → Response (ℕ × List RuleSummary)
  unfolding get_rule_store
  list_rules slot = elim (get_rule_store slot) [
    | http_error status detail ↦ http_error status detail
    | unhandled ↦ unhandled
    | answered store ↦ answered (length store.rules, map summary_of store.rules)
  ]

  -- `reload_rules`: the count, with `str` of a `RuleLoadError` as a parameter
  unfoldable pub reload_rules :
      (RuleLoadError → String) → Option (List (RuleFile R)) → StoreSlot R → Response ℕ × StoreSlot R
  reload_rules text directory no_store = (http_error 503 "rule store not initialised", no_store)
  reload_rules text directory other_object =
      (http_error 500 "app.state.rule_store has unexpected type", other_object)
  reload_rules text directory (store_in store) =
      let (result, store') = reload directory store in
      (
        elim result [ loaded count ↦ answered count | load_error e ↦ refused text e ],
        store_in store',
      )

  -- `with suppress(RuleLoadError)`: another error ends the startup.
  abbrev pub started : Loaded ℕ × RuleStore R → Option (StoreSlot R)
  started (load_error (unreadable_file name), store) = none
  started (_, store) = some (store_in store)

  -- `lifespan` until it yields: a directory that does not load leaves the store empty.
  unfoldable pub startup : Option (List (RuleFile R)) → Option (StoreSlot R)
  startup directory = started (reload directory (record { rules = [] }))

-- `ready`: the checks and the status; the database check fails with the name of an exception.
unfoldable pub ready : Option String → Bool → ℕ × List (String × String)
ready db_failure redis_pings =
    let db = elim db_failure as (λ _. String) [
      | none ↦ "ok"
      | some name ↦ str_append "fail: " name
    ] in
    let redis : String = if redis_pings then "ok" else "fail" in
    (if str_eq db "ok" && str_eq redis "ok" then 200 else 503, ("db", db) ∷ ("redis", redis) ∷ [])
