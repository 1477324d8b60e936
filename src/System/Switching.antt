-- ===== src/System/Switching.antt =====
-- What trips or resets the kill switch, as changes: the budgets, the drawdown helper and the API.
use x_social_trader.Base.{◌≡◌, refl, ◌⊎◌, inl, inr, Bool-cases, not, str_eq, String, Option}
use x_social_trader.Models.{RuleSpec, KillSwitchTrigger}
use x_social_trader.Runtime.{Runtime}
use x_social_trader.World.{World}
use x_social_trader.Providers.{BrokerProvider}
use x_social_trader.KillSwitch.{trigger_from_drawdown, activate, deactivate}
use x_social_trader.KillSwitch.Agreement.{
  Operation, activate_op, deactivate_op, apply, apply-activate, apply-deactivate,
}
use x_social_trader.Services.Budget.{
  BudgetStatus, over_budget, trigger_from_budget, trigger_from_llm_budget,
}
use x_social_trader.Api.{
  SwitchRequest, activate_request, deactivate_request, handle, is_confirmed, header_or,
}
use x_social_trader.System.Changes.{Change, messaged, switched}

-- A step that leaves the state, or is one operation of the switch.
abbrev pub Switches : {R : Type 0} → World R → World R → Type 0
Switches w w' = (w' ≡ w) ⊎ ((o : Operation) × (w' ≡ apply o w))

module _ {R : Type 0} where
  pub Switches-Change :
      (broker : BrokerProvider R) (Admits : RuleSpec R → Type 0) {w w' : World R}
      → Switches w w'
      → Change broker Admits w w'
  Switches-Change broker Admits (inl e) =
      messaged (rw e (record { tables = refl; placed = refl; flag = refl }))
  Switches-Change broker Admits (inr (o, e)) = switched o e

  Switches-activate :
      (t : KillSwitchTrigger) (a : String) (r : Option String) (w : World R)
      → Switches w (activate t a r w).1
  Switches-activate t a r w = inr (activate_op t a r, apply-activate t a r w)

  Switches-deactivate : (a r : String) (w : World R) → Switches w (deactivate a r w).1
  Switches-deactivate a r w = inr (deactivate_op a r, apply-deactivate a r w)

  pub Switches-handle : (request : SwitchRequest) (w : World R) → Switches w (handle request w).1
  unfolding handle
  Switches-handle (activate_request x_actor reason) w = Switches-activate _ _ _ w
  Switches-handle (deactivate_request x_confirm x_actor reason) w =
      elim (Bool-cases (not (is_confirmed x_confirm))) [
        | inl e ↦ rw e (inl refl)
        | inr e ↦ elim (Bool-cases (str_eq (header_or "" reason) "")) [
          | inl f ↦ rw (e, f) (inl refl)
          | inr f ↦ rw (e, f) (Switches-deactivate _ _ w)
        ]
      ]

module _ {R : Type 0} ⦃py : Runtime R⦄ where
  pub Switches-trigger_from_budget :
      (s : BudgetStatus R) (w : World R) → Switches w (trigger_from_budget s w).1
  unfolding trigger_from_budget
  Switches-trigger_from_budget s w = elim (Bool-cases (over_budget s)) [
    | inl e ↦ rw e (Switches-activate _ _ _ w)
    | inr e ↦ rw e (inl refl)
  ]

  pub Switches-trigger_from_llm_budget :
      (s : BudgetStatus R) (w : World R) → Switches w (trigger_from_llm_budget s w).1
  unfolding trigger_from_llm_budget
  Switches-trigger_from_llm_budget s w = elim (Bool-cases (over_budget s)) [
    | inl e ↦ rw e (Switches-activate _ _ _ w)
    | inr e ↦ rw e (inl refl)
  ]

  pub Switches-trigger_from_drawdown :
      (d t : R) (w : World R) → Switches w (trigger_from_drawdown d t w).1
  unfolding trigger_from_drawdown
  Switches-trigger_from_drawdown d t w = elim (Bool-cases (py.lt d t)) [
    | inl e ↦ rw e (inl refl)
    | inr e ↦ rw e (Switches-activate _ _ _ w)
  ]
