-- ===== src/Examples/Switches.antt =====
-- The theorems on the kill switch at a concrete world.
use x_social_trader.Base.{◌≡◌, ◌⊎◌, true, false, none, some, List, [], ◌∷◌, ◌||◌}
use x_social_trader.Models.{manual, budget_llm, budget_twitterapi}
use x_social_trader.Runtime.Sample.{Sample, sample}
use x_social_trader.KillSwitch.{is_active, redis_flag, env_on, db_active}
use x_social_trader.KillSwitch.Agreement.{
  Operation, activate_op, deactivate_op, lose_key, run, armed, IsConsistent, active-run,
}
use x_social_trader.Services.Budget.{BudgetStatus, trigger_from_budget, trigger_from_llm_budget}
use x_social_trader.Services.Budget.Breach.{trigger_from_budget-active}
use x_social_trader.Api.{SwitchRequest, deactivate_request, handle}
use x_social_trader.Api.Switch.{Handled, handle-Handled}
use x_social_trader.Examples.{quiet, dollars}

-- An activation, a deactivation, another activation, and a restart of Redis.
abbrev history : List Operation
history =
    activate_op manual "operator" none
    ∷ deactivate_op "operator" "resume"
    ∷ activate_op manual "operator" none
    ∷ lose_key
    ∷ []

quiet-IsConsistent : IsConsistent quiet
unfolding redis_flag
quiet-IsConsistent h = absurd (cc h)

active-run_example :
    (is_active (run history quiet)).active
    ≡ (env_on (run history quiet).env || armed history (db_active quiet.db.kill_switch_events))
active-run_example = active-run history quiet quiet-IsConsistent

abbrev overspent : BudgetStatus Sample
overspent = record { period = "2026-01"; spend_usd = dollars 30; limit_usd = dollars 25 }

trigger_from_budget-active_example :
    let (fired, w') = trigger_from_budget overspent quiet in
    let (llm_fired, w'') = trigger_from_llm_budget overspent quiet in
    (fired ≡ sample.le overspent.limit_usd overspent.spend_usd)
    × (llm_fired ≡ sample.le overspent.limit_usd overspent.spend_usd)
    × (((sample.le overspent.limit_usd overspent.spend_usd ≡ false) × (w' ≡ quiet) × (w'' ≡ quiet))
        ⊎ ((sample.le overspent.limit_usd overspent.spend_usd ≡ true)
            × ((is_active w').active ≡ true)
            × ((is_active w'').active ≡ true)
            × (w'.kill_switch_activations_total
                ≡ budget_twitterapi ∷ quiet.kill_switch_activations_total)
            × (w''.kill_switch_activations_total
                ≡ budget_llm ∷ quiet.kill_switch_activations_total)))
trigger_from_budget-active_example = trigger_from_budget-active overspent quiet

-- A confirmed request to deactivate the switch, with a reason and from an unnamed caller.
abbrev some_request : SwitchRequest
some_request = deactivate_request (some "I-understand") none (some "resume")

handle-Handled_example : Handled quiet some_request (handle some_request quiet)
handle-Handled_example = handle-Handled some_request quiet
