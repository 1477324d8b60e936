-- ===== src/Examples/Orders.antt =====
-- The theorems on `submit` at concrete orders.
use x_social_trader.Base.{
  ◌≡◌, ◌≢◌, ◌⊎◌, inl, refl, true, false, none, List, [], ◌∷◌, arith, Distinct,
}
use x_social_trader.Models.{ok, failures, ValidatedOrder, live, manual}
use x_social_trader.Runtime.Sample.{Sample, sample}
use x_social_trader.Settings.{is_live_trading}
use x_social_trader.World.{
  returned, raised, kill_switch_active, live_mode_not_permitted, submission_rejected,
  integrity_error, Error,
}
use x_social_trader.KillSwitch.{is_active, env_on, redis_flag, db_active, latest_db_event}
use x_social_trader.KillSwitch.Agreement.{activate_op}
use x_social_trader.Risk.{validate}
use x_social_trader.Risk.Admission.{Admissible, ok-validate_iff}
use x_social_trader.Execution.{submit, validated_order, joined_reasons, SubmissionResult}
use x_social_trader.Execution.Gates.{Cleared, placed-submit}
use x_social_trader.Execution.Outcome.{submit_refusals, submit_unpersisted, judged}
use x_social_trader.Execution.Recording.{HasSubmitted, submit_records}
use x_social_trader.Execution.Attempt.{order_events}
use x_social_trader.Execution.Idempotency.{
  Move, submission, switch, wait, moves, IsSynced, IsWellFormed, placed_events, placed_once,
}
use x_social_trader.Examples.{
  quiet, some_executor, some_order, priced_order, some_context, some_receipt, some_settings,
  some_broker, never_open,
}

quiet-off : (is_active quiet).active ≡ false
unfolding is_active env_on redis_flag db_active latest_db_event
quiet-off = refl

pub some_order-Admissible : Admissible some_settings never_open some_order some_context
some_order-Admissible = record {
  size = refl;
  exposure = refl;
  trades = refl;
  drawdown = refl;
  session = inl refl;
  event = tt;
  key = tt;
}

some_order-Cleared : Cleared some_executor some_order some_context quiet
some_order-Cleared = record {
  off = quiet-off;
  mode = inl refl;
  verdict =
      (ok-validate_iff some_settings never_open some_order some_context quiet).1
        some_order-Admissible;
}

priced_order-Admissible : Admissible some_settings never_open priced_order some_context
priced_order-Admissible = record {
  size = refl;
  exposure = refl;
  trades = refl;
  drawdown = refl;
  session = inl refl;
  event = tt;
  key = tt;
}

priced_order-Cleared : Cleared some_executor priced_order some_context quiet
priced_order-Cleared = record {
  off = quiet-off;
  mode = inl refl;
  verdict =
      (ok-validate_iff some_settings never_open priced_order some_context quiet).1
        priced_order-Admissible;
}

placed-submit_example :
    ((submit some_executor some_order some_context quiet).1.placed ≡ quiet.placed)
    ⊎ (((submit some_executor some_order some_context quiet).1.placed
          ≡ validated_order some_order ∷ quiet.placed)
        × Cleared some_executor some_order some_context quiet)
placed-submit_example = placed-submit some_executor some_order some_context quiet

submit_refusals_example :
    (((is_active quiet).active ≡ true)
      × (submit some_executor some_order some_context quiet
          ≡ (raised (kill_switch_active (is_active quiet).source), quiet)))
    ⊎ (((is_active quiet).active ≡ false)
        × (some_order.trading_mode ≡ live)
        × (is_live_trading some_executor.settings ≡ false)
        × (submit some_executor some_order some_context quiet
            ≡ (raised live_mode_not_permitted, quiet)))
    ⊎ (((is_active quiet).active ≡ false)
        × (let v = (validate some_executor.risk_manager some_order some_context quiet).0 in
            (ok v ≡ false)
            × (submit some_executor some_order some_context quiet ≡ (
              raised (submission_rejected (joined_reasons (failures v)) v),
              judged some_executor some_order some_context quiet,
            ))))
    ⊎ (Cleared some_executor some_order some_context quiet
        × ((submit some_executor some_order some_context quiet).1.placed
            ≡ validated_order some_order ∷ quiet.placed))
submit_refusals_example = submit_refusals some_executor some_order some_context quiet

submit_records_example :
    let (r, w') = submit some_executor some_order some_context quiet in
    ((out : SubmissionResult Sample) × (r ≡ returned out)
      × HasSubmitted some_executor some_order some_context quiet w' out)
    ⊎ ((x : Error Sample) × (r ≡ raised x)
        × (w'.db.orders ≡ quiet.db.orders)
        × (w'.orders_submitted_total ≡ quiet.orders_submitted_total))
submit_records_example = submit_records some_executor some_order some_context quiet

submit_unpersisted_example :
    let (r, w') = submit some_executor priced_order some_context quiet in
    (r ≡ raised integrity_error)
    × (w'.placed ≡ validated_order priced_order ∷ quiet.placed)
    × (w'.db.orders ≡ quiet.db.orders)
submit_unpersisted_example =
    submit_unpersisted some_executor priced_order some_context quiet some_receipt
      priced_order-Cleared refl refl

-- The same order twice, with a pause, an activation of the kill switch, and a third attempt.
abbrev some_moves : List (Move Sample)
some_moves =
    submission some_order
    ∷ wait 5
    ∷ submission some_order
    ∷ switch (activate_op manual "operator" none)
    ∷ submission some_order
    ∷ []

some_order-IsWellFormed : IsWellFormed some_order
some_order-IsWellFormed = record { positive = omega arith; priced = refl }

pub quiet-IsSynced : IsSynced quiet
quiet-IsSynced = record { recorded = refl; distinct = tt }

pub accepts_all :
    (history : List (ValidatedOrder Sample)) (v : ValidatedOrder Sample)
    → some_broker.accept history v ≢ none
accepts_all history v h = cc h

placed_once_example :
    let w' = moves some_broker some_settings never_open some_moves quiet in
    Distinct (placed_events w'.placed) × (placed_events w'.placed ≡ order_events w'.db.orders)
placed_once_example =
    placed_once some_broker some_settings never_open accepts_all some_moves quiet
      (
        some_order-IsWellFormed,
        (tt, (some_order-IsWellFormed, (tt, (some_order-IsWellFormed, tt)))),
      )
      quiet-IsSynced
