-- ===== src/Examples/Pipelines.antt =====
-- The theorems on the rule pipeline at a queue with one event, and on the positions.
use x_social_trader.Base.{◌≡◌, ◌⊎◌, none, some, List, [], ◌∷◌, arith}
use x_social_trader.Runtime.Sample.{Sample, sample}
use x_social_trader.World.{World, returned, raised, broker_error}
use x_social_trader.Models.{Position}
use x_social_trader.Services.Positions.{SyncReport, sync_positions}
use x_social_trader.Services.Positions.Mirror.{held, last_report, mirrored, sync_positions-mirrors}
use x_social_trader.Services.RulePipeline.{run_rule_pipeline}
use x_social_trader.Services.RulePipeline.Termination.{HasEnded, run_rule_pipeline-HasEnded}
use x_social_trader.Services.RulePipeline.Placement.{HasPlaced, run_rule_pipeline-HasPlaced}
use x_social_trader.Examples.{
  quiet, empty_redis, empty_db, some_event, some_broker, some_settings, never_open,
}
use x_social_trader.Examples.Signals.{rules}

abbrev queued : World Sample
queued = record quiet {
  redis = record empty_redis { events = "e1" ∷ [] };
  db = record empty_db { events = some_event ∷ [] };
}

run_rule_pipeline-HasEnded_example :
    HasEnded (run_rule_pipeline some_broker some_settings never_open rules 2 queued).0
run_rule_pipeline-HasEnded_example =
    run_rule_pipeline-HasEnded some_broker some_settings never_open rules 2 queued (omega arith)

run_rule_pipeline-HasPlaced_example :
    HasPlaced some_broker some_settings never_open rules queued
      (run_rule_pipeline some_broker some_settings never_open rules 2 queued).1
run_rule_pipeline-HasPlaced_example =
    run_rule_pipeline-HasPlaced some_broker some_settings never_open rules 2 queued

sync_positions-mirrors_example :
    let (r, w') = sync_positions some_broker quiet in
    ((reported : List (Position Sample)) × (t : SyncReport) × (some_broker.positions quiet.placed
        ≡ some reported)
      × (r ≡ returned t)
      × (held "AAPL" w'.db.positions
          ≡ mirrored (last_report "AAPL" reported) (held "AAPL" quiet.db.positions)))
    ⊎ ((some_broker.positions quiet.placed ≡ none) × (r ≡ raised broker_error) × (w' ≡ quiet))
sync_positions-mirrors_example = sync_positions-mirrors some_broker "AAPL" quiet
