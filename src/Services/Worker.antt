-- ===== src/Services/Worker.antt =====
-- How the workers of backend/services run: a run ends with its report, with an error that no
-- handler catches, or without fuel.
use x_social_trader.World.{Error}

pub data Ending (R T : Type 0) : Type 0 where
  finished : T → Ending R T
  crashed : Error R → Ending R T
  out_of_fuel : Ending R T
