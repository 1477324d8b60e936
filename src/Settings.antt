-- ===== src/Settings.antt =====
-- The fields of `Settings` on the trading mode, the kill switch and the risk manager
-- (backend/core/settings.py).
use x_social_trader.Base.{ℕ, String, str_eq, Bool, not, ◌&&◌, ℤ}

pub record Settings (R : Type 0) : Type 0 where
  pub trading_mode : String
  pub paper_trading : Bool
  pub kill_switch : ℕ
  pub max_capital_usd : R
  pub max_position_pct : R
  pub max_total_exposure_pct : R
  pub max_trades_per_day : ℤ
  pub max_daily_drawdown_pct : R
  pub allow_after_hours : Bool

-- `is_live_trading`
unfoldable pub is_live_trading : {R : Type 0} → Settings R → Bool
is_live_trading s = str_eq s.trading_mode "live" && not s.paper_trading
