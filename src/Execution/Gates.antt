-- ===== src/Execution/Gates.antt =====
-- What must hold before an order reaches the broker.
use x_social_trader.Base.{◌≡◌, ◌⊎◌, true, false, ◌∷◌, arith}
use x_social_trader.Models.{ProposedOrder, ValidationContext, ok, paper}
use x_social_trader.Runtime.{Runtime}
use x_social_trader.Settings.{is_live_trading}
use x_social_trader.World.{World}
use x_social_trader.KillSwitch.{is_active}
use x_social_trader.Risk.{validate}
use x_social_trader.Risk.Audit.{placed-validate}
use x_social_trader.Execution.Executor.{OrderExecutor, submit, validated_order}

module _ {R : Type 0} ⦃py : Runtime R⦄ (self : OrderExecutor R) (p : ProposedOrder R)
    (context : ValidationContext R) where
  -- What a placement needs: the switch is off, a live order is permitted, the risk manager agrees.
  pub record Cleared (w : World R) : Type 0 where
    pub off : (is_active w).active ≡ false
    pub mode : (p.trading_mode ≡ paper) ⊎ (is_live_trading self.settings ≡ true)
    pub verdict : ok (validate self.risk_manager p context w).0 ≡ true

  -- One call of `submit` leaves the orders given to the broker as they were, or adds exactly the
  -- proposed order, and the latter only if the kill switch is off, the order is on paper or live
  -- trading is permitted, and the risk manager passed it.
  pub placed-submit :
      (w : World R)
      → ((submit self p context w).1.placed ≡ w.placed)
        ⊎ (((submit self p context w).1.placed ≡ validated_order p ∷ w.placed) × Cleared w)
  unfolding submit
  placed-submit w = ground (arith, placed-validate self.risk_manager p context w)
