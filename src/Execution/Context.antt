-- ===== src/Execution/Context.antt =====
-- backend/execution/context.py
use x_social_trader.Base.{
  ℕ, ◌+◌, ◌-◌, ◌%◌, ◌&&◌, Option, none, some, List, map, keep, length, nat_abs, ltb, leb, lookup,
}
use x_social_trader.Models.{ValidationContext, Position, Order}
use x_social_trader.Runtime.{Runtime}
use x_social_trader.World.{Action, ◌>>=◌, ◌>>◌, gets, raise_if, pure, context_unusable}
use x_social_trader.Providers.{BrokerProvider, answer}

-- the microseconds of a day
abbrev pub day_length : ℕ
day_length = 86_400_000_000

abbrev pub or_else {ℓ} : {A : Type ℓ} → Option A → A → A
or_else none a = a
or_else (some b) a = b

-- The orders with `midnight_utc <= created_at < next_midnight`, for the day of an instant.
abbrev pub trades_on : {R : Type 0} → ℕ → List (Order R) → ℕ
trades_on now orders =
    let midnight = now - now % day_length in
    let next_midnight = midnight + day_length in
    length (keep (λ o. leb midnight o.created_at && ltb o.created_at next_midnight) orders)

module _ {R : Type 0} ⦃py : Runtime R⦄ where
  -- `sum(abs(p.quantity) * p.avg_price_usd for p in positions)`
  abbrev pub exposure_of : List (Position R) → R
  exposure_of positions =
      py.sum (map (λ (p : Position R). py.mul_int (nat_abs p.quantity) p.avg_price_usd) positions)

  unfoldable pub build_validation_context :
      BrokerProvider R → Option ℕ → Option R → R → Action R (ValidationContext R)
  build_validation_context broker given daily_peak_usd daily_pnl_usd = do
    now ← gets (λ w. or_else given w.now)
    summary ← (λ w. answer (broker.account_summary w.placed) w)
    let capital = or_else (lookup "NetLiquidation" summary) py.zero
    raise_if (py.le capital py.zero) context_unusable
    positions ← (λ w. answer (broker.positions w.placed) w)
    orders ← gets (λ w. w.db.orders)
    pure (record {
      now = now;
      account_capital_usd = capital;
      total_exposure_usd = exposure_of positions;
      trades_today = trades_on now orders;
      daily_pnl_usd = daily_pnl_usd;
      daily_peak_usd = or_else daily_peak_usd capital;
      seen_event_ids = map (λ (o : Order R). o.event_id) orders;
      seen_idempotency_keys = map (λ (o : Order R). o.idempotency_key) orders;
    })
