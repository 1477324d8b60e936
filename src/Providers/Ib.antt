-- ===== src/Providers/Ib.antt =====
-- The client of the broker in backend/providers/ib.py. What the gateway of Interactive Brokers does
-- during a call is a parameter of the call.
pub mod Connection
use x_social_trader.Base.{
  ℕ, zero, suc, ◌+◌, ◌*◌, String, str_eq, Bool, true, false, ◌&&◌, not, Option, none, some, List,
  [], ◌∷◌, ℤ, contains, put, is_some, if◌then◌else◌,
}
use x_social_trader.Models.{ValidatedOrder, OrderReceipt, Position}
use x_social_trader.Runtime.{Runtime}

-- `connectAsync` succeeds at the attempt with that number, in time; the answers of the other methods
-- of `ib_insync.IB`, where `or []` has been applied.
pub record Gateway (R : Type 0) : Type 0 where
  pub connects : ℕ → Bool
  pub managed_accounts : List String
  pub is_connected : Bool
  -- tag and value
  pub account_summary : String → List (String × String)
  -- symbol, position and average cost
  pub positions : String → List (String × R × R)
  -- orderRef and orderId
  pub open_orders : List (String × ℤ)

-- `self`: the settings, and the accounts of the connection that `_ib` holds, `none` for None
pub record IbProvider : Type 0 where
  pub expected_account_id : String
  pub retry_max : ℕ
  pub held : Option (List String)

-- What a call leaves behind: the attempts to connect, the pauses in units of `retry_backoff`, the
-- newest first, and how often it disconnected.
pub record IbTrace : Type 0 where
  pub attempts : ℕ
  pub pauses : List ℕ
  pub disconnects : ℕ

-- A call returns, raises an `IBConnectionError`, a `NotImplementedError` or another error.
pub data IbResult {ℓ} (A : Type ℓ) : Type ℓ where
  returned : A → IbResult A
  connection_error not_implemented other_error : IbResult A

abbrev pub power_of_two : ℕ → ℕ
power_of_two zero = 1
power_of_two (suc n) = 2 * power_of_two n

module _ {R : Type 0} (gateway : Gateway R) where
  -- The loop of `connect`: the attempts that are left and the number of those before. Whether one
  -- succeeded.
  unfoldable pub try_connect : ℕ → ℕ → IbTrace → Bool × IbTrace
  try_connect zero attempt trace = (false, trace)
  try_connect (suc left) attempt trace =
      let tried = record trace { attempts = suc trace.attempts } in
      let rest =
        try_connect left (suc attempt)
          (record tried { pauses = power_of_two attempt ∷ trace.pauses }) in
      if gateway.connects attempt then (true, tried) else rest

  -- `connect` behind the loop: the accounts are checked.
  unfoldable pub check_account :
      Bool → IbProvider → IbTrace → IbResult (Unit {0}) × IbProvider × IbTrace
  check_account ok self trace =
      if not ok
      then (connection_error, self, trace)
      else if not (contains self.expected_account_id gateway.managed_accounts)
      then (connection_error, self, record trace { disconnects = suc trace.disconnects })
      else (returned tt, record self { held = some gateway.managed_accounts }, trace)

  -- `connect`
  unfoldable pub connect : IbProvider → IbTrace → IbResult (Unit {0}) × IbProvider × IbTrace
  connect self trace =
      let (ok, trace') = try_connect self.retry_max 0 trace in check_account ok self trace'

  -- `disconnect`
  unfoldable pub disconnect : IbProvider → IbTrace → IbProvider × IbTrace
  disconnect self trace = (
    record self { held = none },
    if is_some self.held && gateway.is_connected
        then record trace { disconnects = suc trace.disconnects }
        else trace,
  )

  -- `_require_connected`, before a call
  abbrev pub required {ℓ} : {A : Type ℓ} → IbProvider → IbResult A → IbResult A
  required self result =
      if is_some self.held && gateway.is_connected then result else connection_error

-- the list of `get_open_orders` at the time `now`
unfoldable pub receipts_of : {R : Type 0} → Runtime R → ℕ → List (String × ℤ) → List OrderReceipt
receipts_of py now [] = []
receipts_of py now ((order_ref, order_id) ∷ raw) =
    record {
      idempotency_key = if str_eq order_ref "" then py.show_int order_id else order_ref;
      external_id = py.show_int order_id;
      submitted_at = now;
    }
    ∷ receipts_of py now raw

module _ {R : Type 0} ⦃py : Runtime R⦄ where
  -- the loop of `get_account_summary`, with the dict so far; values that are no numbers are skipped
  unfoldable pub summary_from : List (String × String) → List (String × R) → List (String × R)
  summary_from [] result = result
  summary_from ((tag, value) ∷ items) result = elim (py.of_text value) [
    | none ↦ summary_from items result
    | some x ↦ summary_from items (put tag x result)
  ]

  -- the list of `get_positions`, `none` when `int` of a position raises
  unfoldable pub positions_of : List (String × R × R) → Option (List (Position R))
  positions_of [] = some []
  positions_of ((symbol, position, cost) ∷ raw) = elim (py.int_of_float position) [
    | none ↦ none
    | some n ↦ elim (positions_of raw) [
      | none ↦ none
      | some rest ↦ some (record { symbol = symbol; quantity = n; avg_price_usd = cost } ∷ rest)
    ]
  ]

  module _ (gateway : Gateway R) (self : IbProvider) where
    unfoldable pub get_account_summary : IbResult (List (String × R))
    unfolding summary_from
    get_account_summary =
        required gateway self
          (returned (summary_from (gateway.account_summary self.expected_account_id) []))

    unfoldable pub get_positions : IbResult (List (Position R))
    unfolding positions_of
    get_positions =
        required gateway self (elim (positions_of (gateway.positions self.expected_account_id)) [
          | none ↦ other_error
          | some ps ↦ returned ps
        ])

    unfoldable pub get_open_orders : ℕ → IbResult (List OrderReceipt)
    unfolding receipts_of
    get_open_orders now = required gateway self (returned (receipts_of py now gateway.open_orders))

-- `IBProvider.place_order` and `cancel_all` do nothing yet.
abbrev pub refuse_order : {R : Type 0} → ValidatedOrder R → IbResult OrderReceipt
refuse_order order = not_implemented

abbrev pub cancel_all : IbResult (Unit {0})
cancel_all = not_implemented
