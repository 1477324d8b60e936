-- ===== src/Providers/Ib/Connection.antt =====
-- How `connect` ends.
use x_social_trader.Base.{
  ℕ, zero, suc, ◌+◌, ◌<◌, ◌≡◌, inl, inr, refl, ap, subst, Bool, true, false, some, ◌∷◌, arith,
  contains, Bool-cases,
}
use x_social_trader.Providers.Ib.{
  Gateway, IbProvider, IbTrace, IbResult, returned, connection_error, power_of_two, try_connect,
  check_account, connect,
}

module _ {R : Type 0} (gateway : Gateway R) where
  -- How a loop over `left` attempts ends: at the first one that succeeds, or after all of them.
  pub data Attempted (left attempt : ℕ) (trace : IbTrace) : Bool → IbTrace → Type 0 where
    reached :
        (n : ℕ) {trace' : IbTrace}
        → n < left
        → gateway.connects (attempt + n) ≡ true
        → ((i : ℕ) → i < n → gateway.connects (attempt + i) ≡ false)
        → trace'.attempts ≡ trace.attempts + suc n
        → trace'.disconnects ≡ trace.disconnects
        → Attempted left attempt trace true trace'
    failed :
        {trace' : IbTrace}
        → ((i : ℕ) → i < left → gateway.connects (attempt + i) ≡ false)
        → trace'.attempts ≡ trace.attempts + left
        → trace'.disconnects ≡ trace.disconnects
        → Attempted left attempt trace false trace'

  abbrev paused : ℕ → IbTrace → IbTrace
  paused attempt trace = record trace {
    attempts = suc trace.attempts;
    pauses = power_of_two attempt ∷ trace.pauses;
  }

  later_attempts :
      (n attempt : ℕ)
      → gateway.connects attempt ≡ false
      → ((i : ℕ) → i < n → gateway.connects (suc attempt + i) ≡ false)
      → (i : ℕ) → i < suc n
      → gateway.connects (attempt + i) ≡ false
  later_attempts n attempt f h zero l = subst (λ k. gateway.connects k ≡ false) (omega arith) f
  later_attempts n attempt f h (suc i) l =
      subst (λ k. gateway.connects k ≡ false) (omega arith) (h i (omega (arith, l)))

  Attempted-again :
      (left attempt : ℕ) (trace : IbTrace) (b : Bool) (trace' : IbTrace)
      → gateway.connects attempt ≡ false
      → Attempted left (suc attempt) (paused attempt trace) b trace'
      → Attempted (suc left) attempt trace b trace'
  Attempted-again left attempt trace true trace' f (reached n l c h a d) =
      reached (suc n) (omega (arith, l)) (subst (λ k. gateway.connects k ≡ true) (omega arith) c)
        (later_attempts n attempt f h) (omega (arith, a)) d
  Attempted-again left attempt trace false trace' f (failed h a d) =
      failed (later_attempts left attempt f h) (omega (arith, a)) d

  try_connect-Attempted :
      (left attempt : ℕ) (trace : IbTrace)
      → let (ok, trace') = try_connect gateway left attempt trace in
        Attempted left attempt trace ok trace'
  unfolding try_connect
  try_connect-Attempted zero attempt trace = failed (λ i l. ground (arith, l)) (omega arith) refl
  try_connect-Attempted (suc left) attempt trace = elim (Bool-cases (gateway.connects attempt)) [
    | inl c ↦ rw c (
        reached 0 (omega arith) (subst (λ k. gateway.connects k ≡ true) (omega arith) c)
          (λ i l. ground (arith, l)) (omega arith) refl)
    | inr c ↦ rw c (
        Attempted-again left attempt trace _ _ c
          (try_connect-Attempted left (suc attempt) (paused attempt trace)))
  ]

  -- How `connect` ends: the loop reached the gateway and the expected account is managed by it; it
  -- is not, and the connection was closed; or no attempt succeeded.
  pub data Connects (self : IbProvider) (trace : IbTrace)
      : IbResult (Unit {0}) × IbProvider × IbTrace → Type 0 where
    verified :
        (n : ℕ) {trace' : IbTrace}
        → n < self.retry_max
        → gateway.connects n ≡ true
        → ((i : ℕ) → i < n → gateway.connects i ≡ false)
        → contains self.expected_account_id gateway.managed_accounts ≡ true
        → trace'.attempts ≡ trace.attempts + suc n
        → trace'.disconnects ≡ trace.disconnects
        → Connects self trace
            (returned tt, record self { held = some gateway.managed_accounts }, trace')
    wrong_account :
        {trace' : IbTrace}
        → contains self.expected_account_id gateway.managed_accounts ≡ false
        → trace'.disconnects ≡ suc trace.disconnects
        → Connects self trace (connection_error, self, trace')
    unreachable :
        {trace' : IbTrace}
        → ((i : ℕ) → i < self.retry_max → gateway.connects i ≡ false)
        → trace'.attempts ≡ trace.attempts + self.retry_max
        → trace'.disconnects ≡ trace.disconnects
        → Connects self trace (connection_error, self, trace')

  at_zero : (b : Bool) (n : ℕ) → gateway.connects (0 + n) ≡ b → gateway.connects n ≡ b
  at_zero b n = subst (λ k. gateway.connects k ≡ b) (omega arith)

  check_account-Connects :
      (self : IbProvider) (trace : IbTrace) (ok : Bool) (trace' : IbTrace)
      → Attempted self.retry_max 0 trace ok trace'
      → Connects self trace (check_account gateway ok self trace')
  unfolding check_account
  check_account-Connects self trace true trace' (reached n l c h a d) =
      elim (Bool-cases (contains self.expected_account_id gateway.managed_accounts)) [
        | inl e ↦ rw e (verified n l (at_zero true n c) (λ i k. at_zero false i (h i k)) e a d)
        | inr e ↦ rw e (wrong_account e (ap suc d))
      ]
  check_account-Connects self trace false trace' (failed h a d) =
      unreachable (λ i l. at_zero false i (h i l)) a d

  -- `connect` holds a connection only if an attempt, the first that succeeds of at most `retry_max`,
  -- reached the gateway and the gateway manages the expected account. If it does not, the connection
  -- is closed again, and if no attempt succeeds, all have been made; both raise an
  -- `IBConnectionError` and leave what was held before.
  pub connect-Connects :
      (self : IbProvider) (trace : IbTrace) → Connects self trace (connect gateway self trace)
  unfolding connect
  connect-Connects self trace =
      check_account-Connects self trace _ _ (try_connect-Attempted self.retry_max 0 trace)
