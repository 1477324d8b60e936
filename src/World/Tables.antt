-- ===== src/World/Tables.antt =====
-- Primary keys of an append-only table: a new row's is one more than the largest.
use Prim.Native.Nat.{max}
use x_social_trader.Base.{ℕ, suc, List, [], ◌∷◌}

abbrev pub largest : List ℕ → ℕ
largest [] = 0
largest (x ∷ xs) = max x (largest xs)

abbrev pub next_id : List ℕ → ℕ
next_id ids = suc (largest ids)
