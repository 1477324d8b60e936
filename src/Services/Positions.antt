-- ===== src/Services/Positions.antt =====
-- backend/services/positions_sync.py. Symbols are unique in the table `positions`.
pub mod Mirror
use x_social_trader.Base.{
  ℕ, suc, String, str_eq, Bool, true, false, not, ◌&&◌, ◌||◌, Option, none, some, List, [], ◌∷◌,
  map, ℤ, pos, eq_ℤ, is_some, lookup, put, if◌then◌else◌,
}
use x_social_trader.Models.{Position, PositionRow}
use x_social_trader.Runtime.{Runtime}
use x_social_trader.World.{World, Db, Result, returned, raised, broker_error}
use x_social_trader.World.Tables.{next_id}
use x_social_trader.Providers.{BrokerProvider}

pub record SyncReport : Type 0 where
  pub inserted : ℕ
  pub updated : ℕ
  pub cleared : ℕ

module _ {R : Type 0} where
  -- `{p.symbol: p for p in reported}`
  unfoldable pub by_symbol_from :
      List (Position R) → List (String × Position R) → List (String × Position R)
  by_symbol_from [] d = d
  by_symbol_from (p ∷ ps) d = by_symbol_from ps (put p.symbol p d)

  -- `existing.get(symbol)`
  abbrev pub find_position : String → List (PositionRow R) → Option (PositionRow R)
  find_position s [] = none
  find_position s (r ∷ rs) = if str_eq s r.symbol then some r else find_position s rs

  -- the row of a symbol with the quantity and the price of a snapshot
  abbrev pub set_position : String → Position R → List (PositionRow R) → List (PositionRow R)
  set_position s p [] = []
  set_position s p (r ∷ rs) =
      (if str_eq s r.symbol
        then record r { quantity = p.quantity; avg_price_usd = p.avg_price_usd }
        else r)
      ∷ set_position s p rs

  -- `symbol not in reported_by_symbol and row.quantity != 0`
  abbrev pub is_stale : List (String × Position R) → PositionRow R → Bool
  is_stale d r = not (is_some (lookup r.symbol d)) && not (eq_ℤ r.quantity (pos 0))

  -- The second loop: the rows afterwards, and how many it has cleared.
  unfoldable pub clear_missing :
      List (String × Position R) → List (PositionRow R) → ℕ × List (PositionRow R)
  clear_missing d [] = (0, [])
  clear_missing d (r ∷ rs) =
      let (n, rest) = clear_missing d rs in
      if is_stale d r then (suc n, record r { quantity = pos 0 } ∷ rest) else (n, r ∷ rest)

module _ {R : Type 0} ⦃py : Runtime R⦄ where
  -- the row and the snapshot differ
  abbrev pub differs : PositionRow R → Position R → Bool
  differs r p = not (eq_ℤ r.quantity p.quantity) || not (py.eq r.avg_price_usd p.avg_price_usd)

  abbrev pub new_position : String → Position R → List (PositionRow R) → PositionRow R
  new_position s p rows = record {
    id = next_id (map (λ (r : PositionRow R). r.id) rows);
    symbol = s;
    quantity = p.quantity;
    avg_price_usd = p.avg_price_usd;
    realized_pnl_usd = py.zero;
  }

  -- The first loop, for the snapshots by symbol. A symbol comes once, so what `existing` says of it
  -- is what the rows so far say.
  unfoldable pub upsert_all :
      List (String × Position R)
      → SyncReport
      → List (PositionRow R)
      → SyncReport × List (PositionRow R)
  upsert_all [] t rows = (t, rows)
  upsert_all ((s, p) ∷ d) t rows = elim (find_position s rows) [
    | none ↦ upsert_all d (record t { inserted = suc t.inserted }) (new_position s p rows ∷ rows)
    | some r ↦ elim (differs r p) [
      | true ↦ upsert_all d (record t { updated = suc t.updated }) (set_position s p rows)
      | false ↦ upsert_all d t rows
    ]
  ]

  -- Both loops. What the first has inserted is reported, so the second leaves it.
  unfoldable pub synced_rows :
      List (Position R) → List (PositionRow R) → SyncReport × List (PositionRow R)
  synced_rows reported rows =
      let d = by_symbol_from reported [] in
      let (t, upserted) = upsert_all d (record { inserted = 0; updated = 0; cleared = 0 }) rows in
      let (n, rows') = clear_missing d upserted in (record t { cleared = n }, rows')

  -- `sync_positions`
  unfoldable pub sync_positions : BrokerProvider R → World R → Result R SyncReport × World R
  sync_positions broker w = elim (broker.positions w.placed) [
    | none ↦ (raised broker_error, w)
    | some reported ↦
        let db : Db R = w.db in
        let (t, rows) = synced_rows reported w.db.positions in
        (returned t, record w { db = record db { positions = rows } })
  ]
