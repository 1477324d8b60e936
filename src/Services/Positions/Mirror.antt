-- ===== src/Services/Positions/Mirror.antt =====
-- What the table `positions` says after a synchronisation.
use x_social_trader.Base.{
  suc, ◌⊎◌, ◌≡◌, ◌≢◌, inl, inr, refl, String, str_eq, eq_iff, Option, none, some, List, [], ◌∷◌,
  map, ℤ, pos, eq_of_eq_ℤ, is_some, lookup, put, lookup-put, arith, Absent, Distinct, Option-cases,
  Bool-cases, if◌then◌else◌,
}
use x_social_trader.Models.{Position, PositionRow}
use x_social_trader.Runtime.{Runtime}
use x_social_trader.World.{World, returned, raised, broker_error}
use x_social_trader.Providers.{BrokerProvider}
use x_social_trader.Services.Positions.{
  SyncReport, by_symbol_from, find_position, set_position, clear_missing, differs, new_position,
  upsert_all, synced_rows, sync_positions,
}

abbrev symbols : {R : Type 0} → List (String × Position R) → List String
symbols = map (λ e. e.0)

module _ {R : Type 0} where
  -- the quantity that a table has for a symbol
  abbrev pub held : String → List (PositionRow R) → Option ℤ
  held k rows = elim (find_position k rows) [ none ↦ none | some r ↦ some r.quantity ]

  -- the last report on a symbol
  abbrev pub last_report : String → List (Position R) → Option (Position R)
  last_report k [] = none
  last_report k (p ∷ ps) =
      let rest = last_report k ps in
      if is_some rest then rest else if str_eq k p.symbol then some p else none

  -- What the table is to say: the reported quantity, or 0 for a symbol that is not reported.
  abbrev pub mirrored : Option (Position R) → Option ℤ → Option ℤ
  mirrored (some p) q = some p.quantity
  mirrored none (some q) = some (pos 0)
  mirrored none none = none

  lookup-by_symbol_from :
      (k : String) (ps : List (Position R)) (d : List (String × Position R))
      → lookup k (by_symbol_from ps d)
        ≡ (if is_some (last_report k ps) then last_report k ps else lookup k d)
  unfolding by_symbol_from
  lookup-by_symbol_from k [] d = refl
  lookup-by_symbol_from k (p ∷ ps) d = ground (
    arith,
    lookup-by_symbol_from k ps (put p.symbol p d),
    lookup-put p.symbol k p d,
    eq_iff k p.symbol,
    eq_iff p.symbol k,
  )

  Absent-put :
      (k s : String) (p : Position R) (d : List (String × Position R))
      → k ≢ s
      → Absent k (symbols d)
      → Absent k (symbols (put s p d))
  unfolding put
  Absent-put k s p [] n h = (n, tt)
  Absent-put k s p ((t, q) ∷ d) n h = elim (Bool-cases (str_eq s t)) [
    | inl e ↦ rw e h
    | inr e ↦ rw e (h.0, Absent-put k s p d n h.1)
  ]

  Distinct-put :
      (s : String) (p : Position R) (d : List (String × Position R))
      → Distinct (symbols d)
      → Distinct (symbols (put s p d))
  unfolding put
  Distinct-put s p [] h = (tt, tt)
  Distinct-put s p ((t, q) ∷ d) h = elim (Bool-cases (str_eq s t)) [
    | inl e ↦ rw e h
    | inr e ↦
        rw e
          (Absent-put t s p d (λ k. ground (arith, e, k, eq_iff s t)) h.0, Distinct-put s p d h.1)
  ]

  Distinct-by_symbol_from :
      (ps : List (Position R)) (d : List (String × Position R))
      → Distinct (symbols d)
      → Distinct (symbols (by_symbol_from ps d))
  unfolding by_symbol_from
  Distinct-by_symbol_from [] d h = h
  Distinct-by_symbol_from (p ∷ ps) d h =
      Distinct-by_symbol_from ps (put p.symbol p d) (Distinct-put p.symbol p d h)

  lookup-Absent :
      (k : String) (d : List (String × Position R)) → Absent k (symbols d) → lookup k d ≡ none
  unfolding lookup
  lookup-Absent k [] h = refl
  lookup-Absent k ((s, p) ∷ d) h = ground (arith, eq_iff k s, lookup-Absent k d h.1)

  held-set_position :
      (k s : String) (p : Position R) (rows : List (PositionRow R))
      → held k (set_position s p rows) ≡ (
          if is_some (held k rows)
          then (if str_eq k s then some p.quantity else held k rows)
          else none)
  held-set_position k s p [] = refl
  held-set_position k s p (r ∷ rows) =
      ground (arith, held-set_position k s p rows, eq_iff k s, eq_iff k r.symbol, eq_iff s r.symbol)

  held-clear_missing :
      (k : String) (d : List (String × Position R)) (rows : List (PositionRow R))
      → held k (clear_missing d rows).1
        ≡ (if is_some (lookup k d) then held k rows else mirrored none (held k rows))
  unfolding clear_missing
  held-clear_missing k d [] = ground arith
  held-clear_missing k d (r ∷ rows) =
      ground (arith, held-clear_missing k d rows, eq_iff k r.symbol, eq_of_eq_ℤ r.quantity (pos 0))

module _ {R : Type 0} ⦃py : Runtime R⦄ where
  held-upsert_all :
      (k : String) (d : List (String × Position R)) (t : SyncReport) (rows : List (PositionRow R))
      → Distinct (symbols d)
      → held k (upsert_all d t rows).1
        ≡ (if is_some (lookup k d) then mirrored (lookup k d) none else held k rows)
  unfolding upsert_all lookup
  held-upsert_all k [] t rows h = refl
  held-upsert_all k ((s, p) ∷ d) t rows h = elim (Option-cases (find_position s rows)) [
    | inl f ↦ ground (
      arith,
      f,
      eq_iff k s,
      lookup-Absent s d h.0,
      held-upsert_all k d (record t { inserted = suc t.inserted }) (new_position s p rows ∷ rows)
          h.1,
    )
    | inr (r, f) ↦ elim (Bool-cases (differs r p)) [
      | inl e ↦ ground (
        arith,
        f,
        e,
        eq_iff k s,
        lookup-Absent s d h.0,
        held-set_position k s p rows,
        held-upsert_all k d (record t { updated = suc t.updated }) (set_position s p rows) h.1,
      )
      | inr e ↦ ground (
        arith,
        f,
        e,
        eq_iff k s,
        lookup-Absent s d h.0,
        eq_of_eq_ℤ r.quantity p.quantity,
        held-upsert_all k d t rows h.1,
      )
    ]
  ]

  held-synced_rows :
      (k : String) (reported : List (Position R)) (rows : List (PositionRow R))
      → held k (synced_rows reported rows).1 ≡ mirrored (last_report k reported) (held k rows)
  unfolding synced_rows lookup
  held-synced_rows k reported rows =
      let d = by_symbol_from reported [] in
      let none_yet : SyncReport = record { inserted = 0; updated = 0; cleared = 0 } in
      ground (
        arith,
        held-clear_missing k d (upsert_all d none_yet rows).1,
        held-upsert_all k d none_yet rows (Distinct-by_symbol_from reported [] tt),
        lookup-by_symbol_from k reported [],
      )

  -- If the broker reports its positions, `sync_positions` returns, and afterwards the table
  -- `positions` has for every symbol the quantity of its last report, or 0 if it has no report but
  -- had a row, and no row otherwise. If the broker raises, nothing changes.
  pub sync_positions-mirrors :
      (broker : BrokerProvider R) (k : String) (w : World R)
      → let (r, w') = sync_positions broker w in
        ((reported : List (Position R)) × (t : SyncReport) × (broker.positions w.placed
            ≡ some reported)
          × (r ≡ returned t)
          × (held k w'.db.positions ≡ mirrored (last_report k reported) (held k w.db.positions)))
        ⊎ ((broker.positions w.placed ≡ none) × (r ≡ raised broker_error) × (w' ≡ w))
  unfolding sync_positions
  sync_positions-mirrors broker k w = elim (Option-cases (broker.positions w.placed)) [
    | inl e ↦ inr (e, ground (arith, e), ground (arith, e))
    | inr (reported, e) ↦ inl (
      reported,
      (synced_rows reported w.db.positions).0,
      e,
      ground (arith, e),
      ground (arith, e, held-synced_rows k reported w.db.positions),
    )
  ]
