-- ===== src/Seed/Loops.antt =====
-- The loop of `seed_accounts` and of `seed_aliases`.
use mathlib.Core.List.{append_assoc}
use x_social_trader.Base.{
  ℕ, zero, suc, ◌≤◌, ◌≡◌, refl, ◌∙◌, Bool, true, false, some, List, [], ◌∷◌, ◌++◌, All, length,
  length-append, arith, inl, inr, ◌⊎◌, Option-cases,
}
use x_social_trader.Seed.{seed_rows, matches}

module _ {A : Type 0} (same : A → A → Bool) where
  -- A row to be seeded is the same as itself and as none of those after it.
  abbrev pub AreApart : List A → Type 0
  AreApart [] = Unit
  AreApart (d ∷ ds) = (same d d ≡ true) × All (λ e. same d e ≡ false) ds × AreApart ds

  -- One round of a loop that does not fail.
  data Round (d : A) (ds rows : List A) (n : ℕ) (rows' : List A) : Type 0 where
    created :
        (m : ℕ)
        → matches same d rows ≡ 0
        → n ≡ suc m
        → seed_rows same ds (d ∷ rows) ≡ some (m, rows')
        → Round d ds rows n rows'
    found :
        matches same d rows ≡ 1 → seed_rows same ds rows ≡ some (n, rows') → Round d ds rows n rows'

  -- To split on how often a row is found.
  count-cases : (n : ℕ) → (n ≡ 0) ⊎ (n ≡ 1) ⊎ ((m : ℕ) × (n ≡ suc (suc m)))
  count-cases zero = inl refl
  count-cases (suc zero) = inr (inl refl)
  count-cases (suc (suc m)) = inr (inr (m, refl))

  round :
      (d : A) (ds rows : List A) (n : ℕ) (rows' : List A)
      → seed_rows same (d ∷ ds) rows ≡ some (n, rows')
      → Round d ds rows n rows'
  unfolding seed_rows
  round d ds rows n rows' h = elim (count-cases (matches same d rows)) [
    | inl z ↦ elim (Option-cases (seed_rows same ds (d ∷ rows))) [
      | inl e ↦ absurd (ground (arith, h, z, e))
      | inr ((m, r), e) ↦ created m z (ground (arith, h, z, e)) (ground (arith, h, z, e))
    ]
    | inr (inl o) ↦ found o (ground (arith, h, o))
    | inr (inr (m, o)) ↦ absurd (ground (arith, h, o))
  ]

  -- The loop does not change how often a row is found that is apart from all that it seeds.
  matches-seed_rows :
      (e : A) (ds rows : List A) (n : ℕ) (rows' : List A)
      → All (λ d. same e d ≡ false) ds
      → seed_rows same ds rows ≡ some (n, rows')
      → matches same e rows' ≡ matches same e rows
  unfolding seed_rows
  matches-seed_rows e [] rows n rows' a h = ground (arith, h)
  matches-seed_rows e (d ∷ ds) rows n rows' a h = elim (round d ds rows n rows' h) [
    | created m z q k ↦ ground (arith, a, matches-seed_rows e ds (d ∷ rows) m rows' a.1 k)
    | found o k ↦ matches-seed_rows e ds rows n rows' a.1 k
  ]

  pub found_once :
      (ds rows : List A) (n : ℕ) (rows' : List A)
      → AreApart ds
      → seed_rows same ds rows ≡ some (n, rows')
      → All (λ d. matches same d rows' ≡ 1) ds
  found_once [] rows n rows' a h = tt
  found_once (d ∷ ds) rows n rows' (self, others, rest) h = elim (round d ds rows n rows' h) [
    | created m z q k ↦ (
      ground (arith, z, self, matches-seed_rows d ds (d ∷ rows) m rows' others k),
      found_once ds (d ∷ rows) m rows' rest k,
    )
    | found o k ↦ (
      ground (arith, o, matches-seed_rows d ds rows n rows' others k),
      found_once ds rows n rows' rest k,
    )
  ]

  pub nothing_new :
      (ds rows : List A)
      → All (λ d. matches same d rows ≡ 1) ds
      → seed_rows same ds rows ≡ some (0, rows)
  unfolding seed_rows
  nothing_new [] rows h = refl
  nothing_new (d ∷ ds) rows h = ground (arith, h, nothing_new ds rows h.1)

  -- Each row to be seeded is found at most once: what the unique indexes of the tables ensure.
  abbrev pub AreUnique : List A → List A → Type 0
  AreUnique ds rows = All (λ d. matches same d rows ≤ 1) ds

  AreUnique-cons :
      (d : A) (ds rows : List A)
      → All (λ e. same e d ≡ false) ds
      → AreUnique ds rows
      → AreUnique ds (d ∷ rows)
  AreUnique-cons d [] rows a u = tt
  AreUnique-cons d (e ∷ ds) rows a u = (ground (arith, a, u), AreUnique-cons d ds rows a.1 u.1)

  flip_all :
      ((x y : A) → same x y ≡ same y x)
      → (d : A) (ds : List A) → All (λ e. same d e ≡ false) ds
      → All (λ e. same e d ≡ false) ds
  flip_all f d [] a = tt
  flip_all f d (e ∷ ds) a = (f e d ∙ a.0, flip_all f d ds a.1)

  -- The loop ends with the old rows behind the new ones.
  pub seed_rows_total :
      ((x y : A) → same x y ≡ same y x)
      → (ds rows : List A) → AreApart ds
      → AreUnique ds rows
      → (n : ℕ) × (new : List A) × (seed_rows same ds rows ≡ some (n, new ++ rows))
        × (length new ≡ n)
  unfolding seed_rows
  seed_rows_total f [] rows a u = (0, [], refl, refl)
  seed_rows_total f (d ∷ ds) rows (self, others, rest) u =
      elim (count-cases (matches same d rows)) [
        | inl z ↦
            let (n, new, e, k) =
              seed_rows_total f ds (d ∷ rows) rest
                (AreUnique-cons d ds rows (flip_all f d ds others) u.1) in
            (
              suc n,
              new ++ d ∷ [],
              ground (arith, z, e, append_assoc new (d ∷ []) rows),
              omega (arith, length-append new (d ∷ []), k),
            )
        | inr (inl o) ↦
            let (n, new, e, k) = seed_rows_total f ds rows rest u.1 in
            (n, new, ground (arith, o, e), k)
        | inr (inr (m, o)) ↦ absurd (ground (arith, o, u))
      ]
