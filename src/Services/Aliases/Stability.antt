-- ===== src/Services/Aliases/Stability.antt =====
-- What the resolution of mentions depends on.
use x_social_trader.Base.{
  ◌≡◌, inl, inr, refl, sym, subst, String, str_eq, eq_iff, eq_refl, Bool, true, false, not, ◌&&◌,
  ◌||◌, none, some, List, [], ◌∷◌, keep, contains, lookup, arith, All, Bool-cases, SameTexts,
  sorted_set, sorted_set-of_same, sorted_set-nil, Distinct, Distinct-sorted_set, IsSorted,
  sorted_set-IsSorted, str_leb, str_leb-IsOrder, strip,
}
use x_social_trader.Models.{AliasRow}
use x_social_trader.Runtime.{Runtime}
use x_social_trader.Services.Aliases.{
  stripped, is_empty, normalize, looks_like_ticker, alias_keys, group_from, resolved_from,
  resolve_tickers,
}

abbrev any : (String → Bool) → List String → Bool
any p [] = false
any p (x ∷ xs) = p x || any p xs

any_of_contains :
    (p : String → Bool) (x : String) (ys : List String)
    → contains x ys ≡ true
    → p x ≡ true
    → any p ys ≡ true
any_of_contains p x [] c h = cc
any_of_contains p x (y ∷ ys) c h = elim (Bool-cases (str_eq x y)) [
  | inl e ↦ let holds_y = subst (λ z. p z ≡ true) ((eq_iff x y).0 e) h in ground (arith, holds_y)
  | inr e ↦ ground (arith, e, any_of_contains p x ys)
]

any_of_All :
    (p : String → Bool) (xs ys : List String)
    → All (λ x. contains x ys ≡ true) xs
    → any p xs ≡ true
    → any p ys ≡ true
any_of_All p [] ys h k = cc
any_of_All p (x ∷ xs) ys h k = ground (arith, any_of_contains p x ys h.0, any_of_All p xs ys h.1)

contained :
    (xs ys : List String)
    → ((k : String) → contains k xs ≡ true → contains k ys ≡ true)
    → All (λ x. contains x ys ≡ true) xs
contained [] ys h = tt
contained (x ∷ xs) ys h =
    (h x (ground (arith, eq_refl x)), contained xs ys (λ k c. h k (ground (arith, c))))

-- A test for some text of a list goes by the texts that it holds.
any_of_same : (p : String → Bool) (xs ys : List String) → SameTexts xs ys → any p xs ≡ any p ys
any_of_same p xs ys h = ground (
  arith,
  any_of_All p xs ys (contained xs ys (λ k c. ground (arith, c, h k))),
  any_of_All p ys xs (contained ys xs (λ k c. ground (arith, c, h k))),
)

module _ {R : Type 0} (py : Runtime R) where
  abbrev counts_as : String → String → Bool
  counts_as k m = not (str_eq m "") && not (str_eq (strip m) "") && str_eq k (normalize py m)

  contains-alias_keys :
      (k : String) (ms : List String) → contains k (alias_keys py ms) ≡ any (counts_as k) ms
  unfolding alias_keys
  contains-alias_keys k [] = refl
  contains-alias_keys k (m ∷ ms) = ground (arith, contains-alias_keys k ms)

  -- The mention adds the ticker.
  abbrev adds : List (String × AliasRow) → String → String → Bool
  adds d k raw = elim (lookup (normalize py raw) d) [
    | some r ↦ str_eq k (py.upper r.ticker)
    | none ↦ looks_like_ticker py raw && str_eq k (py.upper (stripped raw))
  ]

  contains-resolved_from :
      (d : List (String × AliasRow)) (k : String) (ms : List String)
      → contains k (resolved_from py d ms) ≡ any (adds d k) ms
  unfolding resolved_from
  contains-resolved_from d k [] = refl
  contains-resolved_from d k (raw ∷ ms) = ground (arith, contains-resolved_from d k ms)

  keep-same :
      (xs ys : List String) (rows : List AliasRow)
      → SameTexts xs ys
      → keep (λ (r : AliasRow). contains (py.sql_lower r.mention) xs) rows
        ≡ keep (λ (r : AliasRow). contains (py.sql_lower r.mention) ys) rows
  keep-same xs ys [] h = refl
  keep-same xs ys (r ∷ rows) h = ground (arith, h (py.sql_lower r.mention), keep-same xs ys rows h)

  is_empty-same : (xs ys : List String) → SameTexts xs ys → is_empty xs ≡ is_empty ys
  is_empty-same [] [] h = refl
  is_empty-same [] (y ∷ ys) h = ground (arith, h y, eq_refl y)
  is_empty-same (x ∷ xs) [] h = ground (arith, h x, eq_refl x)
  is_empty-same (x ∷ xs) (y ∷ ys) h = refl

  -- What `resolve_tickers` returns is a list of a set, or empty.
  resolved_set :
      (aliases : List AliasRow) (ms : List String)
      → (ts : List String) × (resolve_tickers py aliases ms ≡ sorted_set ts)
  unfolding resolve_tickers
  resolved_set aliases ms = elim (Bool-cases (is_empty ms)) [
    | inl e ↦ ([], rw e (sym sorted_set-nil))
    | inr e ↦ elim (Bool-cases (is_empty (alias_keys py ms))) [
      | inl k ↦ ([], rw (e, k) (sym sorted_set-nil))
      | inr k ↦ (
        resolved_from py
            (group_from py
              (keep (λ (r : AliasRow). contains (py.sql_lower r.mention) (alias_keys py ms))
                aliases)
              [])
            ms,
        rw (e, k),
      )
    ]
  ]

  resolve-same :
      (aliases : List AliasRow) (ms ns : List String)
      → SameTexts ms ns
      → resolve_tickers py aliases ms ≡ resolve_tickers py aliases ns
  unfolding resolve_tickers
  resolve-same aliases ms ns h =
      let keys : SameTexts (alias_keys py ms) (alias_keys py ns) = λ k. ground (
        arith,
        contains-alias_keys k ms,
        contains-alias_keys k ns,
        any_of_same (counts_as k) ms ns h,
      ) in
      let rows = keep-same (alias_keys py ms) (alias_keys py ns) aliases keys in
      let d =
        group_from py
          (keep (λ (r : AliasRow). contains (py.sql_lower r.mention) (alias_keys py ns)) aliases)
          [] in
      let sets = sorted_set-of_same (resolved_from py d ms) (resolved_from py d ns) (λ k. ground (
        arith,
        contains-resolved_from d k ms,
        contains-resolved_from d k ns,
        any_of_same (adds d k) ms ns h,
      )) in
      rw (
        is_empty-same ms ns h,
        is_empty-same (alias_keys py ms) (alias_keys py ns) keys,
        rows,
        sets,
      )

  -- The tickers are in order and each stands once, and they depend only on which mentions there
  -- are: two lists of mentions that hold the same texts, in any order and as often as they like,
  -- are resolved alike.
  pub resolve_tickers-of_same :
      (aliases : List AliasRow) (ms ns : List String)
      → SameTexts ms ns
      → (resolve_tickers py aliases ms ≡ resolve_tickers py aliases ns)
        × IsSorted str_leb str_leb-IsOrder (resolve_tickers py aliases ms)
        × Distinct (resolve_tickers py aliases ms)
  resolve_tickers-of_same aliases ms ns h =
      let (ts, e) = resolved_set aliases ms in
      (resolve-same aliases ms ns h, rw e (sorted_set-IsSorted ts), rw e (Distinct-sorted_set ts))
