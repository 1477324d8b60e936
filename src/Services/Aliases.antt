-- ===== src/Services/Aliases.antt =====
-- backend/services/aliases.py. The rows of the table `aliases` come in the order of the list; the
-- query names none.
pub mod Stability
use Prim.Native.Char.{code}
use Prim.Native.String
use x_social_trader.Base.{
  ℕ, suc, String, str_eq, Bool, true, false, not, ◌&&◌, ◌||◌, Option, none, some, List, [], ◌∷◌,
  map, keep, contains, lookup, put, ltb, leb, ◌==◌, ltb_ℤ, eq_ℤ, strip, strip_left, sorted_set,
  if◌then◌else◌,
}
use x_social_trader.Models.{AliasRow}
use x_social_trader.Runtime.{Runtime}

abbrev pub is_dollar : ℕ → Bool
is_dollar c = c == b'$'

-- `mention.lstrip("$").strip()`
abbrev pub stripped : String → String
stripped mention = strip (strip_left is_dollar mention)

-- the regular expression [A-Z]*
abbrev pub all_capitals : String → Bool
all_capitals String.[] = true
all_capitals (String.◌∷◌ c s) = leb b'A' (code c) && leb (code c) b'Z' && all_capitals s

abbrev pub characters : String → ℕ
characters String.[] = 0
characters (String.◌∷◌ c s) = suc (characters s)

-- `_TICKER_RE.fullmatch`: [A-Z]{1,5}
abbrev pub is_ticker : String → Bool
is_ticker s = all_capitals s && ltb 0 (characters s) && leb (characters s) 5

-- `ord(ticker[0]) if ticker else 0`
abbrev pub first_code : String → ℕ
first_code String.[] = 0
first_code (String.◌∷◌ c s) = code c

abbrev pub is_empty {ℓ} : {A : Type ℓ} → List A → Bool
is_empty [] = true
is_empty (_ ∷ _) = false

-- A row beats the one that was found before: a higher priority, or the same and a smaller first
-- character of the ticker.
abbrev pub beats : AliasRow → AliasRow → Bool
beats r e =
    ltb_ℤ e.priority r.priority
    || (eq_ℤ r.priority e.priority && ltb (first_code r.ticker) (first_code e.ticker))

module _ {R : Type 0} (py : Runtime R) where
  -- `_normalize`
  unfoldable pub normalize : String → String
  normalize mention = py.lower (stripped mention)

  -- `_looks_like_ticker`
  unfoldable pub looks_like_ticker : String → Bool
  looks_like_ticker mention = is_ticker (py.upper (stripped mention))

  -- `{_normalize(m) for m in mentions if m and m.strip()}`
  unfoldable pub alias_keys : List String → List String
  alias_keys mentions =
      map normalize (keep (λ m. not (str_eq m "") && not (str_eq (strip m) "")) mentions)

  -- The loop over the rows, with what is grouped so far.
  unfoldable pub group_from : List AliasRow → List (String × AliasRow) → List (String × AliasRow)
  group_from [] d = d
  group_from (r ∷ rows) d = group_from rows (elim (lookup (normalize r.mention) d) [
    | none ↦ put (normalize r.mention) r d
    | some e ↦ if beats r e then put (normalize r.mention) r d else d
  ])

  -- The loop over the mentions: what it adds to `resolved`.
  unfoldable pub resolved_from : List (String × AliasRow) → List String → List String
  resolved_from d [] = []
  resolved_from d (raw ∷ mentions) = elim (lookup (normalize raw) d) [
    | some r ↦ py.upper r.ticker ∷ resolved_from d mentions
    | none ↦ elim (looks_like_ticker raw) [
      | true ↦ py.upper (stripped raw) ∷ resolved_from d mentions
      | false ↦ resolved_from d mentions
    ]
  ]

  -- `resolve_tickers`
  unfoldable pub resolve_tickers : List AliasRow → List String → List String
  resolve_tickers aliases mentions =
      let keys = alias_keys mentions in
      let rows = keep (λ (r : AliasRow). contains (py.sql_lower r.mention) keys) aliases in
      if is_empty mentions
      then []
      else if is_empty keys
      then []
      else sorted_set (resolved_from (group_from rows []) mentions)
