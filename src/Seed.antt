-- ===== src/Seed.antt =====
-- scripts/seed.py, on the three tables that it fills. A query sees the rows that were added before
-- it, since a session flushes before a query; `none` is the error of `scalar_one_or_none` for
-- several rows.
pub mod Loops
pub mod Idempotence
use x_social_trader.Base.{
  ℕ, zero, suc, String, str_eq, Bool, true, false, ◌&&◌, Option, none, some, List, [], ◌∷◌, ℤ, pos,
  eq_ℤ, if◌then◌else◌,
}
use x_social_trader.Models.{AliasRow, TradingMode, paper}
use x_social_trader.Runtime.{Runtime}

-- A row of `settings` (backend/models/settings.py).
pub record SettingsRow (R : Type 0) : Type 0 where
  pub id : ℕ
  pub trading_mode : TradingMode
  pub paper_trading : Bool
  pub max_capital_usd : R
  pub max_position_pct : R
  pub max_total_exposure_pct : R
  pub max_trades_per_day : ℕ
  pub max_daily_drawdown_pct : R
  pub allow_after_hours : Bool
  pub llm_max_usd_per_day : R
  pub twitterapi_io_max_usd : R

-- A row of `watched_accounts` with the columns that the script sets.
pub record AccountRow : Type 0 where
  pub username : String
  pub priority : ℕ
  pub active : Bool

pub record SeedDb (R : Type 0) : Type 0 where
  pub settings : List (SettingsRow R)
  pub watched_accounts : List AccountRow
  pub aliases : List AliasRow

-- `Settings(id=1)`, with the defaults of the columns
unfoldable pub default_settings : {R : Type 0} → Runtime R → SettingsRow R
default_settings py = record {
  id = 1;
  trading_mode = paper;
  paper_trading = true;
  max_capital_usd = py.mul_int 1000 py.one;
  max_position_pct = py.mul_int 2 py.one;
  max_total_exposure_pct = py.mul_int 20 py.one;
  max_trades_per_day = 10;
  max_daily_drawdown_pct = py.mul_int 3 py.one;
  allow_after_hours = false;
  llm_max_usd_per_day = py.mul_int 5 py.one;
  twitterapi_io_max_usd = py.mul_int 50 py.one;
}

abbrev pub demo_accounts : List AccountRow
demo_accounts =
    record { username = "elonmusk"; priority = 10; active = true }
    ∷ record { username = "jeffbezos"; priority = 5; active = true }
    ∷ record { username = "chamath"; priority = 3; active = false }
    ∷ []

abbrev pub demo_aliases : List AliasRow
demo_aliases =
    record { mention = "Tesla"; ticker = "TSLA"; priority = pos 10 }
    ∷ record { mention = "$TSLA"; ticker = "TSLA"; priority = pos 20 }
    ∷ record { mention = "Apple"; ticker = "AAPL"; priority = pos 10 }
    ∷ record { mention = "$AAPL"; ticker = "AAPL"; priority = pos 20 }
    ∷ record { mention = "Amazon"; ticker = "AMZN"; priority = pos 10 }
    ∷ []

abbrev pub same_account : AccountRow → AccountRow → Bool
same_account a b = str_eq a.username b.username

abbrev pub same_alias : AliasRow → AliasRow → Bool
same_alias a b = str_eq a.mention b.mention && str_eq a.ticker b.ticker

module _ {A : Type 0} (same : A → A → Bool) where
  -- the rows that the query for `d` finds
  abbrev pub matches : A → List A → ℕ
  matches d [] = 0
  matches d (x ∷ xs) = if same d x then suc (matches d xs) else matches d xs

  -- The loop of `seed_accounts` and of `seed_aliases`: how many rows it has created, and the table.
  unfoldable pub seed_rows : List A → List A → Option (ℕ × List A)
  seed_rows [] rows = some (0, rows)
  seed_rows (d ∷ ds) rows = elim (matches d rows) as (λ _. Option (ℕ × List A)) [
    | zero ↦ elim (seed_rows ds (d ∷ rows)) [ none ↦ none | some (n, rows') ↦ some (suc n, rows') ]
    | suc zero ↦ seed_rows ds rows
    | suc (suc n) ↦ none
  ]

module _ {R : Type 0} where
  -- `session.get(Settings, 1)`
  abbrev pub has_settings : List (SettingsRow R) → Bool
  has_settings [] = false
  has_settings (s ∷ ss) = elim s.id as (λ _. Bool) [ suc zero ↦ true | _ ↦ has_settings ss ]

  -- `main`: whether a row of settings was created, the numbers of created accounts and aliases, and
  -- the tables that are committed
  unfoldable pub seed : Runtime R → SeedDb R → Option ((Bool × ℕ × ℕ) × SeedDb R)
  seed py db = elim (seed_rows same_account demo_accounts db.watched_accounts) [
    | none ↦ none
    | some (accounts, watched) ↦ elim (seed_rows same_alias demo_aliases db.aliases) [
      | none ↦ none
      | some (aliases, named) ↦
          if has_settings db.settings
          then some (
            (false, accounts, aliases),
            record { settings = db.settings; watched_accounts = watched; aliases = named },
          )
          else some (
            (true, accounts, aliases),
            record {
              settings = default_settings py ∷ db.settings;
              watched_accounts = watched;
              aliases = named;
            },
          )
    ]
  ]
