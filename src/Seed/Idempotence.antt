-- ===== src/Seed/Idempotence.antt =====
-- Seeding again changes nothing.
use x_social_trader.Base.{
  ℕ, ◌≡◌, refl, Bool, true, false, some, List, ◌∷◌, ◌++◌, eq_iff, length, arith, inl, inr,
  Bool-cases, if◌then◌else◌,
}
use x_social_trader.Models.{AliasRow}
use x_social_trader.Runtime.{Runtime}
use x_social_trader.Seed.Loops.{AreApart, AreUnique, found_once, nothing_new, seed_rows_total}
use x_social_trader.Seed.{
  SeedDb, SettingsRow, AccountRow, seed, demo_accounts, demo_aliases, same_account, same_alias,
  has_settings, default_settings,
}

same_account_sym : (x y : AccountRow) → same_account x y ≡ same_account y x
same_account_sym x y = ground (arith, eq_iff x.username y.username, eq_iff y.username x.username)

same_alias_sym : (x y : AliasRow) → same_alias x y ≡ same_alias y x
same_alias_sym x y = ground (
  arith,
  eq_iff x.mention y.mention,
  eq_iff y.mention x.mention,
  eq_iff x.ticker y.ticker,
  eq_iff y.ticker x.ticker,
)

demo_accounts-AreApart : AreApart same_account demo_accounts
demo_accounts-AreApart = ground arith

demo_aliases-AreApart : AreApart same_alias demo_aliases
demo_aliases-AreApart = ground arith

module _ {R : Type 0} (py : Runtime R) where
  -- What a run of the script has done: it reports how many rows stand in front of the old ones.
  pub record HasSeeded (db : SeedDb R) (report : Bool × ℕ × ℕ) (db' : SeedDb R) : Type 0 where
    pub accounts : List AccountRow
    pub aliases : List AliasRow
    pub watched_accounts : db'.watched_accounts ≡ accounts ++ db.watched_accounts
    pub named : db'.aliases ≡ aliases ++ db.aliases
    pub settings :
        db'.settings ≡ (if report.0 then default_settings py ∷ db.settings else db.settings)
    pub counted : (length accounts ≡ report.1) × (length aliases ≡ report.2)
    pub present : has_settings db'.settings ≡ true

  settings_there : (old : List (SettingsRow R)) → has_settings (default_settings py ∷ old) ≡ true
  unfolding default_settings
  settings_there old = refl

  -- In a database where no demo username stands twice in `watched_accounts` and no demo pair of a
  -- mention and a ticker twice in `aliases`, the script succeeds. It keeps every row of the three
  -- tables, puts in front of them as many accounts and aliases as it reports, and, exactly if it
  -- reports so, the settings with the key 1 in paper mode; those are there afterwards. A second run
  -- creates nothing and leaves the tables as they are.
  pub seed-seed :
      (db : SeedDb R)
      → AreUnique same_account demo_accounts db.watched_accounts
      → AreUnique same_alias demo_aliases db.aliases
      → (report : Bool × ℕ × ℕ) × (db' : SeedDb R) × (seed py db ≡ some (report, db'))
        × HasSeeded db report db'
        × (seed py db' ≡ some ((false, 0, 0), db'))
  unfolding seed
  seed-seed db u v =
      let (n, accounts, e, k) =
        seed_rows_total same_account same_account_sym demo_accounts db.watched_accounts
          demo_accounts-AreApart u in
      let (m, aliases, f, l) =
        seed_rows_total same_alias same_alias_sym demo_aliases db.aliases demo_aliases-AreApart v in
      let watched = accounts ++ db.watched_accounts in
      let named = aliases ++ db.aliases in
      let again_accounts = nothing_new same_account demo_accounts watched (
        found_once same_account demo_accounts db.watched_accounts n watched demo_accounts-AreApart
          e) in
      let again_aliases =
        nothing_new same_alias demo_aliases named
          (found_once same_alias demo_aliases db.aliases m named demo_aliases-AreApart f) in
      elim (Bool-cases (has_settings db.settings)) [
        | inl s ↦ (
          (false, n, m),
          record { settings = db.settings; watched_accounts = watched; aliases = named },
          ground (arith, e, f, s),
          record {
            accounts = accounts;
            aliases = aliases;
            watched_accounts = refl;
            named = refl;
            settings = refl;
            counted = (k, l);
            present = s;
          },
          ground (arith, again_accounts, again_aliases, s),
        )
        | inr s ↦
            let created : List (SettingsRow R) = default_settings py ∷ db.settings in
            let there : has_settings created ≡ true = settings_there db.settings in
            (
              (true, n, m),
              record { settings = created; watched_accounts = watched; aliases = named },
              ground (arith, e, f, s),
              record {
                accounts = accounts;
                aliases = aliases;
                watched_accounts = refl;
                named = refl;
                settings = refl;
                counted = (k, l);
                present = there;
              },
              ground (arith, again_accounts, again_aliases, there),
            )
      ]
