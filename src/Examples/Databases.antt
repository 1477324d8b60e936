-- ===== src/Examples/Databases.antt =====
-- The theorems on the migrations and on the seed script.
use x_social_trader.Base.{
  ℕ, Bool, ◌≡◌, true, false, some, [], ◌∷◌, ◌++◌, ◌&&◌, ◌||◌, contains, any, arith, pos,
}
use x_social_trader.Runtime.Sample.{Sample, sample}
use x_social_trader.Migrations.{Schema, table_object, string, primary_key, migrate}
use x_social_trader.Migrations.Tables.{column}
use x_social_trader.Migrations.Revisions.{upgrade_head, downgrade_base, audit_tables}
use x_social_trader.Migrations.Reversal.{IsApart, made, aborts, downgrade-upgrade, upgrade_protects}
use x_social_trader.Seed.{SeedDb, seed, same_account, same_alias, demo_accounts, demo_aliases}
use x_social_trader.Seed.Loops.{AreUnique}
use x_social_trader.Seed.Idempotence.{HasSeeded, seed-seed}

-- A database with the table that Alembic keeps its revision in.
abbrev bookkeeping : Schema
bookkeeping =
    table_object (record {
      name = "alembic_version";
      columns = column "version_num" (string 32) false ∷ [];
      constraints = primary_key ("version_num" ∷ []) "alembic_version_pkc" ∷ [];
    })
    ∷ []

bookkeeping-upgrade : IsApart bookkeeping (upgrade_head true)
bookkeeping-upgrade = ground arith

bookkeeping-downgrade : IsApart bookkeeping (downgrade_base true)
bookkeeping-downgrade = ground arith

downgrade-upgrade_example :
    (migrate (upgrade_head true) bookkeeping ≡ some (made true ++ bookkeeping))
    × (migrate (downgrade_base true) (made true ++ bookkeeping) ≡ some bookkeeping)
downgrade-upgrade_example =
    downgrade-upgrade true bookkeeping bookkeeping-upgrade bookkeeping-downgrade

upgrade_protects_example :
    (s' : Schema) × (migrate (upgrade_head true) bookkeeping ≡ some s')
    × (any (aborts "UPDATE" "orders") s'
        ≡ ((true && contains "orders" audit_tables) || any (aborts "UPDATE" "orders") bookkeeping))
    × (any (aborts "DELETE" "orders") s'
        ≡ ((true && contains "orders" audit_tables) || any (aborts "DELETE" "orders") bookkeeping))
upgrade_protects_example = upgrade_protects true bookkeeping "orders" bookkeeping-upgrade

-- A database in which an operator has added an account of the demo and another alias.
abbrev used : SeedDb Sample
used = record {
  settings = [];
  watched_accounts = record { username = "chamath"; priority = 1; active = true } ∷ [];
  aliases = record { mention = "Tesla"; ticker = "TSLX"; priority = pos 1 } ∷ [];
}

used_accounts : AreUnique same_account demo_accounts used.watched_accounts
used_accounts = ground arith

used_aliases : AreUnique same_alias demo_aliases used.aliases
used_aliases = ground arith

seed-seed_example :
    (report : Bool × ℕ × ℕ) × (db' : SeedDb Sample) × (seed sample used ≡ some (report, db'))
    × HasSeeded sample used report db'
    × (seed sample db' ≡ some ((false, 0, 0), db'))
seed-seed_example = seed-seed sample used used_accounts used_aliases
