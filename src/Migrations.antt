-- ===== src/Migrations.antt =====
-- alembic/versions: the two migrations as lists of commands, and a database's schema as the list of
-- its objects, the newest first. A command fails where a database refuses it: SQLite or PostgreSQL,
-- whichever is stricter.
pub mod Tables
pub mod Revisions
pub mod Reversal
use x_social_trader.Base.{
  ℕ, String, str_eq, Bool, true, false, not, ◌&&◌, ◌||◌, Option, none, some, List, [], ◌∷◌, ◌++◌,
  map, all, any, keep, if◌then◌else◌,
}

-- `sa.String(length=n)` and the other types
pub data ColumnType : Type 0 where
  integer boolean float text json datetime : ColumnType
  string : ℕ → ColumnType

-- `sa.Column` without the flag `autoincrement`, with the text of its `server_default`
pub record Column : Type 0 where
  pub name : String
  pub type : ColumnType
  pub nullable : Bool
  pub server_default : Option String

-- a constraint of `op.create_table`; a foreign key's targets are the texts "table.column"
pub data Constraint : Type 0 where
  primary_key : List String → String → Constraint
  unique_key : List String → String → Constraint
  check : String → String → Constraint
  foreign_key : List String → List (String × String) → String → String → Constraint

pub record Table : Type 0 where
  pub name : String
  pub columns : List Column
  pub constraints : List Constraint

-- What a schema holds: `CREATE TRIGGER` has the table and the event that it aborts, `CREATE VIEW`
-- the tables that it reads.
pub data Object : Type 0 where
  table_object : Table → Object
  index_object : String → String → List String → Bool → Object
  trigger_object : String → String → String → Object
  view_object : String → List String → Object

abbrev pub Schema : Type 0
Schema = List Object

abbrev pub name_of : Object → String
name_of (table_object t) = t.name
name_of (index_object name table columns unique) = name
name_of (trigger_object name table event) = name
name_of (view_object name tables) = name

-- the object is an index or a trigger of that table
abbrev pub stands_on : String → Object → Bool
stands_on t (index_object name table columns unique) = str_eq t table
stands_on t (trigger_object name table event) = str_eq t table
stands_on t _ = false

abbrev pub is_table : String → Object → Bool
is_table t (table_object table) = str_eq t table.name
is_table t _ = false

abbrev pub has_column : String × String → Object → Bool
has_column (t, c) (table_object table) =
    str_eq t table.name && any (λ (column : Column). str_eq c column.name) table.columns
has_column (t, c) _ = false

abbrev pub targets : List Constraint → List (String × String)
targets [] = []
targets (foreign_key columns to name ondelete ∷ cs) = to ++ targets cs
targets (_ ∷ cs) = targets cs

-- the columns that must exist before the object
abbrev pub needs : Object → List (String × String)
needs (table_object t) = targets t.constraints
needs (index_object name table columns unique) = map (λ c. (table, c)) columns
needs _ = []

-- the tables that must exist before the object
abbrev pub needs_tables : Object → List String
needs_tables (trigger_object name table event) = table ∷ []
needs_tables (view_object name tables) = tables
needs_tables _ = []

-- A foreign key of another table, or a view, refers to the table.
abbrev pub refers_to : String → Object → Bool
refers_to t (table_object table) =
    not (str_eq t table.name)
    && any (λ (x : String × String). str_eq t x.0) (targets table.constraints)
refers_to t (view_object name tables) = any (str_eq t) tables
refers_to t _ = false

pub data Command : Type 0 where
  create : Object → Command
  drop_table drop_index drop_if_exists : String → Command

-- What a command leaves of the schema, if it is not refused.
unfoldable pub execute : Command → Schema → Option Schema
execute (create o) s =
    if not (any (λ x. str_eq (name_of o) (name_of x)) s)
      && all (λ need. any (has_column need) s) (needs o)
      && all (λ t. any (is_table t) s) (needs_tables o)
    then some (o ∷ s)
    else none
execute (drop_table t) s =
    if any (is_table t) s && not (any (refers_to t) s)
    then some (keep (λ x. not (is_table t x || stands_on t x)) s)
    else none
execute (drop_index n) s =
    if any (λ x. str_eq n (name_of x)) s
    then some (keep (λ x. not (str_eq n (name_of x))) s)
    else none
execute (drop_if_exists n) s = some (keep (λ x. not (str_eq n (name_of x))) s)

-- The commands in their order; the first that is refused ends the migration.
unfoldable pub migrate : List Command → Schema → Option Schema
migrate [] s = some s
migrate (c ∷ cs) s = elim (execute c s) [ none ↦ none | some s' ↦ migrate cs s' ]
