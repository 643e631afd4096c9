-- ===== src/Migrations/Tables.antt =====
-- Schemas, and the operations of alembic that the revisions use. An operation that the database
-- refuses is `none`.
use jarvis_ai_coo.Prelude.{
  ℕ, Text, Bool, true, false, not, ◌&&◌, ◌==◌, text_eq, Option, none, some, List, [], ◌∷◌, where_,
  update, contains,
}
use jarvis_ai_coo.Database.{exists}

-- `sa.String(n)`, `sa.Text()`, `sa.Integer()`, `sa.JSON()`, `sa.DateTime(timezone=True)` and an
-- enumeration with its labels
pub data ColumnType : Type 0 where
  string : ℕ → ColumnType
  text integer json timestamp : ColumnType
  enum : Text → List Text → ColumnType

pub record Column : Type 0 where
  pub name : Text
  pub type : ColumnType
  pub nullable : Bool

pub data Constraint : Type 0 where
  primary_key : List Text → Constraint
  -- the name, if it has one, and the columns
  unique : Option Text → List Text → Constraint
  -- the name and the condition
  check : Text → Text → Constraint
  -- the column and the column that it refers to; rows go with the row that they refer to
  cascading : Text → Text → Constraint

pub record Index : Type 0 where
  pub name : Text
  pub table : Text
  pub columns : List Text

-- A table, with the indexes and triggers that are on it.
pub record Table : Type 0 where
  pub name : Text
  pub columns : List Column
  pub constraints : List Constraint
  pub indexes : List Index
  pub triggers : List Text

pub record Schema : Type 0 where
  pub tables : List Table
  pub types : List Text
  pub functions : List Text

pub data Operation : Type 0 where
  -- the name, the columns and the constraints of the new table
  create_table : Text → List Column → List Constraint → Operation
  drop_table : Text → Operation
  create_index : Index → Operation
  -- the name of the index and its table
  drop_index : Text → Text → Operation
  -- the table and the column
  add_column : Text → Column → Operation
  drop_column : Text → Text → Operation
  set_not_null : Text → Text → Operation
  alter_type : Text → Text → ColumnType → Operation
  create_type drop_type : Text → Operation
  create_or_replace_function drop_function_if_exists : Text → Operation
  -- the trigger and its table
  create_trigger drop_trigger_if_exists : Text → Text → Operation
  -- an UPDATE of rows, which leaves the schema as it is
  update_rows : Operation

abbrev pub guard : {A : Type 0} → Bool → A → Option A
guard true a = some a
guard false a = none

abbrev pub without : Text → List Text → List Text
without name = where_ (λ x. not (x == name))

abbrev pub has_table : Text → List Table → Bool
has_table name = exists (λ t. t.name == name)

abbrev pub has_index : Text → Table → Bool
has_index name t = exists (λ i. i.name == name) t.indexes

abbrev pub has_column : Text → Table → Bool
has_column name t = exists (λ c. c.name == name) t.columns

abbrev pub is_named : Text → Table → Bool
is_named name t = t.name == name

-- an operation on the tables of a name
abbrev pub on_table : Text → (Table → Table) → Schema → Schema
on_table name f s = record s { tables = update (is_named name) f s.tables }

-- the same on its columns of a name
abbrev pub on_column : Text → (Column → Column) → Table → Table
on_column name f t = record t { columns = update (λ c. c.name == name) f t.columns }

abbrev pub add_index : Index → Table → Table
add_index i t = record t { indexes = i ∷ t.indexes }

abbrev pub remove_index : Text → Table → Table
remove_index name t = record t { indexes = where_ (λ i. not (i.name == name)) t.indexes }

abbrev pub put_column : Column → Table → Table
put_column c t = record t { columns = c ∷ t.columns }

abbrev pub remove_column : Text → Table → Table
remove_column name t = record t { columns = where_ (λ c. not (c.name == name)) t.columns }

abbrev pub add_trigger : Text → Table → Table
add_trigger name t = record t { triggers = name ∷ t.triggers }

abbrev pub remove_trigger : Text → Table → Table
remove_trigger name t = record t { triggers = without name t.triggers }

abbrev pub not_null : Column → Column
not_null c = record c { nullable = false }

abbrev pub retype : ColumnType → Column → Column
retype type c = record c { type = type }

-- a table of the name that passes a test
abbrev pub table_with : Text → (Table → Bool) → Schema → Bool
table_with name p s = exists (λ t. is_named name t && p t) s.tables

unfoldable pub run : Operation → Schema → Option Schema
unfolding exists
run (create_table name columns constraints) s = guard (not (has_table name s.tables)) (record s {
  tables =
      record {
        name = name;
        columns = columns;
        constraints = constraints;
        indexes = [];
        triggers = [];
      }
      ∷ s.tables;
})
run (drop_table name) s =
    guard (has_table name s.tables)
      (record s { tables = where_ (λ t. not (is_named name t)) s.tables })
run (create_index i) s =
    guard (has_table i.table s.tables && not (exists (has_index i.name) s.tables))
      (on_table i.table (add_index i) s)
run (drop_index name table) s =
    guard (table_with table (has_index name) s) (on_table table (remove_index name) s)
run (add_column table c) s =
    guard (has_table table s.tables && not (table_with table (has_column c.name) s))
      (on_table table (put_column c) s)
run (drop_column table column) s =
    guard (table_with table (has_column column) s) (on_table table (remove_column column) s)
run (set_not_null table column) s =
    guard (table_with table (has_column column) s) (on_table table (on_column column not_null) s)
run (alter_type table column type) s =
    guard (table_with table (has_column column) s)
      (on_table table (on_column column (retype type)) s)
run (create_type name) s = guard (not (contains s.types name)) (record s { types = name ∷ s.types })
run (drop_type name) s = guard (contains s.types name) (record s { types = without name s.types })
run (create_or_replace_function name) s =
    some (record s { functions = name ∷ without name s.functions })
run (drop_function_if_exists name) s = some (record s { functions = without name s.functions })
run (create_trigger name table) s =
    guard (has_table table s.tables && not (table_with table (λ t. contains t.triggers name) s))
      (on_table table (add_trigger name) s)
run (drop_trigger_if_exists name table) s = some (on_table table (remove_trigger name) s)
run update_rows s = some s

-- the operations of a revision, one behind another, in one transaction
unfoldable pub run_all : List Operation → Schema → Option Schema
unfolding run
run_all [] s = some s
run_all (operation ∷ operations) s = elim (run operation s) [
  | none ↦ none
  | some s' ↦ run_all operations s'
]
