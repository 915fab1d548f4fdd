-- ===== src/Migrations/Columns.antt =====
-- The columns that the migrations write.
use collabflow.Common.{Bool, true, false, none, some, Text, List, [], ◌∷◌, codes, String}
use collabflow.Migrations.Catalog.{
  ColumnType, OnDelete, Column, Index, Table, EnumType, uuid, timestamp,
}

abbrev pub column : String → ColumnType → (nullable : Bool) → Column
column name type nullable = record {
  name = codes name;
  type = type;
  nullable = nullable;
  primary_key = false;
  unique = false;
  references = none;
}

-- sa.Column(name, UUID, sa.ForeignKey(f"{table}.id", ondelete=on_delete), nullable=nullable)
abbrev pub reference : String → String → OnDelete → (nullable : Bool) → Column
reference name table on_delete nullable = record (column name uuid nullable) {
  references = some (record { table = codes table; on_delete = on_delete });
}

abbrev pub key : Column → Column
key c = record c { primary_key = true }

abbrev pub unique_column : Column → Column
unique_column c = record c { unique = true }

-- id, created_at and updated_at, in front of a table's own columns
abbrev pub with_base : List Column → List Column
with_base cols =
    key (column "id" uuid false)
    ∷ column "created_at" timestamp false
    ∷ column "updated_at" timestamp false
    ∷ cols

abbrev pub index_on : String → List Text → (unique : Bool) → Index
index_on name columns unique = record { name = codes name; columns = columns; unique = unique }

abbrev pub table : String → List Column → (constraints : List Index) → Table
table name columns constraints = record {
  name = codes name;
  columns = columns;
  constraints = constraints;
  indexes = [];
}

abbrev pub enum_type : String → (values : List Text) → EnumType
enum_type name values = record { name = codes name; values = values }
