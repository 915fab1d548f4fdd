-- ===== src/Migrations/Catalog.antt =====
-- The catalog: types, tables, indexes, and the operations on it.
use collabflow.Common.{
  ℕ, Bool, true, false, not, ◌&&◌, ◌||◌, Option, none, some, Text, List, [], ◌∷◌, ◌++◌, any, select,
  map, text_eq, if◌then◌else◌,
}

pub data ColumnType : Type 0 where
  uuid timestamp text boolean integer big_integer date jsonb : ColumnType
  string : (width : ℕ) → ColumnType
  enum : (type_name : Text) → ColumnType

pub data OnDelete : Type 0 where
  no_action set_null cascade : OnDelete

pub record Reference : Type 0 where
  pub table : Text
  pub on_delete : OnDelete

-- sa.Column. Server defaults are left out.
pub record Column : Type 0 where
  pub name : Text
  pub type : ColumnType
  pub nullable : Bool
  pub primary_key : Bool
  pub unique : Bool
  pub references : Option Reference

-- A unique constraint or an index, over columns.
pub record Index : Type 0 where
  pub name : Text
  pub columns : List Text
  pub unique : Bool

pub record Table : Type 0 where
  pub name : Text
  pub columns : List Column
  pub constraints : List Index
  pub indexes : List Index

pub record EnumType : Type 0 where
  pub name : Text
  pub values : List Text

pub record Catalog : Type 0 where
  pub types : List EnumType
  pub tables : List Table

pub data Op : Type 0 where
  create_type : EnumType → Op
  drop_type : Text → Op
  rename_type : (old new : Text) → Op
  -- ALTER TYPE … ADD VALUE IF NOT EXISTS
  add_value : (type_name value : Text) → Op
  create_table : Table → Op
  drop_table : Text → Op
  create_index : (table : Text) → Index → Op

unfoldable pub has_table : Text → List Table → Bool
has_table n ts = any (λ t. text_eq t.name n) ts

unfoldable pub has_type : Text → List EnumType → Bool
has_type n ts = any (λ t. text_eq t.name n) ts

abbrev pub refers_to : Text → Option Reference → Bool
refers_to n none = false
refers_to n (some r) = text_eq r.table n

abbrev pub is_enum : Text → ColumnType → Bool
is_enum n (enum m) = text_eq m n
is_enum n _ = false

-- A foreign key of another table holds a table, and a column holds its type.
abbrev pub holds_table : Text → Table → Bool
holds_table n t = not (text_eq t.name n) && any (λ c. refers_to n c.references) t.columns

abbrev pub holds_type : Text → Table → Bool
holds_type n t = any (λ c. is_enum n c.type) t.columns

-- What a new table needs: the tables of its foreign keys, itself among them, and its types.
abbrev pub is_known_table : Text → List Table → Option Reference → Bool
is_known_table self ts none = true
is_known_table self ts (some r) = text_eq r.table self || has_table r.table ts

abbrev pub is_known_type : List EnumType → ColumnType → Bool
is_known_type ts (enum n) = has_type n ts
is_known_type ts _ = true

abbrev pub all_known : (self : Text) → Catalog → List Column → Bool
all_known self c [] = true
all_known self c (col ∷ cols) =
    is_known_table self c.tables col.references
    && is_known_type c.types col.type
    && all_known self c cols

abbrev pub retyped : (old new : Text) → ColumnType → ColumnType
retyped old new (enum n) = if text_eq n old then enum new else enum n
retyped old new t = t

-- Tables and indexes, those of the constraints among them, share one space of names.
unfoldable pub has_relation : Text → Table → Bool
has_relation n t =
    text_eq t.name n
    || any (λ (i : Index). text_eq i.name n) t.constraints
    || any (λ (i : Index). text_eq i.name n) t.indexes

abbrev pub has_columns : List Text → Table → Bool
has_columns [] t = true
has_columns (n ∷ ns) t = any (λ c. text_eq c.name n) t.columns && has_columns ns t

-- A table that an index on the columns can be made on.
unfoldable pub can_index : (table : Text) → (columns : List Text) → Table → Bool
can_index n ns t = text_eq t.name n && has_columns ns t

-- A column keeps its type under the type's new name.
unfoldable pub retype : (old new : Text) → Table → Table
retype old new t = record t {
  columns = map (λ (c : Column). record c { type = retyped old new c.type }) t.columns;
}

abbrev pub grown : (value : Text) → List Text → List Text
grown v vs = if any (λ w. text_eq w v) vs then vs else vs ++ v ∷ []

unfoldable pub renamed : (old new : Text) → EnumType → EnumType
renamed old new t = if text_eq t.name old then record t { name = new } else t

unfoldable pub extended : (type_name value : Text) → EnumType → EnumType
extended n v t = if text_eq t.name n then record t { values = grown v t.values } else t

unfoldable pub indexed : (table : Text) → Index → Table → Table
indexed n i t = if text_eq t.name n then record t { indexes = t.indexes ++ i ∷ [] } else t

abbrev pub if_so : Bool → Catalog → Option Catalog
if_so true c = some c
if_so false c = none

-- `none` is an error of the server. The types are created and dropped with `checkfirst`.
unfoldable pub apply : Op → Catalog → Option Catalog
unfolding has_table has_type retype renamed extended indexed has_relation can_index
apply (create_type t) c =
    some (if has_type t.name c.types then c else record c { types = t ∷ c.types })
apply (drop_type n) c =
    if has_type n c.types
    then if_so (not (any (holds_type n) c.tables))
        (record c { types = select (λ t. not (text_eq t.name n)) c.types })
    else some c
apply (rename_type old new) c =
    if_so (has_type old c.types && not (has_type new c.types))
      (record c { types = map (renamed old new) c.types; tables = map (retype old new) c.tables })
apply (add_value n v) c =
    if_so (has_type n c.types) (record c { types = map (extended n v) c.types })
apply (create_table t) c =
    if_so (not (has_table t.name c.tables) && all_known t.name c t.columns)
      (record c { tables = t ∷ c.tables })
apply (drop_table n) c =
    if_so (has_table n c.tables && not (any (holds_table n) c.tables))
      (record c { tables = select (λ t. not (text_eq t.name n)) c.tables })
apply (create_index n i) c =
    if_so (any (can_index n i.columns) c.tables && not (any (has_relation i.name) c.tables))
      (record c { tables = map (indexed n i) c.tables })

abbrev pub then_run {ℓ} : {A : Type ℓ} → Option A → (A → Option A) → Option A
then_run none f = none
then_run (some s) f = f s

unfoldable pub run : List Op → Catalog → Option Catalog
unfolding apply
run [] c = some c
run (op ∷ ops) c = then_run (apply op c) (run ops)
