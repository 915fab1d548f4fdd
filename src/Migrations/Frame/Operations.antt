-- ===== src/Migrations/Frame/Operations.antt =====
-- Each operation of a catalog, run beside another catalog that it spares.
use collabflow.Common.{
  any-append, Bool, true, false, Option, none, some, Text, List, [], ◌∷◌, ◌++◌, any, ◌≡◌, refl, ap,
  text_eq, arith,
}
use collabflow.Migrations.Frame.{beside, refers, map_fixes}
use collabflow.Migrations.Catalog.{
  ColumnType, Reference, Column, Table, EnumType, Catalog, has_table, has_type, is_enum,
  holds_table, holds_type, is_known_table, is_known_type, all_known, retyped, retype, if_so, enum,
  uuid, timestamp, text, boolean, integer, big_integer, date, jsonb, string,
}

pub if_so-some : (test : Bool) (d c : Catalog) → if_so test d ≡ some c → (test ≡ true) × (d ≡ c)
if_so-some true d c h = (refl, ground arith)
if_so-some false d c h = ground arith

pub is_known_table_append :
    (n : Text) (ts us : List Table) (r : Option Reference)
    → is_known_table n ts r ≡ true
    → is_known_table n (ts ++ us) r ≡ true
unfolding has_table
is_known_table_append n ts us none h = refl
is_known_table_append n ts us (some r) h =
    ground (arith, any-append (λ t. text_eq t.name r.table) ts us)

pub is_known_type_append :
    (ts us : List EnumType) (t : ColumnType)
    → is_known_type ts t ≡ true
    → is_known_type (ts ++ us) t ≡ true
unfolding has_type
is_known_type_append ts us (enum n) h = ground (arith, any-append (λ t. text_eq t.name n) ts us)
is_known_type_append ts us uuid h = refl
is_known_type_append ts us timestamp h = refl
is_known_type_append ts us text h = refl
is_known_type_append ts us boolean h = refl
is_known_type_append ts us integer h = refl
is_known_type_append ts us big_integer h = refl
is_known_type_append ts us date h = refl
is_known_type_append ts us jsonb h = refl
is_known_type_append ts us (string w) h = refl

pub all_known-beside :
    (n : Text) (c b : Catalog) (cols : List Column)
    → all_known n c cols ≡ true
    → all_known n (beside c b) cols ≡ true
all_known-beside n c b [] h = refl
all_known-beside n c b (col ∷ cols) h = ground (
  arith,
  is_known_table_append n c.tables b.tables col.references (ground arith),
  is_known_type_append c.types b.types col.type (ground arith),
  all_known-beside n c b cols (ground arith),
)

-- A type that a table does not use is renamed without it.
retyped_other : (old new : Text) (t : ColumnType) → is_enum old t ≡ false → retyped old new t ≡ t
retyped_other old new (enum n) h = ground arith
retyped_other old new uuid h = refl
retyped_other old new timestamp h = refl
retyped_other old new text h = refl
retyped_other old new boolean h = refl
retyped_other old new integer h = refl
retyped_other old new big_integer h = refl
retyped_other old new date h = refl
retyped_other old new jsonb h = refl
retyped_other old new (string w) h = refl

pub retype_other : (old new : Text) (t : Table) → holds_type old t ≡ false → retype old new t ≡ t
unfolding retype
retype_other old new t h =
    ap (λ cols. record t { columns = cols })
      (map_fixes (λ c. is_enum old c.type)
        (λ (c : Column). record c { type = retyped old new c.type }) t.columns h
        (λ c other. ap (λ u. record c { type = u }) (retyped_other old new c.type other)))

-- A table of the other catalog does not refer to a table that the operation mentions.
pub holds_table-refers :
    (n : Text) (ts : List Table) → refers n ts ≡ false → any (holds_table n) ts ≡ false
unfolding refers any
holds_table-refers n [] h = refl
holds_table-refers n (t ∷ ts) h = ground (arith, holds_table-refers n ts (ground arith))
