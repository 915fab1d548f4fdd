-- ===== src/Migrations/Frame/Runs.antt =====
-- A run beside another catalog that it spares.
use collabflow.Common.{
  any-append, Bool, true, not, ◌||◌, some, Text, List, [], ◌∷◌, ◌++◌, any, select, map, ◌≡◌, refl,
  ap, ◌∙◌, inl, inr, Bool-cases, Option-cases, text_eq, arith, if◌then◌else◌,
}
use collabflow.Migrations.Frame.{
  beside, spares, all_spare, select-append, select-any, map-append, map_fixes,
}
use collabflow.Migrations.Frame.Operations.{
  if_so-some, all_known-beside, retype_other, holds_table-refers,
}
use collabflow.Migrations.Catalog.{
  Index, Table, EnumType, Catalog, Op, create_type, drop_type, rename_type, add_value, create_table,
  drop_table, create_index, has_table, has_type, holds_table, holds_type, retype, renamed, extended,
  indexed, can_index, has_relation, if_so, apply, then_run, run,
}

if_so-true : (test : Bool) (c : Catalog) → test ≡ true → if_so test c ≡ some c
if_so-true test c h = rw h refl

create_type-beside :
    (t : EnumType) (c b c' : Catalog)
    → spares (create_type t) b ≡ true
    → apply (create_type t) c ≡ some c'
    → apply (create_type t) (beside c b) ≡ some (beside c' b)
unfolding spares apply has_type
create_type-beside t c b c' apart h = elim (Bool-cases (has_type t.name c.types)) [
  | inl known ↦ ground (arith, any-append (λ u. text_eq u.name t.name) c.types b.types)
  | inr fresh ↦ ground (arith, any-append (λ u. text_eq u.name t.name) c.types b.types)
]

create_table-beside :
    (t : Table) (c b c' : Catalog)
    → spares (create_table t) b ≡ true
    → apply (create_table t) c ≡ some c'
    → apply (create_table t) (beside c b) ≡ some (beside c' b)
unfolding spares apply has_table
create_table-beside t c b c' apart h =
    let done = if_so-some _ _ _ h in
    if_so-true _ _ (
      ground (
        arith,
        any-append (λ u. text_eq u.name t.name) c.tables b.tables,
        all_known-beside t.name c b t.columns (ground (arith, done.0)),
      ))
    ∙ ap (λ d. some (beside d b)) done.1

drop_table-beside :
    (n : Text) (c b c' : Catalog)
    → spares (drop_table n) b ≡ true
    → apply (drop_table n) c ≡ some c'
    → apply (drop_table n) (beside c b) ≡ some (beside c' b)
unfolding spares apply has_table
drop_table-beside n c b c' apart h =
    let done = if_so-some _ _ _ h in
    let kept =
      select-append (λ t. not (text_eq t.name n)) c.tables b.tables
      ∙ ap (λ ts. select (λ t. not (text_eq t.name n)) c.tables ++ ts)
          (select-any (λ t. text_eq t.name n) b.tables (ground arith)) in
    if_so-true _ _ (
      ground (
        arith,
        done.0,
        any-append (λ t. text_eq t.name n) c.tables b.tables,
        any-append (holds_table n) c.tables b.tables,
        holds_table-refers n b.tables (ground arith),
      ))
    ∙ ap (λ ts. some (record { types = c.types ++ b.types; tables = ts })) kept
    ∙ ap (λ d. some (beside d b)) done.1

drop_type-beside :
    (n : Text) (c b c' : Catalog)
    → spares (drop_type n) b ≡ true
    → apply (drop_type n) c ≡ some c'
    → apply (drop_type n) (beside c b) ≡ some (beside c' b)
unfolding spares apply has_type
drop_type-beside n c b c' apart h = elim (Bool-cases (any (λ t. text_eq t.name n) c.types)) [
  | inl known ↦
      let done = if_so-some _ _ _ (rw known at h) in
      let kept =
        select-append (λ t. not (text_eq t.name n)) c.types b.types
        ∙ ap (λ ts. select (λ t. not (text_eq t.name n)) c.types ++ ts)
            (select-any (λ t. text_eq t.name n) b.types (ground arith)) in
      ap
        (λ test.
          if test
          then if_so (not (any (holds_type n) (c.tables ++ b.tables))) (record {
            types = select (λ t. not (text_eq t.name n)) (c.types ++ b.types);
            tables = c.tables ++ b.tables;
          })
          else some (beside c b))
        (any-append (λ t. text_eq t.name n) c.types b.types
          ∙ ap (λ k. k || any (λ t. text_eq t.name n) b.types) known)
      ∙ if_so-true _ _ (ground (arith, done.0, any-append (holds_type n) c.tables b.tables))
      ∙ ap (λ ts. some (record { types = ts; tables = c.tables ++ b.tables })) kept
      ∙ ap (λ d. some (beside d b)) done.1
  | inr unknown ↦ ground (arith, any-append (λ t. text_eq t.name n) c.types b.types)
]

rename_type-beside :
    (old new : Text) (c b c' : Catalog)
    → spares (rename_type old new) b ≡ true
    → apply (rename_type old new) c ≡ some c'
    → apply (rename_type old new) (beside c b) ≡ some (beside c' b)
unfolding spares apply has_type renamed
rename_type-beside old new c b c' apart h =
    let done = if_so-some _ _ _ h in
    let types =
      map-append (renamed old new) c.types b.types
      ∙ ap (λ ts. map (renamed old new) c.types ++ ts)
          (map_fixes (λ t. text_eq t.name old) (renamed old new) b.types (ground arith)
            (λ t other. ground arith)) in
    let tables =
      map-append (retype old new) c.tables b.tables
      ∙ ap (λ ts. map (retype old new) c.tables ++ ts)
          (map_fixes (holds_type old) (retype old new) b.tables (ground arith)
            (retype_other old new)) in
    if_so-true _ _ (
      ground (
        arith,
        done.0,
        any-append (λ t. text_eq t.name old) c.types b.types,
        any-append (λ t. text_eq t.name new) c.types b.types,
      ))
    ∙ ap (λ ts. some (record { types = ts; tables = map (retype old new) (c.tables ++ b.tables) }))
        types
    ∙ ap (λ ts. some (record { types = map (renamed old new) c.types ++ b.types; tables = ts }))
        tables
    ∙ ap (λ d. some (beside d b)) done.1

add_value-beside :
    (n v : Text) (c b c' : Catalog)
    → spares (add_value n v) b ≡ true
    → apply (add_value n v) c ≡ some c'
    → apply (add_value n v) (beside c b) ≡ some (beside c' b)
unfolding spares apply has_type extended
add_value-beside n v c b c' apart h =
    let done = if_so-some _ _ _ h in
    let types =
      map-append (extended n v) c.types b.types
      ∙ ap (λ ts. map (extended n v) c.types ++ ts)
          (map_fixes (λ t. text_eq t.name n) (extended n v) b.types (ground arith)
            (λ t other. ground arith)) in
    if_so-true _ _ (ground (arith, done.0, any-append (λ t. text_eq t.name n) c.types b.types))
    ∙ ap (λ ts. some (record { types = ts; tables = c.tables ++ b.tables })) types
    ∙ ap (λ d. some (beside d b)) done.1

create_index-beside :
    (n : Text) (i : Index) (c b c' : Catalog)
    → spares (create_index n i) b ≡ true
    → apply (create_index n i) c ≡ some c'
    → apply (create_index n i) (beside c b) ≡ some (beside c' b)
unfolding spares apply has_table indexed
create_index-beside n i c b c' apart h =
    let done = if_so-some _ _ _ h in
    let tables =
      map-append (indexed n i) c.tables b.tables
      ∙ ap (λ ts. map (indexed n i) c.tables ++ ts)
          (map_fixes (λ t. text_eq t.name n) (indexed n i) b.tables (ground arith)
            (λ t other. ground arith)) in
    if_so-true _ _ (
      ground (
        arith,
        done.0,
        any-append (can_index n i.columns) c.tables b.tables,
        any-append (has_relation i.name) c.tables b.tables,
      ))
    ∙ ap (λ ts. some (record { types = c.types ++ b.types; tables = ts })) tables
    ∙ ap (λ d. some (beside d b)) done.1

apply-beside :
    (op : Op) (c b c' : Catalog)
    → spares op b ≡ true
    → apply op c ≡ some c'
    → apply op (beside c b) ≡ some (beside c' b)
apply-beside (create_type t) c b c' apart h = create_type-beside t c b c' apart h
apply-beside (drop_type n) c b c' apart h = drop_type-beside n c b c' apart h
apply-beside (rename_type old new) c b c' apart h = rename_type-beside old new c b c' apart h
apply-beside (add_value n v) c b c' apart h = add_value-beside n v c b c' apart h
apply-beside (create_table t) c b c' apart h = create_table-beside t c b c' apart h
apply-beside (drop_table n) c b c' apart h = drop_table-beside n c b c' apart h
apply-beside (create_index n i) c b c' apart h = create_index-beside n i c b c' apart h

-- Operations that run on a catalog run in the same way beside another one that they spare.
pub run-beside :
    (ops : List Op) (c b c' : Catalog)
    → all_spare ops b ≡ true
    → run ops c ≡ some c'
    → run ops (beside c b) ≡ some (beside c' b)
unfolding run all_spare
run-beside [] c b c' apart h = ap (λ d. some (beside d b)) (ground arith)
run-beside (op ∷ ops) c b c' apart h = elim (Option-cases (apply op c)) [
  | inl refused ↦ ground (arith, refused)
  | inr (d, done) ↦
      ap (λ r. then_run r (run ops)) (apply-beside op c b d (ground arith) done)
      ∙ run-beside ops d b c' (ground arith) (rw done at h)
]
