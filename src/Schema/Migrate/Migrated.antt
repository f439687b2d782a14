-- ===== src/Schema/Migrate/Migrated.antt =====
-- _schema.py, `migrate`, where it returns.
use ksqlite.Prelude.{Each, ◌≡◌, sym, ap, ◌∙◌, Option, List, [], ◌∷◌}
use mathlib.Core.Path.{subst}
use ksqlite.Errors.{ok}
use ksqlite.Text.{Text}
use ksqlite.Types.{GeneratedColumn, Index}
use ksqlite.Schema.{Db}
use ksqlite.Schema.Migrate.{
  Boot, Sqlite, Ddl, fetch, delete_all_owned, IndexEntry, reconcile_columns, reconcile_indexes,
  create_base, base_ddl, asserted, migrate,
}
use ksqlite.Schema.Migrate.Step.{parts_of-returned, fetch-returned}
use ksqlite.Schema.Migrate.Documented.{
  IsBase, Present, HasTable, HasColumn, IsSettled, IsSpelled, Keeps, IsDocumented,
}
use ksqlite.Schema.Migrate.Pieces.{
  same, then_also, create_base-Present, reconcile_columns-HasColumn, reconcile_indexes-IsSettled,
  deleted, asserted-returned,
}

-- What a migration has reached: the base schema, the columns and the indexes, all there.
abbrev pub IsMigrated : {K : Type 0} → Sqlite K → List GeneratedColumn → List Index → K → Type 0
IsMigrated sqlite columns indexes k =
    Each (Present sqlite k) base_ddl
    × HasTable sqlite k
    × Each (HasColumn sqlite k) columns
    × Each (IsSettled sqlite k) indexes

module _ {K : Type 0} (sqlite : Sqlite K) (IsColumn : GeneratedColumn → Type 0)
    (IsIndex : Index → Type 0) (documented : IsDocumented sqlite IsColumn IsIndex)
    (columns : List GeneratedColumn) (indexes : List Index) (cs : Each IsColumn columns)
    (is : Each IsIndex indexes) where
  Each-objects :
      (ds : List Ddl) (k k' : K)
      → Each IsBase ds
      → Keeps sqlite IsColumn IsIndex k k'
      → Each (Present sqlite k) ds
      → Each (Present sqlite k') ds
  Each-objects [] k k' base kept there = tt
  Each-objects (d ∷ ds) k k' (b, base) kept (h, there) =
      (kept.objects d b h, Each-objects ds k k' base kept there)

  Each-columns :
      (cs : List GeneratedColumn) (k k' : K)
      → Each IsColumn cs
      → Keeps sqlite IsColumn IsIndex k k'
      → Each (HasColumn sqlite k) cs
      → Each (HasColumn sqlite k') cs
  Each-columns [] k k' all kept there = tt
  Each-columns (c ∷ cs) k k' (b, all) kept (h, there) =
      (kept.columns c b h, Each-columns cs k k' all kept there)

  -- The columns, against the schema that was read.
  columns_reached :
      (existing : List Text) (row : Option Text) (stored : Text) (s2 s3 s4 s5 s6 : Boot K)
      → fetch sqlite sqlite.table_xinfo s2 ≡ (ok existing, s3)
      → fetch sqlite sqlite.schema_sql s3 ≡ (ok row, s4)
      → asserted sqlite row s4 ≡ (ok stored, s5)
      → reconcile_columns sqlite existing stored columns s5 ≡ (ok tt, s6)
      → HasTable sqlite s6.catalog
        × Each (HasColumn sqlite s6.catalog) columns
        × Keeps sqlite IsColumn IsIndex s2.catalog s6.catalog
        × (s6.db ≡ s2.db)
  columns_reached existing row stored s2 s3 s4 s5 s6 listed asked found reconciled =
      let (names, still) = fetch-returned sqlite sqlite.table_xinfo existing s2 s3 listed in
      let (text, still2) = fetch-returned sqlite sqlite.schema_sql row s3 s4 asked in
      let (there, at5) =
        asserted-returned sqlite IsColumn IsIndex documented row stored s4 s5 found in
      let moved : s5.catalog ≡ s2.catalog = ap (λ x. x.catalog) (sym at5) ∙ still2.0 ∙ still.0 in
      let kept : Keeps sqlite IsColumn IsIndex s2.catalog s5.catalog =
        subst (Keeps sqlite IsColumn IsIndex s2.catalog) (sym moved)
          (same sqlite IsColumn IsIndex documented s2.catalog) in
      let (all, kept2, rows) =
        reconcile_columns-HasColumn sqlite IsColumn IsIndex documented s2.catalog stored columns s5
          s6 (ap sqlite.schema_sql (sym still.0) ∙ text ∙ there) kept cs
          (ap (λ e. reconcile_columns sqlite e stored columns s5) names ∙ reconciled) in
      (
        (then_also sqlite IsColumn IsIndex documented kept kept2).table
            (stored, ap sqlite.schema_sql (sym still.0) ∙ text ∙ there),
        all,
        then_also sqlite IsColumn IsIndex documented kept kept2,
        rows ∙ ap (λ x. x.db) (sym at5) ∙ still2.1 ∙ still.1,
      )

  reached :
      (names : List Text) (rows : List IndexEntry) (row : Option Text) (stored : Text)
      (s s1 s2 s3 s4 s5 s6 s7 t : Boot K)
      → create_base sqlite base_ddl s ≡ (ok tt, s1)
      → delete_all_owned sqlite s1 ≡ (ok tt, s2)
      → fetch sqlite sqlite.table_xinfo s2 ≡ (ok names, s3)
      → fetch sqlite sqlite.schema_sql s3 ≡ (ok row, s4)
      → asserted sqlite row s4 ≡ (ok stored, s5)
      → reconcile_columns sqlite names stored columns s5 ≡ (ok tt, s6)
      → fetch sqlite sqlite.index_list s6 ≡ (ok rows, s7)
      → Each (IsSpelled sqlite t.catalog) indexes
      → reconcile_indexes sqlite indexes s7 ≡ (ok tt, t)
      → IsMigrated sqlite columns indexes t.catalog × (t.db ≡ record s.db { owned = [] })
  reached names rows row stored s s1 s2 s3 s4 s5 s6 s7 t created emptied listed asked found
        reconciled scanned spelled indexed =
      let (base, kept, same_rows) =
        create_base-Present sqlite IsColumn IsIndex documented base_ddl s s1
          (tt, (tt, (tt, (tt, (tt, (tt, tt)))))) created in
      let (kept2, emptied_rows) = deleted sqlite IsColumn IsIndex documented s1 s2 emptied in
      let (table, all, kept3, rows3) =
        columns_reached names row stored s2 s3 s4 s5 s6 listed asked found reconciled in
      let (read, still) = fetch-returned sqlite sqlite.index_list rows s6 s7 scanned in
      let (made, same_columns, kept4, rows4) =
        reconcile_indexes-IsSettled sqlite IsColumn IsIndex documented indexes s7 t is spelled
          indexed in
      let onward : Keeps sqlite IsColumn IsIndex s6.catalog t.catalog =
        subst (λ k. Keeps sqlite IsColumn IsIndex k t.catalog) still.0 kept4 in
      let from_base : Keeps sqlite IsColumn IsIndex s1.catalog t.catalog =
        subst (λ k. Keeps sqlite IsColumn IsIndex k t.catalog) kept2
          (then_also sqlite IsColumn IsIndex documented kept3 onward) in
      (
        (
          Each-objects base_ddl _ _ (tt, (tt, (tt, (tt, (tt, (tt, tt)))))) from_base base,
          onward.table table,
          Each-columns columns _ _ cs onward all,
          made,
        ),
        rows4
            ∙ still.1
            ∙ rows3
            ∙ emptied_rows
            ∙ ap {A = Db} (λ d. record d { owned = [] }) same_rows,
      )

-- Where SQLite does what it documents (`IsDocumented`), a migration that returns, and whose declared
-- indexes are of columns that the table then has, in their spelling, leaves the base schema, every
-- declared column, with its clause in the text of the table, and every declared index in its shape,
-- unless its name is taken: no index of the table has this very name, and CREATE INDEX IF NOT EXISTS
-- does nothing. The rows and the checkpoints stay and the ownership is empty.
pub migrate-IsMigrated :
    {K : Type 0} (sqlite : Sqlite K) (IsColumn : GeneratedColumn → Type 0)
    (IsIndex : Index → Type 0) (columns : List GeneratedColumn) (indexes : List Index)
    (s t : Boot K)
    → IsDocumented sqlite IsColumn IsIndex
    → Each IsColumn columns
    → Each IsIndex indexes
    → Each (IsSpelled sqlite t.catalog) indexes
    → migrate sqlite columns indexes s ≡ (ok tt, t)
    → IsMigrated sqlite columns indexes t.catalog × (t.db ≡ record s.db { owned = [] })
unfolding migrate
migrate-IsMigrated sqlite IsColumn IsIndex columns indexes s t documented cs is spelled h =
    let (u, s1, created, h1) = parts_of-returned _ _ s tt t h in
    let (u2, s2, emptied, h2) = parts_of-returned _ _ s1 tt t h1 in
    let (existing, s3, listed, h3) = parts_of-returned _ _ s2 tt t h2 in
    let (row, s4, asked, h4) = parts_of-returned _ _ s3 tt t h3 in
    let (stored, s5, found, h5) = parts_of-returned _ _ s4 tt t h4 in
    let (u6, s6, reconciled, h6) = parts_of-returned _ _ s5 tt t h5 in
    let (rows, s7, scanned, indexed) = parts_of-returned _ _ s6 tt t h6 in
    reached sqlite IsColumn IsIndex documented columns indexes cs is existing rows row stored s s1
      s2 s3 s4 s5 s6 s7 t created emptied listed asked found reconciled scanned spelled indexed
