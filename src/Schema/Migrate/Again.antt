-- ===== src/Schema/Migrate/Again.antt =====
-- _schema.py, `migrate`, of a schema that is up to date.
use ksqlite.Prelude.{
  Each, ℕ, suc, ◌≡◌, refl, sym, ap, ◌∙◌, true, inl, inr, Option, none, some, List, [], ◌∷◌,
}
use mathlib.Core.Path.{subst}
use ksqlite.Errors.{ok}
use ksqlite.Text.{Text, contains}
use ksqlite.Types.{GeneratedColumn, Index}
use ksqlite.Sql.{render_column_clause, emit_create_index}
use ksqlite.World.{done}
use ksqlite.Schema.Migrate.{
  Boot, Task, ◌>>=◌, next, Sqlite, Ddl, execute, fetch, fetched, delete_all_owned, IndexEntry,
  index_entry, existing_index_shape, shape_of, check_column_drift, reconcile_columns,
  reconcile_index, reconcile_indexes, create_base, base_ddl, asserted, migrate, by_outcome, altered,
  counted, remapped, emitted, execute_migration_ddl,
}
use ksqlite.Schema.Migrate.Documented.{
  Present, HasColumn, IsSettled, IsSpelled, shape_from, index_shape, IsDocumented,
}
use ksqlite.Schema.Migrate.Migrated.{IsMigrated, migrate-IsMigrated}

-- It returns, and only the number of statements has grown.
abbrev Quiet : {K A : Type 0} → Task K A → A → Boot K → Type 0
Quiet m a s = (n : ℕ) × (m s ≡ (ok a, record s { calls = n }))

Quiet-bind :
    {K A B : Type 0} (m : Task K A) (f : A → Task K B) (a : A) (b : B) (s : Boot K)
    → Quiet m a s
    → ((n : ℕ) → Quiet (f a) b (record s { calls = n }))
    → Quiet (m >>= f) b s
unfolding ◌>>=◌
Quiet-bind m f a b s (n, first) rest = ((rest n).0, ap (λ x. next x f) first ∙ (rest n).1)

module _ {K : Type 0} (sqlite : Sqlite K) (healthy : (n : ℕ) → sqlite.outcome n ≡ done) where
  fetch-Quiet : {A : Type 0} (f : K → A) (s : Boot K) → Quiet (fetch sqlite f) (f s.catalog) s
  unfolding fetch
  fetch-Quiet f s =
      (suc s.calls, ap (λ o. fetched sqlite o (f s.catalog) (counted sqlite s)) (healthy s.calls))

  execute-Quiet :
      (d : Ddl) (s : Boot K) → Present sqlite s.catalog d → Quiet (execute sqlite d) tt s
  unfolding execute
  execute-Quiet d s there = (
    suc s.calls,
    ap
          (λ o.
            by_outcome sqlite o (altered sqlite (sqlite.execute_ddl d s.catalog) (counted sqlite s))
              (counted sqlite s))
          (healthy s.calls)
        ∙ ap (λ k. by_outcome sqlite done (altered sqlite k (counted sqlite s)) (counted sqlite s))
            there,
  )

  create_base-Quiet :
      (ds : List Ddl) (s : Boot K)
      → Each (Present sqlite s.catalog) ds
      → Quiet (create_base sqlite ds) tt s
  unfolding create_base
  create_base-Quiet [] s there = (s.calls, refl)
  create_base-Quiet (d ∷ ds) s (h, there) =
      Quiet-bind _ _ tt tt s (execute-Quiet d s h)
        (λ n. create_base-Quiet ds (record s { calls = n }) there)

  reconcile_columns-Quiet :
      (cs : List GeneratedColumn) (stored : Text) (s : Boot K)
      → sqlite.schema_sql s.catalog ≡ some stored
      → Each (HasColumn sqlite s.catalog) cs
      → Quiet (reconcile_columns sqlite (sqlite.table_xinfo s.catalog) stored cs) tt s
  unfolding reconcile_columns check_column_drift
  reconcile_columns-Quiet [] stored s read there = (s.calls, refl)
  reconcile_columns-Quiet (c ∷ cs) stored s read ((named, (t, has, clause)), there) =
      Quiet-bind _ _ tt tt s
        (
          s.calls,
          rw named (
              rw
                (subst (λ x. contains x (render_column_clause c) ≡ true) (same (sym has ∙ read))
                  clause)
                refl),
        )
        (λ n. reconcile_columns-Quiet cs stored (record s { calls = n }) read there)
    where
      same : {a b : Text} → some a ≡ some b → a ≡ b
      same e = cc e

  shape_of-Quiet :
      (name : Text) (entry : Option IndexEntry) (s : Boot K)
      → Quiet (shape_of sqlite name entry) (shape_from sqlite s.catalog name entry) s
  shape_of-Quiet name none s = (s.calls, refl)
  shape_of-Quiet name (some entry) s =
      Quiet-bind _ _ (sqlite.index_xinfo name s.catalog) _ s
        (fetch-Quiet (sqlite.index_xinfo name) s) (λ n. (n, refl))

  existing_index_shape-Quiet :
      (name : Text) (s : Boot K)
      → Quiet (existing_index_shape sqlite name) (index_shape sqlite s.catalog name) s
  unfolding existing_index_shape
  existing_index_shape-Quiet name s =
      Quiet-bind _ _ (sqlite.index_list s.catalog) _ s (fetch-Quiet sqlite.index_list s) (λ n.
        shape_of-Quiet name (index_entry name (sqlite.index_list s.catalog))
          (record s { calls = n }))

  reconcile_index-Quiet :
      (i : Index) (s : Boot K)
      → IsSettled sqlite s.catalog i
      → Quiet (reconcile_index sqlite i (index_shape sqlite s.catalog i.name)) tt s
  unfolding reconcile_index execute_migration_ddl
  reconcile_index-Quiet i s (inl (shape, has, equal)) =
      (s.calls, ap (λ o. reconcile_index sqlite i o s) has ∙ rw equal refl)
  reconcile_index-Quiet i s (inr (absent, there)) =
      let (n, ran) = execute-Quiet (emitted (emit_create_index i)) s there in
      (n, ap (λ o. reconcile_index sqlite i o s) absent ∙ ap (remapped sqlite) ran)

  reconcile_indexes-Quiet :
      (listed : List Index) (s : Boot K)
      → Each (IsSettled sqlite s.catalog) listed
      → Quiet (reconcile_indexes sqlite listed) tt s
  unfolding reconcile_indexes
  reconcile_indexes-Quiet [] s there = (s.calls, refl)
  reconcile_indexes-Quiet (i ∷ listed) s (settled, there) =
      Quiet-bind _ _ (index_shape sqlite s.catalog i.name) tt s
        (existing_index_shape-Quiet i.name s)
        λ n.
          Quiet-bind _ _ tt tt (record s { calls = n })
            (reconcile_index-Quiet i (record s { calls = n }) settled)
            (λ n. reconcile_indexes-Quiet listed (record s { calls = n }) there)

  delete_all_owned-Quiet : (s : Boot K) → s.db.owned ≡ [] → Quiet (delete_all_owned sqlite) tt s
  unfolding delete_all_owned
  delete_all_owned-Quiet s empty = (
    suc s.calls,
    ap
          (λ o.
            by_outcome sqlite o (ok (record (counted sqlite s) { db = record s.db { owned = [] } }))
              (counted sqlite s))
          (healthy s.calls)
        ∙ ap (λ owned. (ok tt, record (counted sqlite s) { db = record s.db { owned = owned } }))
            (sym empty),
  )

  pub migrate-Quiet :
      (columns : List GeneratedColumn) (indexes : List Index) (s : Boot K)
      → IsMigrated sqlite columns indexes s.catalog
      → s.db.owned ≡ []
      → Quiet (migrate sqlite columns indexes) tt s
  unfolding migrate
  migrate-Quiet columns indexes s (base, (stored, text), all, made) empty =
      Quiet-bind _ _ tt tt s (create_base-Quiet base_ddl s base) λ n.
        Quiet-bind _ _ tt tt (record s { calls = n })
          (delete_all_owned-Quiet (record s { calls = n }) empty)
          λ n.
            Quiet-bind _ _ (sqlite.table_xinfo s.catalog) tt (record s { calls = n })
              (fetch-Quiet sqlite.table_xinfo (record s { calls = n }))
              λ n.
                Quiet-bind _ _ (sqlite.schema_sql s.catalog) tt (record s { calls = n })
                  (fetch-Quiet sqlite.schema_sql (record s { calls = n }))
                  λ n.
                    Quiet-bind _ _ stored tt (record s { calls = n })
                      (n, ap (λ row. asserted sqlite row (record s { calls = n })) text)
                      λ n.
                        Quiet-bind _ _ tt tt (record s { calls = n })
                          (reconcile_columns-Quiet columns stored (record s { calls = n }) text all)
                          λ n.
                            Quiet-bind _ _ (sqlite.index_list s.catalog) tt (record s { calls = n })
                              (fetch-Quiet sqlite.index_list (record s { calls = n }))
                              λ n. reconcile_indexes-Quiet indexes (record s { calls = n }) made

-- Where SQLite does what it documents (`IsDocumented`) and executes every statement, a migration that
-- has returned, and whose declared indexes are of columns that the table then has, in their spelling,
-- can be repeated at the next start, with the same columns and indexes: it returns, and the catalog,
-- the rows, the checkpoints and the ownership stay as they are.
pub migrate_again :
    {K : Type 0} (sqlite : Sqlite K) (IsColumn : GeneratedColumn → Type 0)
    (IsIndex : Index → Type 0) (columns : List GeneratedColumn) (indexes : List Index)
    (s t : Boot K)
    → IsDocumented sqlite IsColumn IsIndex
    → Each IsColumn columns
    → Each IsIndex indexes
    → Each (IsSpelled sqlite t.catalog) indexes
    → ((n : ℕ) → sqlite.outcome n ≡ done)
    → migrate sqlite columns indexes s ≡ (ok tt, t)
    → (n : ℕ) × (migrate sqlite columns indexes t ≡ (ok tt, record t { calls = n }))
migrate_again sqlite IsColumn IsIndex columns indexes s t documented cs is spelled healthy
      returned =
    let (migrated, rows) =
      migrate-IsMigrated sqlite IsColumn IsIndex columns indexes s t documented cs is spelled
        returned in
    migrate-Quiet sqlite healthy columns indexes t migrated (ap (λ d. d.owned) rows)
