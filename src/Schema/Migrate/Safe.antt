-- ===== src/Schema/Migrate/Safe.antt =====
-- _schema.py, `migrate`: its exceptions, and the rows of the file.
use ksqlite.Prelude.{
  ◌≡◌, refl, ◌∙◌, Bool, true, false, Option, none, some, List, [], ◌∷◌, if◌then◌else◌,
}
use ksqlite.Errors.{
  Exn, Result, ok, err, config_error, schema_migration_error, assertion_error, sqlite_busy,
  sqlite_failure, cancelled,
}
use ksqlite.Text.{Text, text_in, contains}
use ksqlite.Types.{GeneratedColumn, Index}
use ksqlite.Sql.{render_column_clause, emit_add_column, emit_create_index}
use ksqlite.World.{Outcome, done, busy, failure, cancel}
use ksqlite.Schema.Migrate.{
  Boot, Task, ◌>>=◌, next, Sqlite, Ddl, emitted, execute, execute_migration_ddl, fetch, fetched,
  delete_all_owned, Shape, shape_eq, declared_shape, IndexEntry, index_entry, existing_index_shape,
  shape_of, check_column_drift, checked, reconcile_columns, reconcile_index, reconcile_indexes,
  create_base, base_ddl, asserted, migrate, by_outcome, altered, counted, remapped,
}

-- The exceptions of a migration.
abbrev pub IsEnd : Exn → Type 0
IsEnd config_error = Unit
IsEnd schema_migration_error = Unit
IsEnd assertion_error = Unit
IsEnd sqlite_busy = Unit
IsEnd sqlite_failure = Unit
IsEnd cancelled = Unit
IsEnd _ = ⊥

abbrev pub EndsWell : {A : Type 0} → Result A → Type 0
EndsWell (ok a) = Unit
EndsWell (err e) = IsEnd e

abbrev pub KeepsRows : {K : Type 0} → Boot K → Boot K → Type 0
KeepsRows s t = (t.db.records ≡ s.db.records) × (t.db.checkpoints ≡ s.db.checkpoints)

pub record Safe {K A : Type 0} (m : Task K A) : Type 0 where
  pub at : (s : Boot K) → KeepsRows s (m s).1 × EndsWell (m s).0

module _ {K : Type 0} where
  Safe-bind :
      {A B : Type 0} (m : Task K A) (f : A → Task K B)
      → Safe m
      → ((a : A) → Safe (f a))
      → Safe (m >>= f)
  unfolding ◌>>=◌
  Safe-bind {A} {B} m f hm hf = record { at = λ s. go s (m s) (hm.at s) }
    where
      go :
          (s : Boot K) (x : Result A × Boot K)
          → KeepsRows s x.1 × EndsWell x.0
          → KeepsRows s (next x f).1 × EndsWell (next x f).0
      go s (ok a, t) ((r, c), e) = let ((r2, c2), e2) = (hf a).at t in ((r2 ∙ r, c2 ∙ c), e2)
      go s (err x, t) h = h

  Safe-pure : {A : Type 0} (r : Result A) → EndsWell r → Safe {K = K} (λ s. (r, s))
  Safe-pure r h = record { at = λ s. ((refl, refl), h) }

module _ {K : Type 0} (sqlite : Sqlite K) where
  fetch-Safe : {A : Type 0} (f : K → A) → Safe (fetch sqlite f)
  unfolding fetch
  fetch-Safe {A} f = record { at = λ s. by_end s (sqlite.outcome s.calls) }
    where
      by_end :
          (s : Boot K) (o : Outcome)
          → KeepsRows s (fetched sqlite o (f s.catalog) (counted sqlite s)).1
            × EndsWell (fetched sqlite o (f s.catalog) (counted sqlite s)).0
      by_end s done = ((refl, refl), tt)
      by_end s busy = ((refl, refl), tt)
      by_end s failure = ((refl, refl), tt)
      by_end s (cancel b) = ((refl, refl), tt)

  execute-Safe : (d : Ddl) → Safe (execute sqlite d)
  unfolding execute
  execute-Safe d = record {
    at = λ s. by_end s (sqlite.outcome s.calls) (sqlite.execute_ddl d s.catalog);
  }
    where
      by_end :
          (s : Boot K) (o : Outcome) (k : Option K)
          → KeepsRows s
              (by_outcome sqlite o (altered sqlite k (counted sqlite s)) (counted sqlite s)).1
            × EndsWell
                (by_outcome sqlite o (altered sqlite k (counted sqlite s)) (counted sqlite s)).0
      by_end s done none = ((refl, refl), tt)
      by_end s done (some k) = ((refl, refl), tt)
      by_end s busy k = ((refl, refl), tt)
      by_end s failure k = ((refl, refl), tt)
      by_end s (cancel true) none = ((refl, refl), tt)
      by_end s (cancel true) (some k) = ((refl, refl), tt)
      by_end s (cancel false) k = ((refl, refl), tt)

  delete_all_owned-Safe : Safe (delete_all_owned sqlite)
  unfolding delete_all_owned
  delete_all_owned-Safe = record { at = λ s. by_end s (sqlite.outcome s.calls) }
    where
      emptied : Boot K → Result (Boot K)
      emptied s = ok (record (counted sqlite s) { db = record s.db { owned = [] } })

      by_end :
          (s : Boot K) (o : Outcome)
          → KeepsRows s (by_outcome sqlite o (emptied s) (counted sqlite s)).1
            × EndsWell (by_outcome sqlite o (emptied s) (counted sqlite s)).0
      by_end s done = ((refl, refl), tt)
      by_end s busy = ((refl, refl), tt)
      by_end s failure = ((refl, refl), tt)
      by_end s (cancel true) = ((refl, refl), tt)
      by_end s (cancel false) = ((refl, refl), tt)

  execute_migration_ddl-Safe : (text : Text) → Safe (execute_migration_ddl sqlite text)
  unfolding execute_migration_ddl
  execute_migration_ddl-Safe text = record {
    at = λ s. by_end s (execute sqlite (emitted text) s) ((execute-Safe (emitted text)).at s);
  }
    where
      by_end :
          (s : Boot K) (x : Result (Unit {0}) × Boot K)
          → KeepsRows s x.1 × EndsWell x.0
          → KeepsRows s (remapped sqlite x).1 × EndsWell (remapped sqlite x).0
      by_end s (ok u, t) h = h
      by_end s (err sqlite_busy, t) h = (h.0, tt)
      by_end s (err sqlite_failure, t) h = (h.0, tt)
      by_end s (err _, t) h = h

  check-Safe : (b : Bool) → Safe (checked sqlite (if b then ok tt else err config_error))
  check-Safe true = Safe-pure (ok tt) tt
  check-Safe false = Safe-pure (err config_error) tt

  create_base-Safe : (ds : List Ddl) → Safe (create_base sqlite ds)
  unfolding create_base
  create_base-Safe [] = Safe-pure (ok tt) tt
  create_base-Safe (d ∷ ds) = Safe-bind _ _ (execute-Safe d) (λ _. create_base-Safe ds)

  column-Safe :
      (c : GeneratedColumn) (stored : Text) (there : Bool)
      → Safe (
          if there
          then checked sqlite (check_column_drift c stored)
          else execute_migration_ddl sqlite (emit_add_column c))
  unfolding check_column_drift
  column-Safe c stored true = check-Safe (contains stored (render_column_clause c))
  column-Safe c stored false = execute_migration_ddl-Safe (emit_add_column c)

  reconcile_columns-Safe :
      (existing : List Text) (stored : Text) (cs : List GeneratedColumn)
      → Safe (reconcile_columns sqlite existing stored cs)
  unfolding reconcile_columns
  reconcile_columns-Safe existing stored [] = Safe-pure (ok tt) tt
  reconcile_columns-Safe existing stored (c ∷ cs) =
      Safe-bind _ _ (column-Safe c stored (text_in c.name existing))
        (λ _. reconcile_columns-Safe existing stored cs)

  shape_of-Safe : (name : Text) (entry : Option IndexEntry) → Safe (shape_of sqlite name entry)
  shape_of-Safe name none = Safe-pure (ok none) tt
  shape_of-Safe name (some entry) =
      Safe-bind _ _ (fetch-Safe (sqlite.index_xinfo name)) (λ xinfo. Safe-pure (ok _) tt)

  reconcile_index-Safe : (i : Index) (shape : Option Shape) → Safe (reconcile_index sqlite i shape)
  unfolding reconcile_index
  reconcile_index-Safe i none = execute_migration_ddl-Safe (emit_create_index i)
  reconcile_index-Safe i (some shape) = check-Safe (shape_eq shape (declared_shape i))

  reconcile_indexes-Safe : (listed : List Index) → Safe (reconcile_indexes sqlite listed)
  unfolding reconcile_indexes existing_index_shape
  reconcile_indexes-Safe [] = Safe-pure (ok tt) tt
  reconcile_indexes-Safe (i ∷ listed) =
      Safe-bind _ _
        (Safe-bind _ _ (fetch-Safe sqlite.index_list)
          (λ rows. shape_of-Safe i.name (index_entry i.name rows)))
        λ shape. Safe-bind _ _ (reconcile_index-Safe i shape) (λ _. reconcile_indexes-Safe listed)

  asserted-Safe : (row : Option Text) → Safe (asserted sqlite row)
  asserted-Safe none = Safe-pure (err assertion_error) tt
  asserted-Safe (some t) = Safe-pure (ok t) tt

  pub migrate-Safe :
      (columns : List GeneratedColumn) (indexes : List Index)
      → Safe (migrate sqlite columns indexes)
  unfolding migrate
  migrate-Safe columns indexes = Safe-bind _ _ (create_base-Safe base_ddl) λ _.
      Safe-bind _ _ delete_all_owned-Safe λ _.
        Safe-bind _ _ (fetch-Safe sqlite.table_xinfo) λ existing.
          Safe-bind _ _ (fetch-Safe sqlite.schema_sql) λ row.
            Safe-bind _ _ (asserted-Safe row) λ stored.
              Safe-bind _ _ (reconcile_columns-Safe existing stored columns) λ _.
                Safe-bind _ _ (fetch-Safe sqlite.index_list) λ _. reconcile_indexes-Safe indexes
