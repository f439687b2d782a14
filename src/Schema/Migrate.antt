-- ===== src/Schema/Migrate.antt =====
-- _schema.py, `migrate`: the tables and the view, the generated columns and their drift, the indexes.
-- What SQLite makes of a DDL text and what its PRAGMAs answer are parameters (`Sqlite`). Log lines,
-- and the orphans that are only logged, are left out; the read behind them is kept.
pub mod Step
pub mod Documented
pub mod Pieces
pub mod Migrated
pub mod Safe
pub mod Again
use ksqlite.Prelude.{
  ℕ, suc, Bool, true, false, not, ◌&&◌, Option, none, some, List, [], ◌∷◌, map, keep, leb, ◌==◌,
  if◌then◌else◌,
}
use ksqlite.Errors.{
  Exn, Result, ok, err, sqlite_busy, sqlite_failure, cancelled, config_error, sqlite_version_error,
  schema_migration_error, assertion_error,
}
use ksqlite.Text.{Text, text_eq, text_in, contains}
use ksqlite.Types.{GeneratedColumn, Index}
use ksqlite.Sql.{render_column_clause, emit_add_column, emit_create_index}
use ksqlite.Schema.{Db}
use ksqlite.World.{Outcome, done, busy, failure, cancel}

-- The DDL of the base schema, in its order, and the texts that `_sql` emits.
pub data Ddl : Type 0 where
  create_records create_checkpoint create_owned : Ddl
  create_records_tp create_records_key create_view : Ddl
  emitted : Text → Ddl

-- A row of PRAGMA index_list, and one of PRAGMA index_xinfo; an expression has no name.
pub record IndexEntry : Type 0 where
  pub name : Text
  pub unique : ℕ

pub record IndexColumn : Type 0 where
  pub seqno : ℕ
  pub name : Option Text
  pub key : ℕ

-- SQLite, on a catalog `K`: what a DDL statement makes of it, if it is not refused, and what is read.
pub record Sqlite (K : Type 0) : Type 0 where
  -- the outcome of the statement with this number
  pub outcome : ℕ → Outcome
  pub execute_ddl : Ddl → K → Option K
  -- the names of PRAGMA table_xinfo(_records)
  pub table_xinfo : K → List Text
  -- the column `sql` of `_records` in sqlite_schema
  pub schema_sql : K → Option Text
  pub index_list : K → List IndexEntry
  pub index_xinfo : Text → K → List IndexColumn

-- The database file, and how many statements have been executed.
pub record Boot (K : Type 0) : Type 0 where
  pub catalog : K
  pub db : Db
  pub calls : ℕ

abbrev pub Task : Type 0 → Type 0 → Type 0
Task K A = Boot K → Result A × Boot K

module _ {K : Type 0} where
  abbrev pub next : {A B : Type 0} → Result A × Boot K → (A → Task K B) → Result B × Boot K
  next (ok a, s) f = f a s
  next (err e, s) f = (err e, s)

  infixl 5 ◌>>=◌ ◌>>◌
  unfoldable pub ◌>>=◌ : {A B : Type 0} → Task K A → (A → Task K B) → Task K B
  ◌>>=◌ m f s = next (m s) f

  abbrev pub ◌>>◌ : {A B : Type 0} → Task K A → Task K B → Task K B
  m >> n = m >>= λ _. n

  abbrev pub pure : {A : Type 0} → A → Task K A
  pure a s = (ok a, s)

  abbrev pub raise : {A : Type 0} → Exn → Task K A
  raise e s = (err e, s)

-- `if sqlite3.sqlite_version_info < (3, 38)`, on the major and the minor number.
unfoldable pub check_sqlite_version : ℕ × ℕ → Result (Unit {0})
check_sqlite_version (major, minor) =
    if leb 4 major
    then ok tt
    else if major == 3 && leb 38 minor
    then ok tt
    else err sqlite_version_error

-- `sorted(xinfo, key=lambda r: r[0])`, which is stable.
abbrev pub put_in_order : IndexColumn → List IndexColumn → List IndexColumn
put_in_order r [] = r ∷ []
put_in_order r (x ∷ xs) = if leb r.seqno x.seqno then r ∷ x ∷ xs else x ∷ put_in_order r xs

unfoldable pub by_seqno : List IndexColumn → List IndexColumn
by_seqno [] = []
by_seqno (r ∷ rs) = put_in_order r (by_seqno rs)

abbrev pub Shape : Type 0
Shape = List (Option Text) × Bool

abbrev pub name_eq : Option Text → Option Text → Bool
name_eq none none = true
name_eq (some a) (some b) = text_eq a b
name_eq _ _ = false

abbrev pub names_eq : List (Option Text) → List (Option Text) → Bool
names_eq [] [] = true
names_eq (a ∷ xs) (b ∷ ys) = name_eq a b && names_eq xs ys
names_eq _ _ = false

abbrev pub bool_eq : Bool → Bool → Bool
bool_eq true b = b
bool_eq false b = not b

unfoldable pub shape_eq : Shape → Shape → Bool
shape_eq (xs, u) (ys, v) = names_eq xs ys && bool_eq u v

-- The shape that an index declares.
abbrev pub declared_shape : Index → Shape
declared_shape index = (map (λ c. some c) index.columns, index.unique)

-- `next((r for r in index_rows if r[1] == name), None)`
unfoldable pub index_entry : Text → List IndexEntry → Option IndexEntry
index_entry name [] = none
index_entry name (r ∷ rs) = if text_eq r.name name then some r else index_entry name rs

-- `[r[2] for r in sorted(...) if r[5] == 1]`
abbrev pub key_columns : List IndexColumn → List (Option Text)
key_columns rows = map (λ r. r.name) (keep (λ r. r.key == 1) (by_seqno rows))

-- `_check_column_drift`
unfoldable pub check_column_drift : GeneratedColumn → Text → Result (Unit {0})
unfolding contains render_column_clause
check_column_drift column stored_schema =
    if contains stored_schema (render_column_clause column) then ok tt else err config_error

-- _CREATE_RECORDS, _CREATE_CHECKPOINT, _CREATE_OWNED, _BASE_INDEXES, _CREATE_VIEW
abbrev pub base_ddl : List Ddl
base_ddl =
    create_records ∷ create_checkpoint ∷ create_owned ∷ create_records_tp ∷ create_records_key
    ∷ create_view ∷ []

module _ {K : Type 0} (sqlite : Sqlite K) where
  -- One statement that is not a query, by what it makes of the file.
  abbrev pub settled : Result (Boot K) → Boot K → Result (Unit {0}) × Boot K
  settled (ok t) s = (ok tt, t)
  settled (err e) s = (err e, s)

  abbrev pub by_outcome : Outcome → Result (Boot K) → Boot K → Result (Unit {0}) × Boot K
  by_outcome done r s = settled r s
  by_outcome busy r s = (err sqlite_busy, s)
  by_outcome failure r s = (err sqlite_failure, s)
  by_outcome (cancel true) r s = (err cancelled, (settled r s).1)
  by_outcome (cancel false) r s = (err cancelled, s)

  abbrev pub counted : Boot K → Boot K
  counted s = record s { calls = suc s.calls }

  abbrev pub altered : Option K → Boot K → Result (Boot K)
  altered (some k) s = ok (record s { catalog = k })
  altered none s = err sqlite_failure

  unfoldable pub execute : Ddl → Task K (Unit {0})
  execute ddl s =
      by_outcome (sqlite.outcome s.calls) (altered (sqlite.execute_ddl ddl s.catalog) (counted s))
        (counted s)

  -- OWNED_DELETE_ALL_SQL
  unfoldable pub delete_all_owned : Task K (Unit {0})
  delete_all_owned s =
      by_outcome (sqlite.outcome s.calls)
        (ok (record (counted s) { db = record s.db { owned = [] } })) (counted s)

  -- `fetch_all` and `fetch_one`
  abbrev pub fetched : {A : Type 0} → Outcome → A → Boot K → Result A × Boot K
  fetched done a s = (ok a, s)
  fetched busy a s = (err sqlite_busy, s)
  fetched failure a s = (err sqlite_failure, s)
  fetched (cancel _) a s = (err cancelled, s)

  unfoldable pub fetch : {A : Type 0} → (K → A) → Task K A
  fetch f s = fetched (sqlite.outcome s.calls) (f s.catalog) (counted s)

  -- `except sqlite3.Error` of `_execute_migration_ddl`
  abbrev as_migration_error : Exn → Exn
  as_migration_error sqlite_busy = schema_migration_error
  as_migration_error sqlite_failure = schema_migration_error
  as_migration_error e = e

  abbrev pub remapped : Result (Unit {0}) × Boot K → Result (Unit {0}) × Boot K
  remapped (ok u, s) = (ok u, s)
  remapped (err e, s) = (err (as_migration_error e), s)

  unfoldable pub execute_migration_ddl : Text → Task K (Unit {0})
  unfolding execute
  execute_migration_ddl ddl s = remapped (execute (emitted ddl) s)

  -- `_existing_index_shape`
  abbrev pub shape_of : Text → Option IndexEntry → Task K (Option Shape)
  shape_of name none = pure none
  shape_of name (some entry) = fetch (sqlite.index_xinfo name) >>= λ xinfo.
      pure (some (key_columns xinfo, not (entry.unique == 0)))

  unfoldable pub existing_index_shape : Text → Task K (Option Shape)
  unfolding fetch
  existing_index_shape name =
      fetch sqlite.index_list >>= λ rows. shape_of name (index_entry name rows)

  abbrev pub checked : Result (Unit {0}) → Task K (Unit {0})
  checked r s = (r, s)

  -- The loop over the declared columns.
  unfoldable pub reconcile_columns : List Text → Text → List GeneratedColumn → Task K (Unit {0})
  unfolding check_column_drift execute_migration_ddl
  reconcile_columns existing stored_schema [] = pure tt
  reconcile_columns existing stored_schema (c ∷ cs) =
      (if text_in c.name existing
        then checked (check_column_drift c stored_schema)
        else execute_migration_ddl (emit_add_column c))
      >> reconcile_columns existing stored_schema cs

  -- The body of the loop over the declared indexes, by the shape that is there.
  unfoldable pub reconcile_index : Index → Option Shape → Task K (Unit {0})
  unfolding execute_migration_ddl
  reconcile_index index none = execute_migration_ddl (emit_create_index index)
  reconcile_index index (some shape) =
      checked (if shape_eq shape (declared_shape index) then ok tt else err config_error)

  unfoldable pub reconcile_indexes : List Index → Task K (Unit {0})
  unfolding existing_index_shape reconcile_index
  reconcile_indexes [] = pure tt
  reconcile_indexes (i ∷ rest) =
      existing_index_shape i.name >>= λ shape. reconcile_index i shape >> reconcile_indexes rest

  -- `assert row is not None`
  abbrev pub asserted : Option Text → Task K Text
  asserted none = raise assertion_error
  asserted (some t) = pure t

  unfoldable pub create_base : List Ddl → Task K (Unit {0})
  create_base [] = pure tt
  create_base (d ∷ ds) = execute d >> create_base ds

  unfoldable pub migrate : List GeneratedColumn → List Index → Task K (Unit {0})
  unfolding create_base
  migrate generated_columns indexes = do
    create_base base_ddl
    delete_all_owned
    existing ← fetch sqlite.table_xinfo
    row ← fetch sqlite.schema_sql
    stored_schema ← asserted row
    reconcile_columns existing stored_schema generated_columns
    fetch sqlite.index_list
    reconcile_indexes indexes
