-- ===== src/Read.antt =====
-- _read.py, class QueryRunner. The host's SQL is one statement and a parameter: it reads the committed
-- state, or changes it in any way, if it is let, or acts on the connection.
pub mod Readonly
use ksqlite.Prelude.{if◌then◌else◌, Bool, true, false, Option, none, some, List, [], ◌∷◌}
use ksqlite.Errors.{Result, ok, err, storage_error, hydration_error, type_error}
use ksqlite.Errors
use ksqlite.Text.{Text}
use ksqlite.Schema.{Db}
use ksqlite.World.{Env, Conn, World, Exec, pure, raise, gets, lift, catch, modify, ◌>>=◌, ◌>>◌}
use ksqlite.Pool.{Effect, execute, set_query_only, change_by, checkout}
use ksqlite.Batches.{is_sqlite_error}

-- A fetched row, of which the code reads the column `payload`, if it was selected.
pub record Fetched : Type 0 where
  pub payload : Option Text

-- One statement of the host, each with what SQLite makes of it: one that reads, with its rows; one that
-- writes to the database (INSERT, UPDATE, DELETE, DDL), which query_only refuses, with what it makes of
-- the tables and the rows that it returns; and one that changes the state of the connection alone
-- (PRAGMA, BEGIN, a COMMIT or a ROLLBACK outside a transaction, which SQLite refuses), with its rows.
pub data Sql : Type 0 where
  select : (Db → Result (List Fetched)) → Sql
  change : (Db → Result Db) → List Fetched → Sql
  on_connection : (Db → Conn → Result Conn) → List Fetched → Sql

-- `try: m finally: last`, where an exception of `last` takes the place of the outcome of `m`.
abbrev pub ended : {A : Type 0} → Result A → Result (Unit {0}) × World → Result A × World
ended r (ok _, w) = (r, w)
ended r (err e, w) = (err e, w)

unfoldable pub ensuring : {A : Type 0} → Exec A → Exec (Unit {0}) → Exec A
ensuring m last w = ended (m w).0 (last (m w).1)

abbrev pub with_conn : World → Result Conn → Result World
with_conn w (ok c) = ok (record w { conn = c })
with_conn w (err e) = err e

-- What a statement makes of the connection.
abbrev pub connection_by : (Db → Conn → Result Conn) → Effect
connection_by f w = with_conn w (f w.db w.conn)

-- _pool.py `fetch_all`
unfoldable pub fetch_all : Env → Sql → Exec (List Fetched)
unfolding ◌>>=◌
fetch_all env (select rows) = do execute env (λ w. ok w); found ← gets (λ w. rows w.db); lift found
fetch_all env (change f rows) = do execute env (change_by f); pure rows
fetch_all env (on_connection f rows) = do execute env (connection_by f); pure rows

-- _pool.py `query_only`
unfoldable pub query_only : {A : Type 0} → Env → Exec A → Exec A
unfolding ensuring ◌>>=◌
query_only env scope = do
  execute env (set_query_only true)
  ensuring scope (execute env (set_query_only false))

-- A SQLite error of the statement surfaces as StorageError.
unfoldable pub fetch_mapped : Env → Sql → Exec (List Fetched)
unfolding fetch_all
fetch_mapped env sql =
    catch (fetch_all env sql) (λ e. raise (if is_sqlite_error e then storage_error else e))

abbrev pub set_row_factory : Bool → Exec (Unit {0})
set_row_factory b = modify (λ w. record w { conn = record w.conn { row_factory = b } })

-- The rows of `query`.
unfoldable pub fetch_rows : Env → Sql → Exec (List Fetched)
unfolding fetch_mapped query_only ensuring ◌>>=◌
fetch_rows env sql = do
  checkout env
  set_row_factory true
  ensuring (query_only env (fetch_mapped env sql)) (set_row_factory false)

-- What `into` may be: a model with `model_validate_json`, a dataclass, built from `json.loads` of the
-- payload, or anything else.
pub data Target (B : Type 0) : Type 0 where
  model dataclass : (Text → Result B) → Target B
  unsupported : Target B

-- `_hydrate`
unfoldable pub hydrate : {B : Type 0} → Target B → Fetched → Result B
hydrate into row = elim row.payload [
  | none ↦ err hydration_error
  | some payload ↦ elim into [
    | model build ↦ build payload
    | dataclass build ↦ build payload
    | unsupported ↦ err type_error
  ]
]

unfoldable pub hydrate_all : {B : Type 0} → Target B → List Fetched → Result (List B)
unfolding hydrate
hydrate_all into [] = ok []
hydrate_all into (row ∷ rows) =
    Errors.◌>>=◌ (hydrate into row) λ b. Errors.◌>>=◌ (hydrate_all into rows) λ bs. ok (b ∷ bs)

-- QueryRunner.query with `into`
unfoldable pub query_into : {B : Type 0} → Env → Sql → Target B → Exec (List B)
unfolding fetch_rows hydrate_all ◌>>=◌
query_into env sql into = do rows ← fetch_rows env sql; lift (hydrate_all into rows)
