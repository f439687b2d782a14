-- ===== src/Read/Readonly.antt =====
-- A query changes nothing.
use ksqlite.Prelude.{suc, ◌≡◌, refl, ap, ◌∙◌, Bool, true, false, List, if◌then◌else◌}
use ksqlite.Errors.{Exn, Result, ok, err, sqlite_failure, storage_error}
use ksqlite.Schema.{Db}
use ksqlite.Batches.{is_sqlite_error}
use ksqlite.World.{
  Env, Conn, World, Outcome, done, busy, failure, cancel, next, raise, caught, ◌>>=◌, ◌>>◌,
}
use ksqlite.Pool.{Effect, execute, settled, by_outcome, set_query_only, change_by, checkout}
use ksqlite.Pool.Written.{CheckedOut, checkout-CheckedOut}
use ksqlite.Read.{
  Fetched, Sql, select, change, on_connection, connection_by, with_conn, Target, ended, ensuring,
  fetch_all, fetch_mapped, query_only, set_row_factory, fetch_rows, hydrate_all, query_into,
}

-- The committed state and the memory of the process are what they were.
abbrev pub Same : World → World → Type 0
Same w w' = (w'.db ≡ w.db) × (w'.machine ≡ w.machine)

pragma-Same :
    (b : Bool) (o : Outcome) (w w1 : World)
    → Same w w1
    → Same w (by_outcome o (set_query_only b) w1).1
pragma-Same b done w w1 s = s
pragma-Same b busy w w1 s = s
pragma-Same b failure w w1 s = s
pragma-Same b (cancel true) w w1 s = s
pragma-Same b (cancel false) w w1 s = s

-- A statement that SQLite refuses under query_only does nothing, even where it is cancelled.
refused-Same :
    (f : Effect) (o : Outcome) (w : World) (e : Exn) → f w ≡ err e → Same w (by_outcome o f w).1
refused-Same f done w e h = rw h (refl, refl)
refused-Same f busy w e h = (refl, refl)
refused-Same f failure w e h = (refl, refl)
refused-Same f (cancel true) w e h = rw h (refl, refl)
refused-Same f (cancel false) w e h = (refl, refl)

settled-Same : (w : World) (r : Result Conn) → Same w (settled (with_conn w r) w).1
settled-Same w (ok c) = (refl, refl)
settled-Same w (err e) = (refl, refl)

-- A statement on the connection moves nothing else.
connection-Same :
    (f : Db → Conn → Result Conn) (o : Outcome) (w : World)
    → Same w (by_outcome o (connection_by f) w).1
connection-Same f done w = settled-Same w (f w.db w.conn)
connection-Same f busy w = (refl, refl)
connection-Same f failure w = (refl, refl)
connection-Same f (cancel true) w = settled-Same w (f w.db w.conn)
connection-Same f (cancel false) w = (refl, refl)

-- Parts of a method that only pass a result on.
passed :
    {A B : Type 0} (w : World) (x : Result A × World) (b : B)
    → Same w x.1
    → Same w (next x (λ _ w. (ok b, w))).1
passed w (ok a, w1) b s = s
passed w (err e, w1) b s = s

found-Same :
    {B : Type 0} (w : World) (x : Result (Unit {0}) × World) (f : World → Result B)
    → Same w x.1
    → Same w (next x (λ _ w. (f w, w))).1
found-Same w (ok a, w1) f s = s
found-Same w (err e, w1) f s = s

caught-Same :
    {A : Type 0} (w : World) (x : Result A × World) (f : Exn → Exn)
    → Same w x.1
    → Same w (caught x (λ e. raise (f e))).1
caught-Same w (ok a, w1) f s = s
caught-Same w (err e, w1) f s = s

ended-Same :
    {A : Type 0} (w : World) (r : Result A) (x : Result (Unit {0}) × World)
    → Same w x.1
    → Same w (ended r x).1
ended-Same w r (ok u, w1) s = s
ended-Same w r (err e, w1) s = s

module _ (env : Env) (sql : Sql) where
  reading : (o : Outcome) (w : World) → Same w (by_outcome o (λ w. ok w) w).1
  reading done w = (refl, refl)
  reading busy w = (refl, refl)
  reading failure w = (refl, refl)
  reading (cancel true) w = (refl, refl)
  reading (cancel false) w = (refl, refl)

  fetch_all-Same : (s : Sql) (w : World) → w.conn.query_only ≡ true → Same w (fetch_all env s w).1
  unfolding fetch_all execute ◌>>=◌
  fetch_all-Same (select rows) w q =
      found-Same w _ (λ w. rows w.db) (reading (env.statement w.calls) _)
  fetch_all-Same (change f rows) w q =
      passed w _ rows
        (refused-Same (change_by f) (env.statement w.calls) _ sqlite_failure (rw q refl))
  fetch_all-Same (on_connection f rows) w q =
      passed w _ rows (connection-Same f (env.statement w.calls) _)

  fetch_mapped-Same : (w : World) → w.conn.query_only ≡ true → Same w (fetch_mapped env sql w).1
  unfolding fetch_mapped
  fetch_mapped-Same w q =
      caught-Same w (fetch_all env sql w) (λ e. if is_sqlite_error e then storage_error else e)
        (fetch_all-Same sql w q)

  -- The scope of `query_only`, by the outcome of its first PRAGMA.
  scoped :
      (o : Outcome) (w : World)
      → Same w
          (next
            (by_outcome o (set_query_only true) w)
            (λ _. ensuring (fetch_mapped env sql) (execute env (set_query_only false)))).1
  unfolding ensuring execute
  scoped done w =
      let entered = record w { conn = record w.conn { query_only = true } } in
      let (r, w1) = fetch_mapped env sql entered in
      ended-Same w r (execute env (set_query_only false) w1) (
        pragma-Same false (env.statement w1.calls) w (record w1 { calls = suc w1.calls })
          (fetch_mapped-Same entered refl))
  scoped busy w = (refl, refl)
  scoped failure w = (refl, refl)
  scoped (cancel true) w = (refl, refl)
  scoped (cancel false) w = (refl, refl)

  query_only-Same : (w : World) → Same w (query_only env (fetch_mapped env sql) w).1
  unfolding query_only execute ◌>>=◌
  query_only-Same w = scoped (env.statement w.calls) (record w { calls = suc w.calls })

  after_checkout-Same :
      (w : World) (x : Result (Unit {0}) × World)
      → CheckedOut w x
      → Same w
          (next x (λ _. do
            set_row_factory true
            ensuring (query_only env (fetch_mapped env sql)) (set_row_factory false))).1
  unfolding ensuring ◌>>=◌
  after_checkout-Same w (err e, w1) (k, c, same, _, _) =
      (ap (λ x. x.db) same, ap (λ x. x.machine) same)
  after_checkout-Same w (ok u, w1) (k, c, same, _, _) =
      let (p, q) = query_only-Same (record w1 { conn = record w1.conn { row_factory = true } }) in
      (p ∙ ap (λ x. x.db) same, q ∙ ap (λ x. x.machine) same)

  fetch_rows-Same : (w : World) → Same w (fetch_rows env sql w).1
  unfolding fetch_rows ◌>>=◌
  fetch_rows-Same w = after_checkout-Same w (checkout env w) (checkout-CheckedOut env w)

-- A query of one statement that reads the database, changes it in any way, or acts on its connection
-- alone (`Sql`), leaves the committed state and the memory of the process as they were, however it ends.
pub query_into-Same :
    {B : Type 0} (env : Env) (sql : Sql) (into : Target B) (w : World)
    → Same w (query_into env sql into w).1
unfolding query_into ◌>>=◌
query_into-Same env sql into w = hydrated (fetch_rows env sql w) (fetch_rows-Same env sql w)
  where
    hydrated :
        (x : Result (List Fetched) × World)
        → Same w x.1
        → Same w (next x (λ rows w. (hydrate_all into rows, w))).1
    hydrated (ok rows, w1) s = s
    hydrated (err e, w1) s = s
