-- ===== src/Pool.antt =====
-- _pool.py: statements on a connection, checkout hygiene, and TransactionRunner. A rollback is taken
-- to go through; a refused COMMIT commits nothing.
pub mod Open
pub mod Work
pub mod Transaction
pub mod Written
pub mod Healthy
pub mod Errors
use ksqlite.Prelude.{
  ℕ, zero, suc, ◌+◌, ◌-◌, ◌*◌, Bool, true, false, Option, none, some, if◌then◌else◌, leb, ◌||◌,
}
use Prim.Native.Nat.{min}
use ksqlite.Prelude.Int.{ℤ}
use ksqlite.Errors.{
  Exn, Result, ok, err, storage_error, sqlite_busy, sqlite_failure, cancelled, still_running,
}
use ksqlite.Types.{TopicPartition}
use ksqlite.Schema.{Db, Statement, execute_statement, checkpoint_of}
use ksqlite.World.{
  Outcome, done, busy, failure, cancel, Checkout, handed, open_failed, Env, World, Exec, raise,
  gets, call, catch, read_clock, ◌>>=◌, ◌>>◌,
}

-- A statement's own effect, or the error that the statement itself raises.
abbrev pub Effect : Type 0
Effect = World → Result World

abbrev pub settled : Result World → World → Result (Unit {0}) × World
settled (ok w') w = (ok tt, w')
settled (err e) w = (err e, w)

abbrev pub by_outcome : Outcome → Effect → World → Result (Unit {0}) × World
by_outcome done f w = settled (f w) w
by_outcome busy f w = (err sqlite_busy, w)
by_outcome failure f w = (err sqlite_failure, w)
by_outcome (cancel true) f w = (err cancelled, (settled (f w) w).1)
by_outcome (cancel false) f w = (err cancelled, w)

-- `execute`: one statement, its cursor closed at once.
unfoldable pub execute : Env → Effect → Exec (Unit {0})
execute env f w = by_outcome (env.statement w.calls) f (record w { calls = suc w.calls })

-- BEGIN IMMEDIATE; there is no transaction inside a transaction.
unfoldable pub begin_immediate : Effect
begin_immediate w = elim w.conn.pending [
  | none ↦ ok (record w { conn = record w.conn { pending = some w.db } })
  | some d ↦ err sqlite_failure
]

-- `conn.commit()`, which does nothing outside a transaction.
unfoldable pub commit : Effect
commit w = elim w.conn.pending [
  | none ↦ ok w
  | some d ↦ ok (record w { db = d; conn = record w.conn { pending = none } })
]

-- `conn.rollback()`
abbrev pub rollback : Exec (Unit {0})
rollback w = (ok tt, record w { conn = record w.conn { pending = none }; calls = suc w.calls })

-- PRAGMA query_only
abbrev pub set_query_only : Bool → Effect
set_query_only on w = ok (record w { conn = record w.conn { query_only = on } })

-- A statement that writes: refused under query_only; outside a transaction it commits by itself.
abbrev pub change_by : (Db → Result Db) → Effect
change_by f w = if w.conn.query_only then err sqlite_failure else elim w.conn.pending [
  | some d ↦ elim (f d) [
    | err e ↦ err e
    | ok d' ↦ ok (record w { conn = record w.conn { pending = some d' } })
  ]
  | none ↦ elim (f w.db) [ err e ↦ err e | ok d' ↦ ok (record w { db = d' }) ]
]

-- One of the library's own data statements.
unfoldable pub dml : Env → Statement → Effect
dml env s = change_by (execute_statement env.json s)

unfoldable pub run_statement : Env → Statement → Exec (Unit {0})
unfolding execute dml
run_statement env s = execute env (dml env s)

-- `except (PoolClosedError, PoolConnectionAcquireTimeoutError)`: a StorageError.
abbrev pub receive : Checkout → Exec (Unit {0})
receive (handed c) w = (ok tt, record w { conn = c })
receive (open_failed e) w = (err e, w)
receive _ w = (err storage_error, w)

-- `async with self._pool.connection() as conn`
unfoldable pub take_connection : Env → Exec (Unit {0})
take_connection env w = receive (env.checkout w.calls) (record w { calls = suc w.calls })

-- `if conn.in_transaction: await conn.rollback()`
unfoldable pub reset_transaction : Exec (Unit {0})
reset_transaction w = elim w.conn.pending [ none ↦ (ok tt, w) | some _ ↦ rollback w ]

-- AiosqlitePoolAdapter._checked_out up to its `yield`: a transaction left open is rolled back, and
-- query_only is reset.
unfoldable pub checkout : Env → Exec (Unit {0})
unfolding take_connection reset_transaction execute ◌>>=◌
checkout env = do take_connection env; reset_transaction; execute env (set_query_only false)

abbrev pub busy_retry_max_attempts : ℕ
busy_retry_max_attempts = 3

abbrev pub busy_retry_deadline_factor : ℕ
busy_retry_deadline_factor = 2

-- _BUSY_BACKOFF_BASE_SECONDS, in milliseconds
abbrev pub busy_backoff_base : ℕ
busy_backoff_base = 10

-- One attempt: BEGIN, the work and COMMIT, with a rollback of whatever fails after BEGIN.
unfoldable pub attempt : Env → Exec (Unit {0}) → Exec (Unit {0})
unfolding execute begin_immediate commit ◌>>=◌
attempt env work = do
  execute env begin_immediate
  catch (do work; execute env commit) (λ e. do rollback; raise e)

-- `attempt >= BUSY_RETRY_MAX_ATTEMPTS or remaining <= 0`
abbrev pub gives_up : ℕ → ℕ → ℕ → Bool
gives_up deadline now attempts = leb busy_retry_max_attempts attempts || leb deadline now

-- `self._backoff_sleep(...)`
abbrev pub backoff_sleep : Env → ℕ → Exec (Unit {0})
backoff_sleep env ms = call (λ n. if env.sleep n ms then err cancelled else ok tt)

-- `min(_BUSY_BACKOFF_BASE_SECONDS * attempt, remaining)`
abbrev pub pause : ℕ → ℕ → ℕ → ℕ
pause deadline now attempts = min (busy_backoff_base * attempts) (deadline - now)

-- The busy branch of the handler, up to the next attempt.
unfoldable pub back_off : Env → ℕ → ℕ → Exec (Unit {0})
unfolding reset_transaction ◌>>=◌
back_off env deadline attempts = do
  reset_transaction
  now ← read_clock env
  if gives_up deadline now attempts
      then raise storage_error
      else backoff_sleep env (pause deadline now attempts)

-- `except sqlite3.Error`: another attempt if SQLite was busy; other exceptions pass.
unfoldable pub on_error : Env → ℕ → ℕ → Exec (Unit {0}) → Exn → Exec (Unit {0})
unfolding back_off ◌>>=◌
on_error env deadline attempts again e = elim e [
  | sqlite_busy ↦ back_off env deadline attempts >> again
  | sqlite_failure ↦ raise storage_error
  | other ↦ raise other
]

-- The `while True` of `run`; `attempts` counts from 1, and the bound on it is fuel enough.
unfoldable pub retry : Env → Exec (Unit {0}) → ℕ → ℕ → ℕ → Exec (Unit {0})
unfolding attempt on_error
retry env work deadline zero attempts = raise still_running
retry env work deadline (suc fuel) attempts =
    catch (attempt env work)
      (on_error env deadline attempts (retry env work deadline fuel (attempts + 1)))

-- TransactionRunner.run; every caller's `work` returns None.
unfoldable pub run : Env → ℕ → Exec (Unit {0}) → Exec (Unit {0})
unfolding retry ◌>>=◌
run env busy_timeout work = do
  now ← read_clock env
  retry env work (now + busy_timeout * busy_retry_deadline_factor) busy_retry_max_attempts 1

-- `async with pool.connection() as conn: await txn_runner.run(conn, work)`
unfoldable pub transact : Env → ℕ → Exec (Unit {0}) → Exec (Unit {0})
unfolding checkout run ◌>>=◌
transact env busy_timeout work = do checkout env; run env busy_timeout work

-- The row of SELECT_CHECKPOINT_SQL, on a connection that `checkout` has handed out.
unfoldable pub select_checkpoint : Env → TopicPartition → Exec (Option ℤ)
unfolding ◌>>=◌
select_checkpoint env tp = do execute env (λ w. ok w); gets (λ w. checkpoint_of tp w.db.checkpoints)
