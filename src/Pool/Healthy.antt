-- ===== src/Pool/Healthy.antt =====
-- _pool.py, a checkout and a transaction where SQLite executes every statement: both return.
use ksqlite.Prelude.{◌+◌, ◌*◌, ℕ, suc, ◌≡◌, refl, sym, ◌∙◌, ap, false, Option, none, some}
use mathlib.Core.Path.{subst}
use ksqlite.Errors.{Result, ok, err}
use ksqlite.Schema.{Db, Statement, execute_statement}
use ksqlite.World.{Conn, Checkout, handed, Outcome, done, Env, World, Exec, next, ◌>>=◌}
use ksqlite.World.Total.{Returned, Total, Total-bind, Total-catch}
use ksqlite.Pool.{
  Effect, execute, by_outcome, set_query_only, begin_immediate, commit, rollback, run_statement,
  dml, take_connection, reset_transaction, checkout, receive, attempt, retry, run, transact,
  busy_retry_deadline_factor,
}
use ksqlite.Pool.Work.{dml-open, stored}
use ksqlite.Pool.Written.{CheckedOut, checkout-CheckedOut}

-- The pool hands out a connection at every call, and every statement is executed.
pub record IsHealthy (env : Env) : Type 0 where
  pub executed : (n : ℕ) → env.statement n ≡ done
  pub connection : ℕ → Conn
  pub hands_out : (n : ℕ) → env.checkout n ≡ handed (connection n)

-- No transaction is open and the connection is writable; a transaction is open.
abbrev pub IsClean : World → Type 0
IsClean w = (w.conn.pending ≡ none) × (w.conn.query_only ≡ false)

abbrev pub IsOpen : World → Type 0
IsOpen w = (d : Db) × (w.conn.pending ≡ some d) × (w.conn.query_only ≡ false)

module _ (env : Env) (healthy : IsHealthy env) where
  -- A statement that takes effect returns.
  pub execute-Total :
      {Pre : World → Type 0} {P : Unit {0} → World → Type 0} (f : Effect)
      → ((w : World)
          → Pre w
          → (w' : World) × (f (record w { calls = suc w.calls }) ≡ ok w') × P tt w')
      → Total Pre P (execute env f)
  unfolding execute
  execute-Total {P = P} f takes = record {
    run = λ w p. go w (env.statement w.calls) (healthy.executed w.calls) (takes w p);
  }
    where
      go :
          (w : World) (o : Outcome)
          → o ≡ done
          → (w' : World) × (f (record w { calls = suc w.calls }) ≡ ok w') × P tt w'
          → Returned P (by_outcome o f (record w { calls = suc w.calls }))
      go w o e (w', ran, p) = rw e (rw ran p)

  abbrev Any : World → Type 0
  Any w = Unit

  pub checkout-Total : Total Any (λ u. Any) (checkout env)
  unfolding checkout take_connection reset_transaction
  checkout-Total =
      Total-bind {Q = λ u. Any} _ _
        (record { run = λ w p. taken w (env.checkout w.calls) (healthy.hands_out w.calls) })
        λ u.
          Total-bind {Q = λ u. Any} _ _ (record { run = λ w p. closed w w.conn.pending })
            (λ u. execute-Total (set_query_only false) (λ w p. (_, refl, tt)))
    where
      taken :
          (w : World) (a : Checkout)
          → a ≡ handed (healthy.connection w.calls)
          → Returned (λ u. Any) (receive a (record w { calls = suc w.calls }))
      taken w a e = rw e tt

      closed :
          (w : World) (o : Option Db)
          → Returned
              (λ u. Any)
              (elim o as (λ o. Result (Unit {0}) × World) [
                | none ↦ (ok tt, w)
                | some d ↦ rollback w
              ])
      closed w none = tt
      closed w (some d) = tt

  begin-Total : Total IsClean (λ u. IsOpen) (execute env begin_immediate)
  unfolding begin_immediate
  begin-Total = execute-Total begin_immediate (λ w (closed, writable). (
    record w { calls = suc w.calls; conn = record w.conn { pending = some w.db } },
    rw (begin_immediate, closed) refl,
    (w.db, refl, writable),
  ))

  commit-Total : Total IsOpen (λ u. Any) (execute env commit)
  unfolding commit
  commit-Total = execute-Total commit (λ w (d, opened, writable). (
    record w { calls = suc w.calls; db = d; conn = record w.conn { pending = none } },
    rw (commit, opened) refl,
    tt,
  ))

  -- A data statement in an open transaction.
  pub run_statement-Total :
      (s : Statement)
      → ((d : Db) → (d' : Db) × (execute_statement env.json s d ≡ ok d'))
      → Total IsOpen (λ u. IsOpen) (run_statement env s)
  unfolding run_statement
  run_statement-Total s effect = execute-Total (dml env s) (λ w (d, opened, writable).
      let (d', ran) = effect d in
      (
        record w { calls = suc w.calls; conn = record w.conn { pending = some d' } },
        dml-open env s (record w { calls = suc w.calls }) d opened writable
            ∙ ap (stored (record w { calls = suc w.calls })) ran,
        (d', refl, writable),
      ))

  module _ (work : Exec (Unit {0})) (works : Total IsOpen (λ u. IsOpen) work) where
    attempt-Total : Total IsClean (λ u. Any) (attempt env work)
    unfolding attempt
    attempt-Total =
        Total-bind _ _ begin-Total λ u. Total-catch _ _ (Total-bind _ _ works (λ u. commit-Total))

    -- The first of the attempts returns.
    retry-Total :
        (deadline fuel attempts : ℕ)
        → Total IsClean (λ u. Any) (retry env work deadline (suc fuel) attempts)
    unfolding retry
    retry-Total deadline fuel attempts = Total-catch (attempt env work) _ attempt-Total

    run-Total : (busy_timeout : ℕ) → Total IsClean (λ u. Any) (run env busy_timeout work)
    unfolding run ◌>>=◌
    run-Total busy_timeout = record {
      run = λ w p.
          (retry-Total (env.clock w.calls + busy_timeout * busy_retry_deadline_factor) 2 1).run
            (record w { calls = suc w.calls }) p;
    }

    -- A write through the pool whose work returns, returns.
    pub transact_returns :
        (busy_timeout : ℕ) (w : World) → (transact env busy_timeout work w).0 ≡ ok tt
    unfolding transact ◌>>=◌
    transact_returns busy_timeout w =
        after (checkout env w) (checkout-Total.run w tt) (checkout-CheckedOut env w)
      where
        in_time : (x : Result (Unit {0}) × World) → Returned (λ u. Any) x → x.0 ≡ ok tt
        in_time (ok u, w) p = refl
        in_time (err e, w) p = absurd p

        after :
            (x : Result (Unit {0}) × World)
            → Returned (λ u. Any) x
            → CheckedOut w x
            → (next x (λ _. run env busy_timeout work)).0 ≡ ok tt
        after (err e, w1) p out = absurd p
        after (ok u, w1) p (k, c, same, le, is_clean) =
            in_time (run env busy_timeout work w1)
              ((run-Total busy_timeout).run w1 (subst IsClean (sym same) (is_clean refl)))
