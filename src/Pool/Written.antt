-- ===== src/Pool/Written.antt =====
-- A checkout is clean, and a write through the pool commits its work as a whole or not at all.
use ksqlite.Prelude.{ℕ, suc, ◌≤◌, ◌≡◌, refl, true, false, Option, none, some, arith}
use ksqlite.Errors.{Result, ok, err}
use ksqlite.Schema.{Db}
use ksqlite.World.{
  Conn, Outcome, done, cancel, Checkout, handed, Env, World, Exec, next, ◌>>=◌, ◌>>◌,
}
use ksqlite.Pool.{
  execute, by_outcome, set_query_only, receive, take_connection, reset_transaction, checkout, run,
  transact,
}
use ksqlite.Pool.Transaction.{Atomic, Atomic-undone, run-Transacted}
use ksqlite.Pool.Work.{IsWork}

-- The world with another connection in hand and more calls behind it.
abbrev pub holding : World → Conn → ℕ → World
holding w c k = record w { conn = c; calls = k }

-- A checkout changes nothing but the connection; one that returns hands out a clean connection.
abbrev pub CheckedOut : World → Result (Unit {0}) × World → Type 0
CheckedOut w (r, w') =
    (k : ℕ) × (c : Conn) × (w' ≡ holding w c k)
    × (w.calls ≤ k)
    × (r ≡ ok tt → (c.pending ≡ none) × (c.query_only ≡ false))

abbrev clean : Conn → Conn
clean c = record c { pending = none }

reset-CheckedOut :
    (w : World) (c : Conn) (k : ℕ) (o : Outcome)
    → w.calls ≤ k
    → c.pending ≡ none
    → CheckedOut w (by_outcome o (set_query_only false) (holding w c k))
reset-CheckedOut w c k done le p = (k, record c { query_only = false }, refl, le, λ _. (p, refl))
reset-CheckedOut w c k (cancel true) le p = (k, record c { query_only = false }, refl, le, λ h. cc)
reset-CheckedOut w c k _ le p = (k, c, refl, le, λ h. cc)

handed-CheckedOut :
    (env : Env) (w : World) (c : Conn) (o : Option Db)
    → c.pending ≡ o
    → CheckedOut w (
        next
          (reset_transaction (holding w c (suc w.calls)))
          (λ _. execute env (set_query_only false)))
unfolding reset_transaction execute
handed-CheckedOut env w c none p =
    rw p (reset-CheckedOut w c (suc (suc w.calls)) (env.statement (suc w.calls)) (omega arith) p)
handed-CheckedOut env w c (some d) p = rw p (
    reset-CheckedOut w (clean c) (suc (suc (suc w.calls))) (env.statement (suc (suc w.calls)))
      (omega arith) refl)

received-CheckedOut :
    (env : Env) (w : World) (a : Checkout)
    → CheckedOut w (
        next
          (receive a (record w { calls = suc w.calls }))
          (λ _. do reset_transaction; execute env (set_query_only false)))
unfolding ◌>>=◌ reset_transaction
received-CheckedOut env w (handed c) = handed-CheckedOut env w c c.pending refl
received-CheckedOut env w _ = (suc w.calls, w.conn, refl, omega arith, λ h. cc)

-- Whatever state the pool's connection is in, a checkout that returns hands it out with no open
-- transaction and writable, and no checkout changes the database or the memory of the process.
pub checkout-CheckedOut : (env : Env) (w : World) → CheckedOut w (checkout env w)
unfolding checkout take_connection
checkout-CheckedOut env w = received-CheckedOut env w (env.checkout w.calls)

-- What a write through the pool has done by its end.
abbrev pub Written : (Db → Result Db) → World → Result (Unit {0}) × World → Type 0
Written f w (r, w') =
    (k : ℕ) × (c : Conn) × (d : Db) × (w' ≡ record w { db = d; conn = c; calls = k })
    × (w.calls ≤ k)
    × Atomic f w.db r d

after_checkout-Written :
    {f : Db → Result Db} {work : Exec (Unit {0})} (env : Env) (busy_timeout : ℕ) (w : World)
    → IsWork f work
    → (x : Result (Unit {0}) × World) → CheckedOut w x
    → Written f w (next x (λ _. run env busy_timeout work))
after_checkout-Written {f} env bt w hw (err e, w1) (k, c, same, le, _) =
    (k, c, w.db, same, le, Atomic-undone f w.db e)
after_checkout-Written {f} {work} env bt w hw (ok u, w1) (k, c, same, le, is_clean) =
    let (k2, d, o, same2, le2, closed, atomic) =
      run-Transacted env bt (holding w c k) hw (is_clean refl).0 (is_clean refl).1 in
    rw same (k2, record c { pending = o }, d, same2, omega arith, atomic)

-- A write through the pool does what its work does or nothing; one of the two if it is cancelled.
pub transact-Written :
    {f : Db → Result Db} {work : Exec (Unit {0})} (env : Env) (busy_timeout : ℕ) (w : World)
    → IsWork f work
    → Written f w (transact env busy_timeout work w)
unfolding transact
transact-Written env bt w hw =
    after_checkout-Written env bt w hw (checkout env w) (checkout-CheckedOut env w)
