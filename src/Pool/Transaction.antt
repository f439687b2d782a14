-- ===== src/Pool/Transaction.antt =====
-- TransactionRunner.run commits its work as a whole or not at all, and leaves no transaction open.
use ksqlite.Prelude.{
  ℕ, zero, suc, ◌+◌, ◌*◌, ◌≤◌, ◌≡◌, ◌≢◌, refl, sym, ◌⊎◌, inl, inr, true, false, Option, none, some,
  arith, Bool-cases,
}
use mathlib.Core.Path.{subst}
use ksqlite.Errors.{Exn, Result, ok, err, sqlite_busy, cancelled, sqlite_failure}
use ksqlite.Schema.{Db}
use ksqlite.World.{Outcome, done, cancel, Env, World, Exec, raise, catch, caught, next, ◌>>=◌, ◌>>◌}
use ksqlite.Pool.{
  execute, begin_immediate, commit, rollback, reset_transaction, attempt, back_off, on_error, retry,
  run, gives_up, pause, busy_retry_max_attempts, busy_retry_deadline_factor, by_outcome,
}
use ksqlite.Pool.Work.{moved, Worked, IsWork, tick}

-- How a transaction may end: committed as a whole if it returned, undone if it raised, and one of
-- the two if it was cancelled.
abbrev pub Atomic : (Db → Result Db) → Db → Result (Unit {0}) → Db → Type 0
Atomic f d (ok _) d' = f d ≡ ok d'
Atomic f d (err cancelled) d' = (d' ≡ d) ⊎ (f d ≡ ok d')
Atomic f d (err e) d' = d' ≡ d

pub Atomic-undone : (f : Db → Result Db) (d : Db) (e : Exn) → Atomic f d (err e) d
Atomic-undone f d cancelled = inl refl
Atomic-undone f d _ = refl

-- What a whole transaction has done by its end; only a cancellation may leave it open.
abbrev pub Transacted : (Db → Result Db) → World → Result (Unit {0}) × World → Type 0
Transacted f w (r, w') =
    (k : ℕ) × (d' : Db) × (p : Option Db) × (w' ≡ moved w d' p k)
    × (w.calls ≤ k)
    × (r ≢ err cancelled → p ≡ none)
    × Atomic f w.db r d'

abbrev undo : Exn → Exec (Unit {0})
undo e = do rollback; raise e

module _ (f : Db → Result Db) (w : World) where
  -- COMMIT of a state that `f` gives, and the rollback where COMMIT fails.
  commit-Transacted :
      (k : ℕ) (d' : Db) (o : Outcome)
      → w.calls ≤ k
      → f w.db ≡ ok d'
      → Transacted f w (caught (by_outcome o commit (tick (moved w w.db (some d') k))) undo)
  unfolding commit ◌>>=◌
  commit-Transacted k d' done le ran = (suc k, d', none, refl, omega arith, λ _. refl, ran)
  commit-Transacted k d' (cancel true) le ran =
      (suc (suc k), d', none, refl, omega arith, λ _. refl, inr ran)
  commit-Transacted k d' (cancel false) le ran =
      (suc (suc k), w.db, none, refl, omega arith, λ _. refl, inl refl)
  commit-Transacted k d' _ le ran = (suc (suc k), w.db, none, refl, omega arith, λ _. refl, refl)

  -- The inner `try` of an attempt, from the end of the work.
  rest-Transacted :
      (env : Env) (k : ℕ) (x : Result (Unit {0}) × World)
      → w.calls ≤ k
      → Worked f (moved w w.db (some w.db) k) w.db x
      → Transacted f w (caught (next x (λ _. execute env commit)) undo)
  unfolding execute ◌>>=◌
  rest-Transacted env k (ok u, w2) le (k2, d2, same, le2, ran) =
      rw same (commit-Transacted k2 d2 (env.statement k2) (omega arith) (ran refl))
  rest-Transacted env k (err e, w2) le (k2, d2, same, le2, _) =
      rw same (suc k2, w.db, none, refl, omega arith, λ _. refl, Atomic-undone f w.db e)

still_closed : (w : World) → w.conn.pending ≡ none → tick w ≡ moved w w.db none (suc w.calls)
still_closed w p = λ i. record w { conn = record w.conn { pending = p i }; calls = suc w.calls }

-- More calls may have gone by before the transaction.
Transacted-later :
    (f : Db → Result Db) (w : World) (k : ℕ) (x : Result (Unit {0}) × World)
    → w.calls ≤ k
    → Transacted f (moved w w.db none k) x
    → Transacted f w x
Transacted-later f w k x le (k2, d, p, same, le2, closed, atomic) =
    (k2, d, p, same, omega arith, closed, atomic)

module _ {f : Db → Result Db} {work : Exec (Unit {0})} (env : Env) (hw : IsWork f work) where
  begin-Transacted :
      (w : World) (o : Outcome)
      → w.conn.pending ≡ none
      → w.conn.query_only ≡ false
      → Transacted f w (
          next
            (by_outcome o begin_immediate (tick w))
            (λ _. catch (do work; execute env commit) undo))
  unfolding begin_immediate ◌>>=◌
  begin-Transacted w done p q =
      rw (p, begin_immediate)
        (rest-Transacted f w env (suc w.calls) (work (moved w w.db (some w.db) (suc w.calls)))
          (omega arith) (hw.works (moved w w.db (some w.db) (suc w.calls)) w.db refl q))
  begin-Transacted w (cancel true) p q =
      rw (p, begin_immediate)
        (suc w.calls, w.db, some w.db, refl, omega arith, λ h. absurd (h refl), inl refl)
  begin-Transacted w (cancel false) p q =
      (suc w.calls, w.db, none, still_closed w p, omega arith, λ h. refl, inl refl)
  begin-Transacted w _ p q =
      (suc w.calls, w.db, none, still_closed w p, omega arith, λ h. refl, refl)

  attempt-Transacted :
      (w : World)
      → w.conn.pending ≡ none
      → w.conn.query_only ≡ false
      → Transacted f w (attempt env work w)
  unfolding attempt execute
  attempt-Transacted w p q = begin-Transacted w (env.statement w.calls) p q

  -- SQLite was busy: the pause, and the next attempt or a StorageError.
  busy-Transacted :
      (w : World) (deadline attempts : ℕ) (again : Exec (Unit {0}))
      → ((k : ℕ) → Transacted f (moved w w.db none k) (again (moved w w.db none k)))
      → (k : ℕ) → w.calls ≤ k
      → Transacted f w (on_error env deadline attempts again sqlite_busy (moved w w.db none k))
  unfolding on_error back_off reset_transaction
  busy-Transacted w deadline attempts again next_try k le =
      elim (Bool-cases (gives_up deadline (env.clock k) attempts)) [
        | inl stop ↦ rw stop (suc k, w.db, none, refl, omega arith, λ _. refl, refl)
        | inr more ↦
            rw more (elim (Bool-cases (env.sleep (suc k) (pause deadline (env.clock k) attempts))) [
              | inl woken ↦
                  rw woken (suc (suc k), w.db, none, refl, omega arith, λ _. refl, inl refl)
              | inr slept ↦
                  rw slept
                    (Transacted-later f w (suc (suc k)) _ (omega arith) (next_try (suc (suc k))))
            ])
      ]

  -- The handler, after an attempt that raised `e`.
  on_error-Transacted :
      (w : World) (deadline attempts : ℕ) (again : Exec (Unit {0}))
      → ((k : ℕ) → Transacted f (moved w w.db none k) (again (moved w w.db none k)))
      → (k : ℕ) (p : Option Db) (d : Db) (e : Exn) → w.calls ≤ k
      → (◌≢◌ {A = Result (Unit {0})} (err e) (err cancelled) → p ≡ none)
      → Atomic f w.db (err e) d
      → Transacted f w (on_error env deadline attempts again e (moved w d p k))
  unfolding on_error
  on_error-Transacted w deadline attempts again next_try k p d sqlite_busy le closed same =
      subst
        (λ (x : Option Db × Db).
          Transacted f w (on_error env deadline attempts again sqlite_busy (moved w x.1 x.0 k)))
        (λ i. (sym (closed (λ h. cc)) i, sym same i))
        (busy-Transacted w deadline attempts again next_try k le)
  on_error-Transacted w deadline attempts again next_try k p d sqlite_failure le closed same =
      (k, d, p, refl, le, λ _. closed (λ h. cc), same)
  on_error-Transacted w deadline attempts again next_try k p d e le closed same =
      (k, d, p, refl, le, closed, same)

  handled-Transacted :
      (w : World) (deadline attempts : ℕ) (again : Exec (Unit {0}))
      → ((k : ℕ) → Transacted f (moved w w.db none k) (again (moved w w.db none k)))
      → (x : Result (Unit {0}) × World) → Transacted f w x
      → Transacted f w (caught x (on_error env deadline attempts again))
  handled-Transacted w deadline attempts again next_try (ok u, w') t = t
  handled-Transacted w deadline attempts again next_try (err e, w')
        (k, d, o, same, le, closed, atomic) =
      rw same (on_error-Transacted w deadline attempts again next_try k o d e le closed atomic)

  retry-Transacted :
      (fuel deadline attempts : ℕ) (w : World)
      → w.conn.pending ≡ none
      → w.conn.query_only ≡ false
      → Transacted f w (retry env work deadline fuel attempts w)
  unfolding retry
  retry-Transacted zero deadline attempts w p q = (
    w.calls,
    w.db,
    none,
    λ i. record w { conn = record w.conn { pending = p i } },
    omega arith,
    λ _. refl,
    refl,
  )
  retry-Transacted (suc fuel) deadline attempts w p q =
      handled-Transacted w deadline attempts (retry env work deadline fuel (attempts + 1))
        (λ k. retry-Transacted fuel deadline (attempts + 1) (moved w w.db none k) refl q)
        (attempt env work w) (attempt-Transacted w p q)

-- The transaction runner commits exactly what its work does, or nothing; where the task is
-- cancelled, one of the two. Only a cancellation may leave a transaction open, and nothing else of
-- the world changes but the number of calls.
pub run-Transacted :
    {f : Db → Result Db} {work : Exec (Unit {0})} (env : Env) (busy_timeout : ℕ) (w : World)
    → IsWork f work
    → w.conn.pending ≡ none
    → w.conn.query_only ≡ false
    → Transacted f w (run env busy_timeout work w)
unfolding run
run-Transacted {f} {work} env busy_timeout w hw p q =
    let (k, d, o, same, le, closed, atomic) =
      retry-Transacted env hw busy_retry_max_attempts
        (env.clock w.calls + busy_timeout * busy_retry_deadline_factor) 1 (tick w) p q in
    (k, d, o, same, omega arith, closed, atomic)
