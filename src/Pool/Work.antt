-- ===== src/Pool/Work.antt =====
-- TransactionRunner.run: what its `work` does inside the transaction.
use ksqlite.Prelude.{ℕ, suc, ◌≤◌, ◌≡◌, refl, ap, ◌∙◌, true, false, Option, some, arith}
use ksqlite.Errors.{Exn, Result, ok, err}
use ksqlite.Errors
use ksqlite.Schema.{Db, Statement, execute_statement}
use ksqlite.World.{Outcome, done, cancel, Env, World, Exec, pure, raise, next, ◌>>=◌, ◌>>◌}
use ksqlite.Pool.{dml, run_statement, by_outcome}

-- The world with another committed state, another open transaction and more calls behind it.
abbrev pub moved : World → Db → Option Db → ℕ → World
moved w d p k = record w { db = d; conn = record w.conn { pending = p }; calls = k }

-- What the part of `work` inside the transaction has done by its end: `f`, if it returned.
abbrev pub Worked : (Db → Result Db) → World → Db → Result (Unit {0}) × World → Type 0
Worked f w d (r, w') =
    (k : ℕ) × (d' : Db) × (w' ≡ moved w w.db (some d') k)
    × (w.calls ≤ k)
    × (r ≡ ok tt → f d ≡ ok d')

-- `work` acts on an open transaction as `f` does, and on nothing else.
pub record IsWork (f : Db → Result Db) (work : Exec (Unit {0})) : Type 0 where
  pub works :
      (w : World) (d : Db)
      → w.conn.pending ≡ some d
      → w.conn.query_only ≡ false
      → Worked f w d (work w)

abbrev pub tick : World → World
tick w = record w { calls = suc w.calls }

-- An effect on the open transaction, by the state that it leaves there.
abbrev pub stored : World → Result Db → Result World
stored w (ok d) = ok (record w { conn = record w.conn { pending = some d } })
stored w (err e) = err e

untouched :
    (w : World) (d : Db) → w.conn.pending ≡ some d → tick w ≡ moved w w.db (some d) (suc w.calls)
untouched w d p = λ i. record w { conn = record w.conn { pending = p i }; calls = suc w.calls }

module _ (w : World) (d : Db) (p : w.conn.pending ≡ some d) where
  by_outcome-Worked :
      (f : Db → Result Db) (o : Outcome) (r : Result Db) (g : World → Result World)
      → f d ≡ r
      → g (tick w) ≡ stored (tick w) r
      → Worked f w d (by_outcome o g (tick w))
  by_outcome-Worked f done (ok d') g e h = rw h (suc w.calls, d', refl, omega arith, λ _. e)
  by_outcome-Worked f done (err x) g e h =
      rw h (suc w.calls, d, untouched w d p, omega arith, λ q. cc)
  by_outcome-Worked f (cancel true) (ok d') g e h =
      rw h (suc w.calls, d', refl, omega arith, λ _. e)
  by_outcome-Worked f (cancel true) (err x) g e h =
      rw h (suc w.calls, d, untouched w d p, omega arith, λ q. cc)
  by_outcome-Worked f _ r g e h = (suc w.calls, d, untouched w d p, omega arith, λ q. cc)

pub dml-open :
    (env : Env) (s : Statement) (w : World) (d : Db)
    → w.conn.pending ≡ some d
    → w.conn.query_only ≡ false
    → dml env s w ≡ stored w (execute_statement env.json s d)
unfolding dml
dml-open env s w d p q = rw (p, q) (ground arith)

pub IsWork-statement :
    (env : Env) (s : Statement) → IsWork (execute_statement env.json s) (run_statement env s)
unfolding run_statement
IsWork-statement env s = record {
  works = λ w d p q.
      by_outcome-Worked w d p (execute_statement env.json s) (env.statement w.calls)
        (execute_statement env.json s d) (dml env s) refl (dml-open env s (tick w) d p q);
}

pub next-Worked :
    (f g : Db → Result Db) (n : Exec (Unit {0})) (w : World) (d : Db)
    → w.conn.query_only ≡ false
    → IsWork g n
    → (x : Result (Unit {0}) × World) → Worked f w d x
    → Worked (λ y. Errors.◌>>=◌ (f y) g) w d (next x (λ _. n))
next-Worked f g n w d q hn (err e, w1) (k, d', same, le, _) = (k, d', same, le, λ h. cc)
next-Worked f g n w d q hn (ok u, w1) (k, d', same, le, ran) =
    let (k2, d2, same2, le2, ran2) =
      hn.works w1 d' (ap (λ x. x.conn.pending) same) (ap (λ x. x.conn.query_only) same ∙ q) in
    (
      k2,
      d2,
      same2 ∙ ap (λ x. moved x x.db (some d2) k2) same,
      omega (arith, ap (λ x. x.calls) same),
      λ h. rw (ran refl) (ran2 h),
    )

-- Work after work acts as the one and then the other.
pub IsWork-bind :
    {f g : Db → Result Db} {m n : Exec (Unit {0})}
    → IsWork f m
    → IsWork g n
    → IsWork (λ d. Errors.◌>>=◌ (f d) g) (m >> n)
unfolding ◌>>=◌
IsWork-bind {f} {g} {m} {n} hm hn = record {
  works = λ w d p q. next-Worked f g n w d q hn (m w) (hm.works w d p q);
}

pub IsWork-raise : {f : Db → Result Db} (e : Exn) → IsWork f (raise e)
IsWork-raise e = record {
  works = λ w d p q.
      (w.calls, d, λ i. record w { conn = record w.conn { pending = p i } }, omega arith, λ h. cc);
}

pub IsWork-pure : IsWork ok (pure tt)
IsWork-pure = record {
  works = λ w d p q. (
    w.calls,
    d,
    λ i. record w { conn = record w.conn { pending = p i } },
    omega arith,
    λ h. refl,
  );
}
