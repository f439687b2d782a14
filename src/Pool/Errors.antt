-- ===== src/Pool/Errors.antt =====
-- Which exceptions leave the transaction runner.
use ksqlite.Prelude.{
  ℕ, zero, suc, ◌+◌, ◌≤◌, ◌<◌, ◌≡◌, refl, Bool, true, false, Option, none, some, arith, ◌*◌, leb,
  if◌then◌else◌, not-leb→lt, Bool-cases, inl, inr,
}
use ksqlite.Errors.{Exn, Result, ok, err, storage_error, sqlite_busy, sqlite_failure, still_running}
use ksqlite.Schema.{
  Db, Json, Statement, insert_record, checkpoint_upsert, checkpoint_clamp, owned_insert,
  owned_delete, owned_delete_all, execute_statement,
}
use ksqlite.World.{
  Env, World, Exec, Outcome, done, busy, failure, cancel, next, raise, read_clock, ◌>>=◌, ◌>>◌,
}
use ksqlite.World.Only.{Only, Only-raise, Only-call, Only-catch, Only-bind}
use ksqlite.Pool.{
  run_statement, dml, execute, settled, by_outcome, begin_immediate, commit, rollback,
  reset_transaction, attempt, gives_up, backoff_sleep, pause, back_off, on_error, retry, run,
}

-- The loop has ended.
abbrev pub is_end : Exn → Bool
is_end still_running = false
is_end _ = true

-- The loop has ended, and not with an error of SQLite's own.
abbrev pub is_mapped_end : Exn → Bool
is_mapped_end still_running = false
is_mapped_end sqlite_busy = false
is_mapped_end sqlite_failure = false
is_mapped_end _ = true

abbrev give_up_or_sleep : Env → ℕ → ℕ → ℕ → Exec (Unit {0})
give_up_or_sleep env deadline attempts now =
    if gives_up deadline now attempts
    then raise storage_error
    else backoff_sleep env (pause deadline now attempts)

decided-ok :
    (env : Env) (deadline attempts now : ℕ) (w : World)
    → (give_up_or_sleep env deadline attempts now w).0 ≡ ok tt
    → attempts < 3
decided-ok env deadline attempts now w h = elim (Bool-cases (leb 3 attempts)) [
  | inl many ↦ absurd (not_ok (rw many at h))
  | inr few ↦ not-leb→lt _ _ few
]
  where
    not_ok : {e : Exn} → err e ≡ ok (tt {0}) → ⊥
    not_ok h = cc h

decided-err :
    (env : Env) (deadline attempts now : ℕ) (w : World) (e : Exn)
    → (give_up_or_sleep env deadline attempts now w).0 ≡ err e
    → is_mapped_end e ≡ true
decided-err env deadline attempts now w e h = ground arith

-- Another attempt is only made before the third has failed.
back_off-ok :
    (env : Env) (deadline attempts : ℕ) (w : World) (o : Option Db)
    → w.conn.pending ≡ o
    → (back_off env deadline attempts w).0 ≡ ok tt
    → attempts < 3
unfolding back_off reset_transaction ◌>>=◌
back_off-ok env deadline attempts w none p h =
    decided-ok env deadline attempts _ _ (rw (p, back_off) at h)
back_off-ok env deadline attempts w (some d) p h =
    decided-ok env deadline attempts _ _ (rw (p, back_off) at h)

back_off-err :
    (env : Env) (deadline attempts : ℕ) (w : World) (o : Option Db) (e : Exn)
    → w.conn.pending ≡ o
    → (back_off env deadline attempts w).0 ≡ err e
    → is_mapped_end e ≡ true
unfolding back_off reset_transaction ◌>>=◌
back_off-err env deadline attempts w none e p h =
    decided-err env deadline attempts _ _ e (rw (p, back_off) at h)
back_off-err env deadline attempts w (some d) e p h =
    decided-err env deadline attempts _ _ e (rw (p, back_off) at h)

Only-statement :
    (env : Env) (f : World → Result World)
    → ((w : World) (e : Exn) → f w ≡ err e → is_end e ≡ true)
    → Only is_end (execute env f)
unfolding execute
Only-statement env f h = record { raises = λ w e p. go (env.statement w.calls) _ e p }
  where
    settled_end :
        (r : Result World) (w : World) (e : Exn)
        → ((e : Exn) → r ≡ err e → is_end e ≡ true)
        → (settled r w).0 ≡ err e
        → is_end e ≡ true
    settled_end (ok w') w e q p = cc p
    settled_end (err e') w e q p = q e (ground arith)

    go : (o : Outcome) (w : World) (e : Exn) → (by_outcome o f w).0 ≡ err e → is_end e ≡ true
    go done w e p = settled_end (f w) w e (h w) p
    go busy w e p = ground arith
    go failure w e p = ground arith
    go (cancel true) w e p = ground arith
    go (cancel false) w e p = ground arith

begin_end : (w : World) (e : Exn) → begin_immediate w ≡ err e → is_end e ≡ true
unfolding begin_immediate
begin_end w e h = ground arith

commit_end : (w : World) (e : Exn) → commit w ≡ err e → is_end e ≡ true
unfolding commit
commit_end w e h = ground arith

module _ (env : Env) (deadline : ℕ) {work : Exec (Unit {0})} (hw : Only is_end work) where
  attempt-Only : Only is_end (attempt env work)
  unfolding attempt
  attempt-Only =
      Only-bind (execute env begin_immediate) _ (Only-statement env begin_immediate begin_end) λ _.
        Only-catch (do work; execute env commit) _
          (Only-bind work _ hw λ _. Only-statement env commit commit_end)
          λ e h. Only-bind rollback _ (record { raises = λ w e h. cc }) λ _. Only-raise e h

  after_back_off :
      (attempts : ℕ) (again : Exec (Unit {0})) (x : Result (Unit {0}) × World) (e : Exn)
      → (attempts < 3 → Only is_mapped_end again)
      → (x.0 ≡ ok tt → attempts < 3)
      → ((e : Exn) → x.0 ≡ err e → is_mapped_end e ≡ true)
      → (next x (λ _. again)).0 ≡ err e
      → is_mapped_end e ≡ true
  after_back_off attempts again (ok u, w) e ha ho he h = (ha (ho refl)).raises w e h
  after_back_off attempts again (err e', w) e ha ho he h = he e h

  on_error-Only :
      (attempts : ℕ) (again : Exec (Unit {0})) (e : Exn)
      → (attempts < 3 → Only is_mapped_end again)
      → is_end e ≡ true
      → Only is_mapped_end (on_error env deadline attempts again e)
  unfolding on_error ◌>>=◌
  on_error-Only attempts again sqlite_busy ha q = record {
    raises = λ w e h.
        after_back_off attempts again (back_off env deadline attempts w) e ha
          (back_off-ok env deadline attempts w w.conn.pending refl)
          (λ e. back_off-err env deadline attempts w w.conn.pending e refl) h;
  }
  on_error-Only attempts again sqlite_failure ha q = Only-raise storage_error refl
  on_error-Only attempts again e ha q = Only-raise e (ground arith)

  -- Three attempts: with attempt number `attempts` still to make, the fuel covers the rest.
  retry-Only :
      (fuel attempts : ℕ)
      → fuel + attempts ≡ 4
      → 1 ≤ fuel
      → Only is_mapped_end (retry env work deadline fuel attempts)
  unfolding retry
  retry-Only zero attempts h one = absurd (omega (arith, one))
  retry-Only (suc fuel) attempts h one = Only-catch (attempt env work) _ attempt-Only λ e ended.
      on_error-Only attempts _ e
        (λ lt. retry-Only fuel (attempts + 1) (omega (arith, h)) (omega (arith, h, lt))) ended

-- The transaction runner ends, after at most three attempts, and lets no exception of SQLite's own
-- out, if the work ends.
pub run-Only :
    {work : Exec (Unit {0})} (env : Env) (busy_timeout : ℕ)
    → Only is_end work
    → Only is_mapped_end (run env busy_timeout work)
unfolding run
run-Only {work} env bt hw =
    Only-bind (read_clock env) _ (Only-call _ λ n e h. cc h)
      λ now. retry-Only env (now + bt * 2) hw 3 1 refl (omega arith)

execute_statement-end :
    (json : Json) (s : Statement) (d : Db) (e : Exn)
    → execute_statement json s d ≡ err e
    → is_end e ≡ true
unfolding execute_statement
execute_statement-end json (insert_record r) d e h = ground arith
execute_statement-end json (checkpoint_upsert tp o) d e h = cc h
execute_statement-end json (checkpoint_clamp tp o) d e h = cc h
execute_statement-end json (owned_insert tp) d e h = cc h
execute_statement-end json (owned_delete tp) d e h = cc h
execute_statement-end json owned_delete_all d e h = cc h

dml-end : (env : Env) (s : Statement) (w : World) (e : Exn) → dml env s w ≡ err e → is_end e ≡ true
unfolding dml
dml-end env s w e h = go w.conn.query_only w.conn.pending refl refl
  where
    ran :
        (d : Db)
        → (f : Db → World) → (x : Result Db) → execute_statement env.json s d ≡ x
        → elim x [ err e ↦ err e | ok d' ↦ ok (f d') ] ≡ err e
        → is_end e ≡ true
    ran d f (ok d') p q = cc q
    ran d f (err e') p q = execute_statement-end env.json s d e (ground arith)

    go : (q : Bool) (o : Option Db) → w.conn.query_only ≡ q → w.conn.pending ≡ o → is_end e ≡ true
    go true o p q = ground arith
    go false none p q = ran w.db _ _ refl (rw (p, q, dml) at h)
    go false (some d) p q = ran d _ _ refl (rw (p, q, dml) at h)

-- A data statement ends.
pub Only-run_statement : (env : Env) (s : Statement) → Only is_end (run_statement env s)
unfolding run_statement
Only-run_statement env s = Only-statement env (dml env s) (dml-end env s)
