-- ===== src/Batches/Effect.antt =====
-- What the work of one batch does to the database, as a function; and how writes through the pool
-- relate the database before and after.
use ksqlite.Prelude.{ℕ, ◌≡◌, refl, ap, sym, List, [], ◌∷◌, inl, inr}
use ksqlite.Prelude.Int.{ℤ}
use mathlib.Core.Path.{subst}
use ksqlite.Errors.{Exn, Result, ok, err, ok_injective, ◌>>=◌, rehydrate_error, cancelled}
use ksqlite.Types.{TopicPartition}
use ksqlite.Wire.{Classified, ksqlite_record, foreign, unknown_version, classify}
use ksqlite.Schema.{Db, Row, insert_record, checkpoint_upsert, execute_statement}
use ksqlite.World.{Env, World, Exec, ConsumerRecord}
use ksqlite.World.Related.{Related, IsPreorder, OnDb}
use ksqlite.Pool.{transact}
use ksqlite.Pool.Transaction.{Atomic}
use ksqlite.Pool.Work.{IsWork, IsWork-statement, IsWork-bind, IsWork-raise, IsWork-pure}
use ksqlite.Pool.Written.{Written, transact-Written}
use ksqlite.Batches.{row_of, replay_classified, replay_record, replay_records, batch_work}

abbrev pub classified_effect : Env → TopicPartition → ℤ → Classified → Db → Result Db
classified_effect env tp offset (foreign reason) = ok
classified_effect env tp offset (unknown_version id version) = λ d. err rehydrate_error
classified_effect env tp offset (ksqlite_record r) =
    execute_statement env.json (insert_record (row_of tp offset r))

abbrev pub record_effect : Env → TopicPartition → ConsumerRecord → Db → Result Db
record_effect env tp r =
    classified_effect env tp r.offset (classify env.parsers r.key r.value r.headers)

unfoldable pub replay_effect : Env → TopicPartition → List ConsumerRecord → Db → Result Db
replay_effect env tp [] d = ok d
replay_effect env tp (r ∷ rs) d = record_effect env tp r d >>= replay_effect env tp rs

unfoldable pub batch_effect : Env → TopicPartition → List ConsumerRecord → ℤ → Db → Result Db
batch_effect env tp rs last d =
    replay_effect env tp rs d >>= execute_statement env.json (checkpoint_upsert tp last)

classified-IsWork :
    (env : Env) (tp : TopicPartition) (offset : ℤ) (c : Classified)
    → IsWork (classified_effect env tp offset c) (replay_classified env tp offset c)
unfolding replay_classified
classified-IsWork env tp offset (foreign reason) = IsWork-pure
classified-IsWork env tp offset (unknown_version id version) = IsWork-raise rehydrate_error
classified-IsWork env tp offset (ksqlite_record r) =
    IsWork-statement env (insert_record (row_of tp offset r))

replay_records-IsWork :
    (env : Env) (tp : TopicPartition) (rs : List ConsumerRecord)
    → IsWork (replay_effect env tp rs) (replay_records env tp rs)
unfolding replay_records replay_record replay_effect
replay_records-IsWork env tp [] = IsWork-pure
replay_records-IsWork env tp (r ∷ rs) =
    IsWork-bind (classified-IsWork env tp r.offset (classify env.parsers r.key r.value r.headers))
      (replay_records-IsWork env tp rs)

-- The work of a batch acts on an open transaction as `batch_effect` does.
pub batch_work-IsWork :
    (env : Env) (tp : TopicPartition) (rs : List ConsumerRecord) (last : ℤ)
    → IsWork (batch_effect env tp rs last) (batch_work env tp rs last)
unfolding batch_work batch_effect
batch_work-IsWork env tp rs last =
    IsWork-bind (replay_records-IsWork env tp rs) (IsWork-statement env (checkpoint_upsert tp last))

-- Every state that `f` gives is related to the state that it is given.
pub record Through (R : Db → Db → Type 0) (f : Db → Result Db) : Type 0 where
  pub step : (d d' : Db) → f d ≡ ok d' → R d d'

module _ {R : Db → Db → Type 0} (order : IsPreorder R) where
  pub Through-ok : Through R ok
  Through-ok = record { step = λ d d' h. subst (R d) (ok_injective h) (order.same d) }

  pub Through-err : (e : Exn) → Through R (λ d. err e)
  Through-err e = record { step = λ d d' h. cc }

  pub Through-bind : {f g : Db → Result Db} → Through R f → Through R g → Through R (λ d. f d >>= g)
  Through-bind {f} {g} hf hg = record { step = λ d d' h. go d d' (f d) refl h }
    where
      go : (d d' : Db) (r : Result Db) → f d ≡ r → (r >>= g) ≡ ok d' → R d d'
      go d d' (ok d1) e h = order.then_also d d1 d' (hf.step d d1 e) (hg.step d1 d' h)
      go d d' (err x) e h = cc

  module _ (env : Env) (tp : TopicPartition)
      (insert : (r : Row)
        → r.source ≡ tp
        → Through R (execute_statement env.json (insert_record r))) where
    Through-classified :
        (offset : ℤ) (c : Classified) → Through R (classified_effect env tp offset c)
    Through-classified offset (foreign reason) = Through-ok
    Through-classified offset (unknown_version id version) = Through-err rehydrate_error
    Through-classified offset (ksqlite_record r) = insert (row_of tp offset r) refl

    pub Through-replay : (rs : List ConsumerRecord) → Through R (replay_effect env tp rs)
    unfolding replay_effect
    Through-replay [] = Through-ok
    Through-replay (r ∷ rs) =
        Through-bind (Through-classified r.offset (classify env.parsers r.key r.value r.headers))
          (Through-replay rs)

    -- A batch relates the states if its statements do.
    pub Through-batch :
        (rs : List ConsumerRecord) (last : ℤ)
        → Through R (execute_statement env.json (checkpoint_upsert tp last))
        → Through R (batch_effect env tp rs last)
    unfolding batch_effect
    Through-batch rs last upsert = Through-bind (Through-replay rs) upsert

  pub Atomic-Related :
      (f : Db → Result Db) (d d' : Db) (r : Result (Unit {0}))
      → Through R f
      → Atomic f d r d'
      → R d d'
  Atomic-Related f d d' (ok _) h a = h.step d d' a
  Atomic-Related f d d' (err cancelled) h (inl e) = subst (R d) (sym e) (order.same d)
  Atomic-Related f d d' (err cancelled) h (inr a) = h.step d d' a
  Atomic-Related f d d' (err _) h e = subst (R d) (sym e) (order.same d)

  -- A write through the pool relates the states as its work does.
  pub transact-OnDb :
      {f : Db → Result Db} {work : Exec (Unit {0})} (env : Env) (busy_timeout : ℕ)
      → Through R f
      → IsWork f work
      → Related (OnDb R) (transact env busy_timeout work)
  transact-OnDb {f} {work} env bt hf hw = record {
    at = λ w. go w (transact env bt work w) (transact-Written env bt w hw);
  }
    where
      go : (w : World) (x : Result (Unit {0}) × World) → Written f w x → OnDb R w x.1
      go w (r, w') (k, c, d, same, le, atomic) = rw same (Atomic-Related f w.db d r hf atomic)

-- A write through the pool leaves the memory of the process alone.
pub transact-machine :
    {f : Db → Result Db} {work : Exec (Unit {0})} (env : Env) (busy_timeout : ℕ) (w : World)
    → IsWork f work
    → (transact env busy_timeout work w).1.machine ≡ w.machine
transact-machine env bt w hw =
    let (k, c, d, same, le, atomic) = transact-Written env bt w hw in ap (λ x. x.machine) same
