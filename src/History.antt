-- ===== src/History.antt =====
-- _store.py: the public methods, which check the run state and delegate; and what holds of the database
-- in every history of a host's calls.
pub mod Covered
use ksqlite.Prelude.{ℕ, sym, Option, none, some, List, [], ◌∷◌, Each, inl, inr}
use mathlib.Core.Path.{subst}
use ksqlite.Errors.{Result, ok, err, value_error}
use ksqlite.Text.Utf8.{decode}
use ksqlite.Text.{Text}
use ksqlite.Types.{TopicPartition}
use ksqlite.Wire.{Payload}
use ksqlite.Schema.{Row, insert_record, checkpoint_upsert}
use ksqlite.Schema.Keys.{IsKeyed, RespectsKeys, RespectsKeys-preorder, statement-RespectsKeys}
use ksqlite.World.{Env, World, Exec, next, pure, raise, ◌>>=◌, ◌>>◌}
use ksqlite.Batches.{Settings}
use ksqlite.Batches.Effect.{Through, Through-err, Through-bind, Atomic-Related}
use ksqlite.Lifecycle.{on_partitions_assigned, on_partitions_revoked}
use ksqlite.Lifecycle.Hooks.{assigned-Ends, revoked-Ends}
use ksqlite.Read.{Sql, Target, query_into}
use ksqlite.Read.Readonly.{Same, query_into-Same}
use ksqlite.Store.Run.{Store, ensure_running}
use ksqlite.Write.{append, row_for}
use ksqlite.Write.Effect.{
  Appended, append-Appended, append_effect, decoded_effect, materialize_effect,
}

-- A call of the host: a hook with the fuel of its loops, an append, or a query whose rows it gets.
pub data Call : Type 0 where
  assigned : ℕ → List TopicPartition → Call
  revoked : List TopicPartition → Call
  appended : TopicPartition → Text → Payload → Call
  queried : Sql → Target Text → Call

-- What the service behind the store does.
abbrev pub delegated : Env → Settings → Call → Exec (Unit {0})
delegated env cfg (assigned fuel tps) = on_partitions_assigned env cfg fuel tps
delegated env cfg (revoked tps) = on_partitions_revoked env cfg tps
delegated env cfg (appended source key payload) = append env cfg source key payload
delegated env cfg (queried sql into) = query_into env sql into >> pure tt

abbrev pub guarded : Result (Unit {0}) → Exec (Unit {0}) → Exec (Unit {0})
guarded (ok u) m = m
guarded (err e) m = raise e

-- The method of the store: `_ensure_running`, then the service.
unfoldable pub run_call : Env → Settings → Store → Call → Exec (Unit {0})
run_call env cfg store c = guarded (ensure_running store) (delegated env cfg c)

-- The calls, each at the run state that it finds, whatever each ends with.
unfoldable pub run_calls : Env → Settings → List (Store × Call) → World → World
unfolding run_call
run_calls env cfg [] w = w
run_calls env cfg ((store, c) ∷ cs) w = run_calls env cfg cs (run_call env cfg store c w).1

module _ (env : Env) (cfg : Settings) where
  every : (tps : List TopicPartition) → Each (λ tp. Unit) tps
  every [] = tt
  every (tp ∷ tps) = (tt, every tps)

  decoded_effect-RespectsKeys :
      (row : Text → Row) (payload : Option Text)
      → Through RespectsKeys (decoded_effect env row payload)
  unfolding decoded_effect materialize_effect
  decoded_effect-RespectsKeys row none = Through-err RespectsKeys-preorder value_error
  decoded_effect-RespectsKeys row (some payload) =
      Through-bind RespectsKeys-preorder
        (statement-RespectsKeys env.json (insert_record (row payload)))
        (statement-RespectsKeys env.json
          (checkpoint_upsert (row payload).source (row payload).changelog_offset))

  append-RespectsKeys :
      (source : TopicPartition) (key : Text) (payload : Payload) (w : World)
      → RespectsKeys w.db (append env cfg source key payload w).1.db
  unfolding append_effect
  append-RespectsKeys source key payload w =
      by_end (append env cfg source key payload w) (append-Appended env cfg source key payload w)
    where
      by_end :
          (x : Result (Unit {0}) × World)
          → Appended env cfg source key payload w x
          → RespectsKeys w.db x.1.db
      by_end x (inl (failed, same, still)) = subst (RespectsKeys w.db) (sym same) (λ k. k)
      by_end x (inr (encoded, topic, offset, is_encoded, is_topic, ack, atomic, memory)) =
          Atomic-Related RespectsKeys-preorder _ w.db x.1.db x.0
            (decoded_effect-RespectsKeys (row_for source (env.new_message_id w.calls) key offset)
              (decode encoded.value))
            atomic

  delegated-RespectsKeys : (c : Call) (w : World) → RespectsKeys w.db (delegated env cfg c w).1.db
  unfolding ◌>>=◌
  delegated-RespectsKeys (assigned fuel tps) w =
      (assigned-Ends env cfg RespectsKeys-preorder (λ tp. Unit)
          (λ tp ours s f. statement-RespectsKeys env.json s) fuel tps (every tps)).at
        w
  delegated-RespectsKeys (revoked tps) w =
      (revoked-Ends env cfg RespectsKeys-preorder (λ tp. Unit)
          (λ tp ours s f. statement-RespectsKeys env.json s) tps (every tps)).at
        w
  delegated-RespectsKeys (appended source key payload) w = append-RespectsKeys source key payload w
  delegated-RespectsKeys (queried sql into) w =
      dropped (query_into env sql into w) (query_into-Same env sql into w)
    where
      dropped :
          (x : Result (List Text) × World)
          → Same w x.1
          → RespectsKeys w.db (next x (λ _. pure tt)).1.db
      dropped (ok rows, w1) (same, still) = subst (RespectsKeys w.db) (sym same) (λ k. k)
      dropped (err e, w1) (same, still) = subst (RespectsKeys w.db) (sym same) (λ k. k)

  call-RespectsKeys :
      (store : Store) (c : Call) (w : World) → RespectsKeys w.db (run_call env cfg store c w).1.db
  unfolding run_call
  call-RespectsKeys store c w = by_guard (ensure_running store)
    where
      by_guard :
          (r : Result (Unit {0})) → RespectsKeys w.db (guarded r (delegated env cfg c) w).1.db
      by_guard (ok u) = delegated-RespectsKeys c w
      by_guard (err e) = λ k. k

-- In every history of assignments, revocations, appends and queries, each made at any run state of the
-- store and whatever it ends with, no two rows have one message id, no partition has two checkpoints
-- and none is owned twice, if that is so at the start.
pub run_calls-IsKeyed :
    (env : Env) (cfg : Settings) (cs : List (Store × Call)) (w : World)
    → IsKeyed w.db
    → IsKeyed (run_calls env cfg cs w).db
unfolding run_calls
run_calls-IsKeyed env cfg [] w k = k
run_calls-IsKeyed env cfg ((store, c) ∷ cs) w k =
    run_calls-IsKeyed env cfg cs (run_call env cfg store c w).1
      (call-RespectsKeys env cfg store c w k)
