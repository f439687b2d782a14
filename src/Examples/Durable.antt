-- ===== src/Examples/Durable.antt =====
-- The theorems on assignments and on histories of calls, at concrete inputs.
use ksqlite.Prelude.{
  ◌≡◌, refl, sym, ◌∙◌, ap, ◌⊎◌, inr, some, [], ◌∷◌, arith, true, ltb, if◌then◌else◌,
}
use mathlib.Core.Path.{subst}
use ksqlite.Prelude.Int.{ℤ, pos, ◌+ℤ◌, ◌≤ℤ◌}
use ksqlite.Errors.{ok, err, ok_injective, sqlite_failure}
use ksqlite.Text.{codes, text_eq, text_in}
use ksqlite.Text.Utf8.{decode, decode_replace}
use ksqlite.Text.Utf8.Roundtrip.{IsText}
use ksqlite.Types.{ready, tp_eq}
use ksqlite.Wire.{str, classify, serialize_payload, encode_record}
use ksqlite.Schema.{has_id, execute_statement}
use ksqlite.World.{Env, World, failure, done, ◌>>=◌}
use ksqlite.Batches.Covered.{Covered}
use ksqlite.Lifecycle.{on_partitions_assigned}
use ksqlite.Lifecycle.Opens.{Opened}
use ksqlite.Lifecycle
use ksqlite.Store
use ksqlite.Text.Utf8
use ksqlite.Write
use ksqlite.History
use ksqlite.History.{Call, appended, revoked, run_calls}
use ksqlite.History.Covered.{AllHonest, IsOrderly, append-Durable}
use ksqlite.Write.Covered.{NewIdsAreUuids}
use ksqlite.Write.Replayed.{acknowledged}
use ksqlite.Replay.Covered.{LogEnd}
use ksqlite.Store.Run.{Store}
use ksqlite.Write.{append}
use ksqlite.Topics
use ksqlite.Batches
use ksqlite.Pool
use ksqlite.Replay
use ksqlite.State
use ksqlite.Schema
use ksqlite.Sql
use ksqlite.Examples.{clean_conn, tp, name, env, cfg, world, encoded, running_store}
use ksqlite.Examples.Lossless.{Held, env-IsHonest, world-Covered, its_record, encoded_lem}

abbrev opened : World
opened = (on_partitions_assigned env cfg 9 (tp ∷ []) world).1

-- SQLite refuses the statements up to call number 4, which are those of the first append.
abbrev failing_env : Env
failing_env = record env { statement = λ n. if ltb n 5 then failure else done }

failing_env-AllHonest : AllHonest failing_env cfg (λ q. Held)
failing_env-AllHonest q t named = record {
  nonnegative = (env-IsHonest t).nonnegative;
  fetches = (env-IsHonest t).fetches;
  starts = (env-IsHonest t).starts;
}

failing_env-NewIdsAreUuids : NewIdsAreUuids failing_env
failing_env-NewIdsAreUuids m = ((omega arith, tt), refl)

abbrev call_append : Call
call_append = appended tp (codes "k") (str (codes "{}"))

call_is_fine : (w : World) → IsOrderly failing_env (λ q. Held) call_append w
unfolding serialize_payload
call_is_fine w = (
  (omega arith, tt),
  (λ text same. subst IsText (ok_injective same) (omega arith, (omega arith, tt))),
  λ enc topic offset x is_encoded (sent, fine) held le.
      inr (its_record enc offset x is_encoded sent held),
)

abbrev revocation : Store × Call
revocation = (running_store, revoked (tp ∷ []))

-- What the append leaves, whose local write fails.
abbrev left_by_append : World
left_by_append = record world {
  calls = 5;
  conn = record clean_conn { query_only = true; row_factory = true };
}

append_fails :
    append failing_env cfg tp (codes "k") (str (codes "{}")) world
    ≡ (err sqlite_failure, left_by_append)
unfolding on_partitions_assigned ◌>>=◌ Lifecycle.assign_each Lifecycle.assign_one
    Topics.ensure_and_verify Sql.validate_topic_name text_in text_eq Lifecycle.out_of_time
    Lifecycle.rehydrate_one Batches.read_checkpoint Pool.checkout Pool.select_checkpoint
    Batches.get_consumer Pool.execute Pool.take_connection Pool.reset_transaction
    Schema.checkpoint_of Lifecycle.seek_start Replay.replay Replay.round Lifecycle.finish
    Batches.reveal Batches.execute_in_txn Pool.transact Pool.run Pool.retry Pool.attempt
    Pool.begin_immediate Pool.commit Pool.run_statement Pool.dml execute_statement
    Batches.materialize_batch Batches.batch_work Batches.replay_records Batches.replay_record
    Batches.replay_classified classify decode decode_replace ◌+ℤ◌ State.status_of State.get
    State.mark_ready State.change State.record_applied State.mark_restoring State.record_log_end
    tp_eq Topics.changelog_name Topics.step_zero Topics.ensure_topic Topics.verify_policy
    Schema.is_owned append serialize_payload encode_record Store.Run.ensure_running
    Write.validate_entity_key Utf8.encode Write.produce Write.materialize Utf8.encode_char
    Pool.on_error Pool.back_off
append_fails = refl

revoked_nothing : run_calls failing_env cfg (revocation ∷ []) left_by_append ≡ left_by_append
unfolding run_calls History.run_call Store.Run.ensure_running ◌>>=◌ Lifecycle.on_partitions_revoked
    Lifecycle.revoke_one Lifecycle.revoke_seen State.status_of State.get
revoked_nothing = refl

abbrev reopened : World
reopened = (on_partitions_assigned failing_env cfg 9 (tp ∷ []) left_by_append).1

reopens : on_partitions_assigned failing_env cfg 9 (tp ∷ []) left_by_append ≡ (ok tt, reopened)
unfolding on_partitions_assigned ◌>>=◌ Lifecycle.assign_each Lifecycle.assign_one
    Topics.ensure_and_verify Sql.validate_topic_name text_in text_eq Lifecycle.out_of_time
    Lifecycle.rehydrate_one Batches.read_checkpoint Pool.checkout Pool.select_checkpoint
    Batches.get_consumer Pool.execute Pool.take_connection Pool.reset_transaction
    Schema.checkpoint_of Lifecycle.seek_start Replay.replay Replay.round Lifecycle.finish
    Batches.reveal Batches.execute_in_txn Pool.transact Pool.run Pool.retry Pool.attempt
    Pool.begin_immediate Pool.commit Pool.run_statement Pool.dml execute_statement
    Batches.materialize_batch Batches.batch_work Batches.replay_records Batches.replay_record
    Batches.replay_classified classify decode decode_replace ◌+ℤ◌ State.status_of State.get
    State.mark_ready State.change State.record_applied State.mark_restoring State.record_log_end
    tp_eq Topics.changelog_name Topics.step_zero Topics.ensure_topic Topics.verify_policy
    Schema.is_owned
reopens = refl

reopened_ready : State.status_of tp reopened.machine ≡ some ready
unfolding on_partitions_assigned ◌>>=◌ Lifecycle.assign_each Lifecycle.assign_one
    Topics.ensure_and_verify Sql.validate_topic_name text_in text_eq Lifecycle.out_of_time
    Lifecycle.rehydrate_one Batches.read_checkpoint Pool.checkout Pool.select_checkpoint
    Batches.get_consumer Pool.execute Pool.take_connection Pool.reset_transaction
    Schema.checkpoint_of Lifecycle.seek_start Replay.replay Replay.round Lifecycle.finish
    Batches.reveal Batches.execute_in_txn Pool.transact Pool.run Pool.retry Pool.attempt
    Pool.begin_immediate Pool.commit Pool.run_statement Pool.dml execute_statement
    Batches.materialize_batch Batches.batch_work Batches.replay_records Batches.replay_record
    Batches.replay_classified classify decode decode_replace ◌+ℤ◌ State.status_of State.get
    State.mark_ready State.change State.record_applied State.mark_restoring State.record_log_end
    tp_eq Topics.changelog_name Topics.step_zero Topics.ensure_topic Topics.verify_policy
    Schema.is_owned
reopened_ready = refl

tp_name : Topics.changelog_name failing_env cfg.topics tp ≡ ok name
unfolding Topics.changelog_name Sql.validate_topic_name text_in text_eq
tp_name = refl

append-Durable_example :
    (leo : ℤ) × LogEnd tp leo reopened
    × ((has_id (codes "m") reopened.db.records ≡ true) ⊎ (leo ≤ℤ pos 0))
unfolding Schema.is_owned tp_eq text_eq serialize_payload
append-Durable_example =
    append-Durable failing_env cfg (λ q. Held) tp (codes "k") (str (codes "{}")) encoded name
      (pos 0) (revocation ∷ []) 9 (tp ∷ []) world reopened failing_env-AllHonest
      failing_env-NewIdsAreUuids world-Covered (call_is_fine world) encoded_lem (refl, refl) tp_name
      (λ topic offset named (sent, fine). ap (acknowledged encoded) (sym (ok_injective sent)))
      (tt, tt)
      (ap
          (λ x.
            on_partitions_assigned failing_env cfg 9 (tp ∷ [])
              (run_calls failing_env cfg (revocation ∷ []) x.1))
          append_fails
        ∙ ap (λ w. on_partitions_assigned failing_env cfg 9 (tp ∷ []) w) revoked_nothing
        ∙ reopens)
      refl reopened_ready
