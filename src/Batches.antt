-- ===== src/Batches.antt =====
-- _lifecycle.py, class PartitionLifecycle: its parameters, the single writes and reads, and one
-- fetched batch. What serves only the log lines (`records_replayed`, `last_applied`) is left out, and
-- so is the `stop()` of a consumer whose start failed.
pub mod Effect
pub mod Covered
pub mod Again
pub mod Rows
pub mod Converge
use ksqlite.Prelude.{ℕ, Bool, true, false, Option, List, [], ◌∷◌, if◌then◌else◌}
use ksqlite.Prelude.Int.{ℤ}
use ksqlite.Errors.{Exn, storage_error, rehydrate_error, sqlite_busy, sqlite_failure}
use ksqlite.Types.{TopicPartition}
use ksqlite.State
use ksqlite.Wire.{Classified, ksqlite_record, foreign, unknown_version, KsqliteRecord, classify}
use ksqlite.Schema.{Row, Statement, insert_record, checkpoint_upsert, owned_insert}
use ksqlite.World.{
  Env, Exec, ConsumerRecord, pure, raise, gets, call, catch, modify, on_machine, ◌>>=◌, ◌>>◌,
}
use ksqlite.Pool.{run_statement, transact, checkout, select_checkpoint}
use ksqlite.Topics.{TopicsConfig}

-- The operating parameters of the service; times in milliseconds.
pub record Settings : Type 0 where
  pub topics : TopicsConfig
  pub busy_timeout : ℕ
  pub rehydrate_timeout : ℕ

-- `_get_consumer`: the client is kept only once it has started.
unfoldable pub get_consumer : Env → Exec (Unit {0})
get_consumer env = do
  started ← gets (λ w. w.consumer)
  if started
      then pure tt
      else (do call env.consumer_start; modify (λ w. record w { consumer = true }))

-- `_execute_in_txn`
unfoldable pub execute_in_txn : Env → Settings → Statement → Exec (Unit {0})
execute_in_txn env cfg s = transact env cfg.busy_timeout (run_statement env s)

abbrev pub is_sqlite_error : Exn → Bool
is_sqlite_error sqlite_busy = true
is_sqlite_error sqlite_failure = true
is_sqlite_error _ = false

-- `_read_checkpoint`
unfoldable pub read_checkpoint : Env → TopicPartition → Exec (Option ℤ)
read_checkpoint env tp =
    catch (do checkout env; select_checkpoint env tp)
      (λ e. raise (if is_sqlite_error e then storage_error else e))

-- `_reveal`
unfoldable pub reveal : Env → Settings → TopicPartition → Exec (Unit {0})
unfolding execute_in_txn
reveal env cfg tp = execute_in_txn env cfg (owned_insert tp)

-- `_force_stop`
unfoldable pub force_stop : Env → Settings → TopicPartition → Exec (Unit {0})
force_stop env cfg tp = do on_machine (State.mark_ready_partial tp); reveal env cfg tp

-- The row that a replayed record is inserted as.
abbrev pub row_of : TopicPartition → ℤ → KsqliteRecord → Row
row_of tp offset r = record {
  message_id = r.message_id;
  source = tp;
  changelog_offset = offset;
  entity_key = r.entity_key;
  payload = r.payload;
}

-- What the loop of `work` does with a record, by what it is taken for.
unfoldable pub replay_classified : Env → TopicPartition → ℤ → Classified → Exec (Unit {0})
replay_classified env tp offset (foreign reason) = pure tt
replay_classified env tp offset (unknown_version id version) = raise rehydrate_error
replay_classified env tp offset (ksqlite_record decoded) =
    run_statement env (insert_record (row_of tp offset decoded))

-- The body of `work`'s loop for one record.
unfoldable pub replay_record : Env → TopicPartition → ConsumerRecord → Exec (Unit {0})
unfolding replay_classified
replay_record env tp r =
    replay_classified env tp r.offset (classify env.parsers r.key r.value r.headers)

unfoldable pub replay_records : Env → TopicPartition → List ConsumerRecord → Exec (Unit {0})
unfolding replay_record
replay_records env tp [] = pure tt
replay_records env tp (r ∷ rs) = replay_record env tp r >> replay_records env tp rs

-- `records[-1].offset` of the list `r ∷ rs`
abbrev pub last_offset : ConsumerRecord → List ConsumerRecord → ℤ
last_offset r [] = r.offset
last_offset r (s ∷ rs) = last_offset s rs

-- `work` of `_materialize_batch`: the inserts, and one checkpoint upsert for the batch.
unfoldable pub batch_work : Env → TopicPartition → List ConsumerRecord → ℤ → Exec (Unit {0})
unfolding replay_records
batch_work env tp records batch_max_offset = do
  replay_records env tp records
  run_statement env (checkpoint_upsert tp batch_max_offset)

-- `_materialize_batch`, of the list `r ∷ rs`
unfoldable pub materialize_batch :
    Env → Settings → TopicPartition → ConsumerRecord → List ConsumerRecord → Exec (Unit {0})
materialize_batch env cfg tp r rs = do
  transact env cfg.busy_timeout (batch_work env tp (r ∷ rs) (last_offset r rs))
  on_machine (State.record_applied tp (last_offset r rs))
