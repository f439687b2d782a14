-- ===== src/Write.antt =====
-- _write.py, class Appender. The log lines are left out.
pub mod Effect
pub mod Replayed
pub mod Equal
pub mod Covered
use ksqlite.Prelude.{Option, none, some, [], ◌∷◌, if◌then◌else◌}
use ksqlite.Prelude.Int.{ℤ, pos, ltb_ℤ}
use ksqlite.Errors.{Result, ok, err, value_error, changelog_produce_error}
use ksqlite.Text.{Text}
use ksqlite.Text.Utf8.{encode, decode}
use ksqlite.Types.{TopicPartition}
use ksqlite.State
use ksqlite.Wire.{Payload, EncodedRecord, encode_record}
use ksqlite.Schema.{Row, insert_record, checkpoint_upsert}
use ksqlite.World.{Env, Exec, pure, raise, lift, call, catch, on_machine, ◌>>=◌, ◌>>◌}
use ksqlite.Pool.{run_statement, transact}
use ksqlite.Topics.{is_kafka, changelog_name}
use ksqlite.Batches.{Settings}

-- A key that is no `str` does not arise: `entity_key` is typed.
unfoldable pub validate_entity_key : Text → Result (Unit {0})
validate_entity_key [] = err value_error
validate_entity_key (c ∷ s) = elim (encode (c ∷ s)) [ none ↦ err value_error | some _ ↦ ok tt ]

-- `send_and_wait`, and the two ways in which a produce fails.
unfoldable pub produce : Env → Text → EncodedRecord → Exec ℤ
produce env topic encoded = do
  offset ←
      catch
        (call
          (λ n. env.send_and_wait n topic (some encoded.key) (some encoded.value) encoded.headers))
        (λ e. raise (if is_kafka e then changelog_produce_error else e))
  if ltb_ℤ offset (pos 0) then raise changelog_produce_error else pure offset

-- _schema.py `apply_materialization`: the insert and the checkpoint upsert.
unfoldable pub apply_materialization : Env → Row → Exec (Unit {0})
apply_materialization env row = do
  run_statement env (insert_record row)
  run_statement env (checkpoint_upsert row.source row.changelog_offset)

-- The row of an append, but for its payload.
abbrev pub row_for : TopicPartition → Text → Text → ℤ → Text → Row
row_for source message_id entity_key offset payload = record {
  message_id = message_id;
  source = source;
  changelog_offset = offset;
  entity_key = entity_key;
  payload = payload;
}

-- `materialize`, by the outcome of its `encoded.value.decode("utf-8")`.
unfoldable pub materialize_decoded : Env → (Text → Row) → Option Text → Exec (Unit {0})
materialize_decoded env row none = raise value_error
materialize_decoded env row (some payload) = apply_materialization env (row payload)

unfoldable pub materialize : Env → (Text → Row) → EncodedRecord → Exec (Unit {0})
unfolding materialize_decoded
materialize env row encoded = materialize_decoded env row (decode encoded.value)

-- Appender.append
unfoldable pub append : Env → Settings → TopicPartition → Text → Payload → Exec (Unit {0})
append env cfg source entity_key payload = do
  lift (validate_entity_key entity_key)
  message_id ← call (λ n. ok (env.new_message_id n))
  encoded ← lift (encode_record env.parsers entity_key payload message_id)
  topic ← lift (changelog_name env cfg.topics source)
  offset ← produce env topic encoded
  transact env cfg.busy_timeout
      (materialize env (row_for source message_id entity_key offset) encoded)
  on_machine (State.record_applied source offset)
