-- ===== src/Write/Equal.antt =====
-- _write.py and _lifecycle.py: what an append and a replay do to the database.
use ksqlite.Prelude.{◌≡◌, refl, true, [], ◌∷◌}
use ksqlite.Prelude.Int.{ℤ}
use ksqlite.Errors.{Result, ok, err, ◌>>=◌}
use ksqlite.Text.{Text}
use ksqlite.Text.Utf8.Roundtrip.{IsText}
use ksqlite.Types.{TopicPartition}
use ksqlite.Wire.{Payload, EncodedRecord, encode_record, serialize_payload}
use ksqlite.Wire.Roundtrip.{classify-encode_record, decode-encode_record}
use ksqlite.Schema.{Db, insert_record, checkpoint_upsert, execute_statement}
use ksqlite.World.{Env}
use ksqlite.Batches.Effect.{replay_effect, batch_effect}
use ksqlite.Write.{row_for}
use ksqlite.Write.Effect.{materialize_effect, decoded_effect, append_effect}
use ksqlite.Write.Replayed.{acknowledged}

through_ok : (r : Result Db) (f : Db → Result Db) → (r >>= f) ≡ ((r >>= λ d. ok d) >>= f)
through_ok (err e) f = refl
through_ok (ok d) f = refl

-- An append does to the database, with the record that the changelog has acknowledged, exactly what
-- the replay of a batch of that one record does, in its failures too; the key, the serialized payload
-- and the id are texts, and the id is a UUID.
pub append_effect-batch :
    (env : Env) (source : TopicPartition) (key text id : Text) (payload : Payload)
    (encoded : EncodedRecord) (offset : ℤ) (d : Db)
    → IsText key
    → IsText text
    → IsText id
    → env.parsers.is_uuid id ≡ true
    → serialize_payload env.parsers payload ≡ ok text
    → encode_record env.parsers key payload id ≡ ok encoded
    → append_effect env (row_for source id key offset) encoded d
      ≡ batch_effect env source (acknowledged encoded offset ∷ []) offset d
unfolding replay_effect batch_effect append_effect decoded_effect materialize_effect
append_effect-batch env source key text id payload encoded offset d hk ht hid uuid es ee =
    rw (classify-encode_record env.parsers key text id payload encoded hk ht hid uuid es ee) (
      rw (decode-encode_record env.parsers key text id payload encoded ht es ee) (
        through_ok
          (execute_statement env.json (insert_record (row_for source id key offset text)) d)
          (execute_statement env.json (checkpoint_upsert source offset))))
