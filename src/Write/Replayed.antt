-- ===== src/Write/Replayed.antt =====
-- The record that an append has written, met again by a replay.
use ksqlite.Prelude.{◌≡◌, refl, sym, ap, ◌∙◌, true, some, [], ◌∷◌}
use ksqlite.Prelude.Int.{ℤ}
use ksqlite.Schema.Ids.{insert_record-stores}
use ksqlite.Errors.{ok, ok_injective, parts_of-ok}
use ksqlite.Text.{Text}
use ksqlite.Text.Utf8.Roundtrip.{IsText}
use ksqlite.Types.{TopicPartition}
use ksqlite.Wire.{Payload, EncodedRecord, encode_record, serialize_payload}
use ksqlite.Wire.Roundtrip.{classify-encode_record, decode-encode_record}
use ksqlite.Schema.{Row, Db, has_id, insert_record, checkpoint_upsert, execute_statement}
use ksqlite.World.{Env, ConsumerRecord}
use ksqlite.Batches.Again.{stored_again}
use ksqlite.Batches.Effect.{replay_effect}
use ksqlite.Write.{row_for}
use ksqlite.Write.Effect.{materialize_effect, decoded_effect, append_effect}

-- The record as the changelog holds it.
abbrev pub acknowledged : EncodedRecord → ℤ → ConsumerRecord
acknowledged encoded offset = record {
  offset = offset;
  key = some encoded.key;
  value = some encoded.value;
  headers = encoded.headers;
}

-- Materializing a row a second time inserts nothing.
materialized-again :
    (env : Env) (row : Row) (d d' : Db)
    → materialize_effect env row d ≡ ok d'
    → execute_statement env.json (insert_record row) d' ≡ ok d'
unfolding materialize_effect execute_statement
materialized-again env row d d' h =
    let (d1, ran, moved) =
      parts_of-ok (execute_statement env.json (insert_record row) d)
        (execute_statement env.json (checkpoint_upsert row.source row.changelog_offset)) h in
    stored_again env.json row d' d d1 ran (
      ap (λ x. has_id row.message_id x.records) (sym (ok_injective moved))
      ∙ (insert_record-stores env.json row d d1 ran).0)

-- Where an append has materialized its record, a replay of that record, as the changelog holds it,
-- leaves the database as it is.
pub replay_effect-append :
    (env : Env) (source : TopicPartition) (key text id : Text) (payload : Payload)
    (encoded : EncodedRecord) (offset : ℤ) (d d' : Db)
    → IsText key
    → IsText text
    → IsText id
    → env.parsers.is_uuid id ≡ true
    → serialize_payload env.parsers payload ≡ ok text
    → encode_record env.parsers key payload id ≡ ok encoded
    → append_effect env (row_for source id key offset) encoded d ≡ ok d'
    → replay_effect env source (acknowledged encoded offset ∷ []) d' ≡ ok d'
unfolding replay_effect append_effect decoded_effect
replay_effect-append env source key text id payload encoded offset d d' hk ht hid uuid es ee h =
    rw (classify-encode_record env.parsers key text id payload encoded hk ht hid uuid es ee) (
      rw
        (materialized-again env (row_for source id key offset text) d d'
          (rw (decode-encode_record env.parsers key text id payload encoded ht es ee) at h))
        refl)
