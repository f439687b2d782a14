-- ===== src/Write/Covered.antt =====
-- _write.py, `append`, to a changelog that its owner has caught up with.
use ksqlite.Prelude.{ℕ, suc, ◌≡◌, sym, ◌∙◌, ◌⊎◌, inl, inr, true, [], ◌∷◌}
use mathlib.Core.Path.{subst}
use ksqlite.Prelude.Int.{ℤ, ◌≤ℤ◌}
use ksqlite.Errors.{Result, ok, parts_of-ok}
use ksqlite.Text.{Text}
use ksqlite.Text.Utf8.Roundtrip.{IsText}
use ksqlite.Types.{TopicPartition}
use ksqlite.Wire.{Parsers, Payload, EncodedRecord, encode_record, serialize_payload}
use ksqlite.Schema.{Db}
use ksqlite.World.{Env, World, ConsumerRecord}
use ksqlite.Batches.{Settings}
use ksqlite.Batches.Covered.{Stored, Covered, batch-Covered}
use ksqlite.Replay.Covered.{Atomic-keeps}
use ksqlite.Write.{append, row_for}
use ksqlite.Write.Effect.{Appended, Acknowledged, append-Appended, append_effect}
use ksqlite.Write.Replayed.{acknowledged}
use ksqlite.Write.Equal.{append_effect-batch}

-- Where the record of this append is acknowledged, every other record that the changelog holds up to
-- its offset is stored: no other writer's record and no own one whose local write has failed is missing.
abbrev pub LeavesNoGap : Env → Text → Payload → (ConsumerRecord → Type 0) → World → Type 0
LeavesNoGap env key payload holds w =
    (encoded : EncodedRecord) (topic : Text) (offset : ℤ) (x : ConsumerRecord)
    → encode_record env.parsers key payload (env.new_message_id w.calls) ≡ ok encoded
    → Acknowledged env (suc w.calls) topic encoded offset
    → holds x
    → x.offset ≤ℤ offset
    → Stored env w.db x ⊎ (x ≡ acknowledged encoded offset)

-- New ids are UUIDs, as texts.
abbrev pub NewIdsAreUuids : Env → Type 0
NewIdsAreUuids env =
    (m : ℕ) → IsText (env.new_message_id m) × (env.parsers.is_uuid (env.new_message_id m) ≡ true)

-- What was encoded has been serialized.
pub serialized-encode_record :
    (ps : Parsers) (key id : Text) (payload : Payload) (encoded : EncodedRecord)
    → encode_record ps key payload id ≡ ok encoded
    → (text : Text) × (serialize_payload ps payload ≡ ok text)
unfolding encode_record
serialized-encode_record ps key id payload encoded h =
    let (text, es, rest) = parts_of-ok (serialize_payload ps payload) _ h in (text, es)

-- Where every other record that the changelog holds up to the offset of the new one is stored when
-- that is acknowledged (`LeavesNoGap`), an append, however it ends, keeps every record up to the stored
-- checkpoint in the database: the checkpoint never passes a record that is missing. The key and the
-- serialized payload, if it can be serialized, are texts, and new ids are UUIDs.
pub append-Covered :
    (env : Env) (cfg : Settings) (source : TopicPartition) (key : Text) (payload : Payload)
    (holds : ConsumerRecord → Type 0) (w : World)
    → NewIdsAreUuids env
    → IsText key
    → ((text : Text) → serialize_payload env.parsers payload ≡ ok text → IsText text)
    → LeavesNoGap env key payload holds w
    → Covered env source holds w.db
    → Covered env source holds (append env cfg source key payload w).1.db
append-Covered env cfg source key payload holds w ids hk ht no_gap covered =
    by_end (append env cfg source key payload w) (append-Appended env cfg source key payload w)
  where
    new_id : Text
    new_id = env.new_message_id w.calls

    materialized :
        (encoded : EncodedRecord) (topic : Text) (offset : ℤ)
        → encode_record env.parsers key payload new_id ≡ ok encoded
        → Acknowledged env (suc w.calls) topic encoded offset
        → (d : Db) → append_effect env (row_for source new_id key offset) encoded w.db ≡ ok d
        → Covered env source holds d
    materialized encoded topic offset is_encoded ack d ran =
        let (text, es) =
          serialized-encode_record env.parsers key new_id payload encoded is_encoded in
        (batch-Covered env source holds (acknowledged encoded offset ∷ []) offset w.db d
          (sym (
              append_effect-batch env source key text new_id payload encoded offset w.db hk
                (ht text es) (ids w.calls).0 (ids w.calls).1 es is_encoded)
            ∙ ran)
          (λ x held le. elim (no_gap encoded topic offset x is_encoded ack held le) [
            | inl stored ↦ inl stored
            | inr new ↦ inr (inl new)
          ])
          covered).0

    by_end :
        (x : Result (Unit {0}) × World)
        → Appended env cfg source key payload w x
        → Covered env source holds x.1.db
    by_end x (inl (failed, same, still)) = subst (Covered env source holds) (sym same) covered
    by_end x (inr (encoded, topic, offset, is_encoded, is_topic, ack, atomic, memory)) =
        Atomic-keeps (Covered env source holds)
          (append_effect env (row_for source new_id key offset) encoded) w.db x.1.db x.0 atomic
          covered (materialized encoded topic offset is_encoded ack)
