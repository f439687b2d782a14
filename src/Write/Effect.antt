-- ===== src/Write/Effect.antt =====
-- What an append has done by its end.
use ksqlite.Prelude.{
  ℕ, suc, ◌≡◌, ◌≢◌, refl, ap, sym, ◌∙◌, false, Option, none, some, ◌⊎◌, inl, inr, if◌then◌else◌,
  Bool-cases,
}
use mathlib.Core.Path.{subst}
use ksqlite.Prelude.Int.{ℤ, pos, ltb_ℤ}
use ksqlite.Errors.{Exn, Result, ok, err, value_error, changelog_produce_error}
use ksqlite.Errors
use ksqlite.Text.{Text}
use ksqlite.Text.Utf8.{decode}
use ksqlite.Types.{TopicPartition}
use ksqlite.State
use ksqlite.State.{Machine}
use ksqlite.Wire.{Payload, EncodedRecord, encode_record}
use ksqlite.Schema.{Row, Db, insert_record, checkpoint_upsert, execute_statement}
use ksqlite.World.{Env, World, Exec, next, pure, raise, lift, call, caught, on_machine, ◌>>=◌, ◌>>◌}
use ksqlite.Pool.{transact}
use ksqlite.Pool.Transaction.{Atomic}
use ksqlite.Pool.Work.{IsWork, IsWork-bind, IsWork-statement, IsWork-raise}
use ksqlite.Pool.Written.{Written, transact-Written}
use ksqlite.Topics.{changelog_name, is_kafka}
use ksqlite.Batches.{Settings}
use ksqlite.Write.{
  validate_entity_key, produce, apply_materialization, row_for, materialize, materialize_decoded,
  append,
}

-- The effect of a materialization on the database: the record and the checkpoint together.
unfoldable pub materialize_effect : Env → Row → Db → Result Db
materialize_effect env row d =
    Errors.◌>>=◌ (execute_statement env.json (insert_record row) d)
      (execute_statement env.json (checkpoint_upsert row.source row.changelog_offset))

unfoldable pub decoded_effect : Env → (Text → Row) → Option Text → Db → Result Db
unfolding materialize_effect
decoded_effect env row none d = err value_error
decoded_effect env row (some payload) d = materialize_effect env (row payload) d

unfoldable pub append_effect : Env → (Text → Row) → EncodedRecord → Db → Result Db
unfolding decoded_effect
append_effect env row encoded = decoded_effect env row (decode encoded.value)

decoded-IsWork :
    (env : Env) (row : Text → Row) (o : Option Text)
    → IsWork (decoded_effect env row o) (materialize_decoded env row o)
unfolding decoded_effect materialize_decoded apply_materialization materialize_effect
decoded-IsWork env row none = IsWork-raise value_error
decoded-IsWork env row (some payload) =
    IsWork-bind (IsWork-statement env (insert_record (row payload)))
      (IsWork-statement env (checkpoint_upsert (row payload).source (row payload).changelog_offset))

materialize-IsWork :
    (env : Env) (row : Text → Row) (encoded : EncodedRecord)
    → IsWork (append_effect env row encoded) (materialize env row encoded)
unfolding append_effect materialize
materialize-IsWork env row encoded = decoded-IsWork env row (decode encoded.value)

-- The memory after an append: the new checkpoint, if it returned.
abbrev pub noted : TopicPartition → ℤ → Result (Unit {0}) → Machine → Machine
noted source offset (ok _) m = State.record_applied source offset m
noted source offset (err e) m = m

-- The call number `n`, of `send_and_wait`, has acknowledged the record at the offset.
abbrev pub Acknowledged : Env → ℕ → Text → EncodedRecord → ℤ → Type 0
Acknowledged env n topic encoded offset =
    (env.send_and_wait n topic (some encoded.key) (some encoded.value) encoded.headers ≡ ok offset)
    × (ltb_ℤ offset (pos 0) ≡ false)

-- The database and the memory after an append: untouched where it failed before the changelog
-- acknowledged; otherwise the materialization of the acknowledged record, as a whole or not at all.
abbrev pub Appended :
    Env → Settings → TopicPartition → Text → Payload → World → Result (Unit {0}) × World → Type 0
Appended env cfg source key payload w (r, w') =
    ((r ≢ ok tt) × (w'.db ≡ w.db) × (w'.machine ≡ w.machine))
    ⊎ ((encoded : EncodedRecord) × (topic : Text) × (offset : ℤ) × (encode_record env.parsers key
            payload (env.new_message_id w.calls)
          ≡ ok encoded)
        × (changelog_name env cfg.topics source ≡ ok topic)
        × Acknowledged env (suc w.calls) topic encoded offset
        × Atomic
            (append_effect env (row_for source (env.new_message_id w.calls) key offset) encoded)
            w.db r w'.db
        × (w'.machine ≡ noted source offset r w.machine))

module _ (env : Env) (cfg : Settings) (source : TopicPartition) (key : Text) (payload : Payload)
    (w : World) where
  abbrev new_id : Text
  new_id = env.new_message_id w.calls

  abbrev Done : Result (Unit {0}) × World → Type 0
  Done x = Appended env cfg source key payload w x

  module _ (encoded : EncodedRecord)
      (is_encoded : encode_record env.parsers key payload new_id ≡ ok encoded) (topic : Text)
      (is_topic : changelog_name env cfg.topics source ≡ ok topic) where
    after_transact :
        (offset : ℤ) (k : ℕ) (x : Result (Unit {0}) × World)
        → Acknowledged env (suc w.calls) topic encoded offset
        → Written
            (append_effect env (row_for source new_id key offset) encoded)
            (record w { calls = k })
            x
        → Done (next x (λ _. on_machine (State.record_applied source offset)))
    after_transact offset k (ok u, w1) ack (k', c, d, same, le, atomic) = inr (
      encoded,
      topic,
      offset,
      is_encoded,
      is_topic,
      ack,
      atomic ∙ ap (λ x. ok x.db) (sym same),
      ap (λ x. State.record_applied source offset x.machine) same,
    )
    after_transact offset k (err e, w1) ack (k', c, d, same, le, atomic) = inr (
      encoded,
      topic,
      offset,
      is_encoded,
      is_topic,
      ack,
      subst
          (λ x.
            Atomic (append_effect env (row_for source new_id key offset) encoded) w.db (err e) x.db)
          (sym same) atomic,
      ap (λ x. x.machine) same,
    )

    abbrev rest : ℤ → Exec (Unit {0})
    rest offset = do
      transact env cfg.busy_timeout (materialize env (row_for source new_id key offset) encoded)
      on_machine (State.record_applied source offset)

    after_produce :
        (k : ℕ) (offset : ℤ)
        → Acknowledged env (suc w.calls) topic encoded offset
        → Done (rest offset (record w { calls = k }))
    unfolding ◌>>=◌
    after_produce k offset ack = after_transact offset k _ ack (
        transact-Written env cfg.busy_timeout (record w { calls = k })
          (materialize-IsWork env (row_for source new_id key offset) encoded))

    untouched : (k : ℕ) (e : Exn) → Done (err e, record w { calls = k })
    untouched k e = inl ((λ h. cc h), refl, refl)

    -- `produce` with what the call of `send_and_wait` has answered.
    after_send :
        (k : ℕ) (x : Result ℤ)
        → env.send_and_wait
            (suc w.calls)
            topic
            (some encoded.key)
            (some encoded.value)
            encoded.headers
          ≡ x
        → Done (
            next
              (next
                (caught
                  (x, record w { calls = k })
                  (λ e. raise (if is_kafka e then changelog_produce_error else e)))
                (λ offset.
                  if ltb_ℤ offset (pos 0) then raise changelog_produce_error else pure offset))
              rest)
    after_send k (err e) p = untouched k _
    after_send k (ok offset) p = elim (Bool-cases (ltb_ℤ offset (pos 0))) [
      | inl below ↦ rw below (untouched k changelog_produce_error)
      | inr fine ↦ rw fine (after_produce k offset (p, fine))
    ]

  named :
      (encoded : EncodedRecord) (x : Result Text)
      → encode_record env.parsers key payload new_id ≡ ok encoded
      → changelog_name env cfg.topics source ≡ x
      → Done (
          next
            (x, record w { calls = suc w.calls })
            (λ topic. do
              offset ← produce env topic encoded
              transact env cfg.busy_timeout
                  (materialize env (row_for source new_id key offset) encoded)
              on_machine (State.record_applied source offset)))
  unfolding produce ◌>>=◌
  named encoded (err e) pe p = inl ((λ h. cc h), refl, refl)
  named encoded (ok topic) pe p = after_send encoded pe topic p (suc (suc w.calls)) _ refl

  after_encode :
      (x : Result EncodedRecord)
      → encode_record env.parsers key payload new_id ≡ x
      → Done (
          next
            (x, record w { calls = suc w.calls })
            (λ encoded. do
              topic ← lift (changelog_name env cfg.topics source)
              offset ← produce env topic encoded
              transact env cfg.busy_timeout
                  (materialize env (row_for source new_id key offset) encoded)
              on_machine (State.record_applied source offset)))
  unfolding ◌>>=◌
  after_encode (err e) p = inl ((λ h. cc h), refl, refl)
  after_encode (ok encoded) p = named encoded _ p refl

  validated :
      (x : Result (Unit {0}))
      → Done (
          next
            (x, w)
            (λ _. do
              message_id ← call (λ n. ok (env.new_message_id n))
              encoded ← lift (encode_record env.parsers key payload message_id)
              topic ← lift (changelog_name env cfg.topics source)
              offset ← produce env topic encoded
              transact env cfg.busy_timeout
                  (materialize env (row_for source message_id key offset) encoded)
              on_machine (State.record_applied source offset)))
  unfolding ◌>>=◌
  validated (err e) = inl ((λ h. cc h), refl, refl)
  validated (ok u) = after_encode _ refl

  -- An append that fails before the changelog has acknowledged its record changes neither the
  -- database nor the memory. One that the changelog has acknowledged, at an offset that is not
  -- negative, materializes that very record and its checkpoint together or neither (either of the
  -- two where the task is cancelled), and moves the checkpoint in memory only if it returns.
  pub append-Appended : Appended env cfg source key payload w (append env cfg source key payload w)
  unfolding append ◌>>=◌
  append-Appended = validated (validate_entity_key key)
