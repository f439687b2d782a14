-- ===== src/History/Covered.antt =====
-- _store.py, the public methods: what the database has of the changelogs in every history of a host's
-- calls, and what a later assignment finds of an append.
use ksqlite.Prelude.{
  ℕ, suc, ◌≡◌, refl, sym, ap, ◌∙◌, ◌⊎◌, inl, inr, true, Option, none, some, List, [], ◌∷◌,
}
use mathlib.Core.Path.{subst}
use ksqlite.Prelude.Int.{ℤ, ◌≤ℤ◌}
use ksqlite.Errors.{Result, ok, err, value_error}
use ksqlite.Text.{Text}
use ksqlite.Text.Utf8.{decode}
use ksqlite.Text.Utf8.Roundtrip.{IsText}
use ksqlite.Types.{TopicPartition, ready}
use ksqlite.State.{status_of}
use ksqlite.Wire.{Payload, EncodedRecord, encode_record, serialize_payload}
use ksqlite.Wire.Roundtrip.{classify-encode_record}
use ksqlite.Schema.{
  Statement, execute_statement, Db, has_id, is_owned, checkpoint_of, insert_record,
  checkpoint_upsert,
}
use ksqlite.Schema.Frame.{IsFor, Within, Within-preorder, statement-Within}
use ksqlite.World.{Env, World, ConsumerRecord, next, pure, ◌>>=◌}
use ksqlite.Topics.{changelog_name}
use ksqlite.Batches.{Settings}
use ksqlite.Batches.Covered.{IsHonest, Covered, Stored}
use ksqlite.Batches.Effect.{Through, Through-err, Through-bind, Atomic-Related}
use ksqlite.Lifecycle.{on_partitions_assigned}
use ksqlite.Lifecycle.Assigned.{assigned-Covered}
use ksqlite.Lifecycle.Everywhere.{AllCovered, across}
use ksqlite.Lifecycle.Opened.{assigned-Opened}
use ksqlite.Lifecycle.Revoked.{Hiding, on_partitions_revoked-Revoked}
use ksqlite.Replay.Covered.{LogEnd}
use ksqlite.Read.{query_into}
use ksqlite.Read.Readonly.{Same, query_into-Same}
use ksqlite.Store.Run.{Store, ensure_running}
use ksqlite.Write.{append, row_for}
use ksqlite.Write.Effect.{
  Appended, Acknowledged, append-Appended, append_effect, decoded_effect, materialize_effect,
}
use ksqlite.Write.Replayed.{acknowledged}
use ksqlite.Write.Covered.{LeavesNoGap, NewIdsAreUuids, append-Covered, serialized-encode_record}
use ksqlite.History.{
  Call, assigned, revoked, appended, queried, delegated, guarded, run_call, run_calls,
}

-- Kafka serves the changelog of every partition as it says.
abbrev pub AllHonest : Env → Settings → (TopicPartition → ConsumerRecord → Type 0) → Type 0
AllHonest env cfg holds =
    (tp : TopicPartition) (name : Text)
    → changelog_name env cfg.topics tp ≡ ok name
    → IsHonest env name (holds tp)

-- An append is of texts, to a changelog whose records up to it are stored (`LeavesNoGap`).
abbrev pub IsOrderly : Env → (TopicPartition → ConsumerRecord → Type 0) → Call → World → Type 0
IsOrderly env holds (appended source key payload) w =
    IsText key
    × ((text : Text) → serialize_payload env.parsers payload ≡ ok text → IsText text)
    × LeavesNoGap env key payload (holds source) w
IsOrderly env holds _ w = Unit

-- Every append of a history is so at the world in which it is made.
abbrev pub AreOrderly :
    Env
    → Settings
    → (TopicPartition → ConsumerRecord → Type 0)
    → List (Store × Call)
    → World
    → Type 0
AreOrderly env cfg holds [] w = Unit
AreOrderly env cfg holds ((store, c) ∷ cs) w =
    IsOrderly env holds c w × AreOrderly env cfg holds cs (run_call env cfg store c w).1

module _ (env : Env) (cfg : Settings) (holds : TopicPartition → ConsumerRecord → Type 0)
    (honest : AllHonest env cfg holds) (ids : NewIdsAreUuids env) where
  abbrev AllAt : Db → Type 0
  AllAt = AllCovered env cfg holds

  decoded_effect-Within :
      (source : TopicPartition) (id key : Text) (offset : ℤ) (o : Option Text)
      → Through (Within source) (decoded_effect env (row_for source id key offset) o)
  unfolding decoded_effect materialize_effect
  decoded_effect-Within source id key offset none = Through-err (Within-preorder source) value_error
  decoded_effect-Within source id key offset (some text) =
      Through-bind (Within-preorder source)
        (within (insert_record (row_for source id key offset text)) refl)
        (within (checkpoint_upsert source offset) refl)
    where
      within :
          (s : Statement) → IsFor source s → Through (Within source) (execute_statement env.json s)
      within s f = record { step = λ d d' h. statement-Within env.json source s d d' f h }

  append-All :
      (source : TopicPartition) (key : Text) (payload : Payload) (w : World)
      → IsOrderly env holds (appended source key payload) w
      → AllAt w.db
      → AllAt (append env cfg source key payload w).1.db
  unfolding append_effect
  append-All source key payload w (hk, ht, no_gap) all =
      by_end (append env cfg source key payload w) (append-Appended env cfg source key payload w)
        (append-Covered env cfg source key payload (holds source) w ids hk ht no_gap (all source))
    where
      by_end :
          (x : Result (Unit {0}) × World)
          → Appended env cfg source key payload w x
          → Covered env source (holds source) x.1.db
          → AllAt x.1.db
      by_end x (inl (failed, same, still)) own = subst AllAt (sym same) all
      by_end x (inr (encoded, topic, offset, is_encoded, is_topic, ack, atomic, memory)) own =
          across env cfg holds source w.db x.1.db
            (Atomic-Related (Within-preorder source) _ w.db x.1.db x.0
              (decoded_effect-Within source (env.new_message_id w.calls) key offset
                (decode encoded.value))
              atomic)
            own all

  -- What moves no row and no checkpoint keeps all covered.
  hidden-All : (d d' : Db) → Hiding d d' → AllAt d → AllAt d'
  hidden-All d d' (rows, points, owned) all q x c held at_c le k e =
      ap (has_id k.message_id) rows
      ∙ all q x c held (ap (checkpoint_of q) (sym points) ∙ at_c) le k e

  delegated-All :
      (c : Call) (w : World)
      → IsOrderly env holds c w
      → AllAt w.db
      → AllAt (delegated env cfg c w).1.db
  unfolding ◌>>=◌
  delegated-All (assigned fuel tps) w orderly all =
      λ q. assigned-Covered env cfg fuel tps holds w q honest all
  delegated-All (revoked tps) w orderly all =
      hidden-All w.db _ (on_partitions_revoked-Revoked env cfg tps w).0 all
  delegated-All (appended source key payload) w orderly all =
      append-All source key payload w orderly all
  delegated-All (queried sql into) w orderly all =
      dropped (query_into env sql into w) (query_into-Same env sql into w)
    where
      dropped : (x : Result (List Text) × World) → Same w x.1 → AllAt (next x (λ _. pure tt)).1.db
      dropped (ok rows, w1) (same, still) = subst AllAt (sym same) all
      dropped (err e, w1) (same, still) = subst AllAt (sym same) all

  call-All :
      (store : Store) (c : Call) (w : World)
      → IsOrderly env holds c w
      → AllAt w.db
      → AllAt (run_call env cfg store c w).1.db
  unfolding run_call
  call-All store c w orderly all = by_guard (ensure_running store)
    where
      by_guard : (r : Result (Unit {0})) → AllAt (guarded r (delegated env cfg c) w).1.db
      by_guard (ok u) = delegated-All c w orderly all
      by_guard (err e) = all

pub run_calls-Covered :
    (env : Env) (cfg : Settings) (holds : TopicPartition → ConsumerRecord → Type 0)
    (cs : List (Store × Call)) (w : World)
    → AllHonest env cfg holds
    → NewIdsAreUuids env
    → AreOrderly env cfg holds cs w
    → ((q : TopicPartition) → Covered env q (holds q) w.db)
    → (q : TopicPartition) → Covered env q (holds q) (run_calls env cfg cs w).db
unfolding run_calls
run_calls-Covered env cfg holds [] w honest ids orderly all = all
run_calls-Covered env cfg holds ((store, c) ∷ cs) w honest ids (first, rest) all =
    run_calls-Covered env cfg holds cs (run_call env cfg store c w).1 honest ids rest
      (call-All env cfg holds honest ids store c w first all)

-- The record of an append under its own id.
id_there :
    (env : Env) (key : Text) (payload : Payload) (id : Text) (encoded : EncodedRecord) (offset : ℤ)
    (d : Db)
    → IsText key
    → ((text : Text) → serialize_payload env.parsers payload ≡ ok text → IsText text)
    → IsText id
    → env.parsers.is_uuid id ≡ true
    → encode_record env.parsers key payload id ≡ ok encoded
    → Stored env d (acknowledged encoded offset)
    → has_id id d.records ≡ true
id_there env key payload id encoded offset d hk ht hid uuid is_encoded stored =
    let (text, es) = serialized-encode_record env.parsers key id payload encoded is_encoded in
    stored (record { message_id = id; entity_key = key; payload = text })
      (classify-encode_record env.parsers key text id payload encoded hk (ht text es) hid uuid es
        is_encoded)

-- Kafka's promise for `acks=all`: the record that it acknowledges to this append is in the changelog.
abbrev pub KeepsAcknowledged :
    Env → Settings → TopicPartition → EncodedRecord → (ConsumerRecord → Type 0) → World → Type 0
KeepsAcknowledged env cfg source encoded holds w =
    (topic : Text) (offset : ℤ)
    → changelog_name env cfg.topics source ≡ ok topic
    → Acknowledged env (suc w.calls) topic encoded offset
    → holds (acknowledged encoded offset)

-- As long as Kafka serves the changelogs as it says and new ids are UUIDs, and from a database that has,
-- of each changelog, every record up to the stored checkpoint: an append of texts, whose record Kafka
-- has acknowledged, and so keeps in the changelog, is not lost, whatever became of its own local write,
-- provided that this append and every later one of the history are of texts and leave no gap: when the
-- record of such an append is acknowledged, every other record that its changelog holds up to its
-- offset is stored (`LeavesNoGap`). So, where a local write has failed, the partition has no later
-- acknowledged append until a rehydrate has stored the record. Then, after any further history, when
-- an assignment of the append's partition returns and the partition is READY, a log end is cached, and
-- the row with the id of the append is in the database, or that log end is not above its offset.
pub append-Durable :
    (env : Env) (cfg : Settings) (holds : TopicPartition → ConsumerRecord → Type 0)
    (source : TopicPartition) (key : Text) (payload : Payload) (encoded : EncodedRecord)
    (topic : Text) (offset : ℤ) (cs : List (Store × Call)) (fuel : ℕ) (tps : List TopicPartition)
    (w w' : World)
    → AllHonest env cfg holds
    → NewIdsAreUuids env
    → ((q : TopicPartition) → Covered env q (holds q) w.db)
    → IsOrderly env holds (appended source key payload) w
    → encode_record env.parsers key payload (env.new_message_id w.calls) ≡ ok encoded
    → Acknowledged env (suc w.calls) topic encoded offset
    → changelog_name env cfg.topics source ≡ ok topic
    → KeepsAcknowledged env cfg source encoded (holds source) w
    → AreOrderly env cfg holds cs (append env cfg source key payload w).1
    → on_partitions_assigned env cfg fuel tps
        (run_calls env cfg cs (append env cfg source key payload w).1)
      ≡ (ok tt, w')
    → is_owned source tps ≡ true
    → status_of source w'.machine ≡ some ready
    → (leo : ℤ) × LogEnd source leo w'
      × ((has_id (env.new_message_id w.calls) w'.db.records ≡ true) ⊎ (leo ≤ℤ offset))
append-Durable env cfg holds source key payload encoded topic offset cs fuel tps w w' honest ids all
      (hk, ht, no_gap) is_encoded ack is_topic keeps orderly returned listed is_ready =
    let (leo, cached, pending) =
      (assigned-Opened env cfg fuel tps holds _ w' source honest
          (run_calls-Covered env cfg holds cs _ honest ids orderly
            (append-All env cfg holds honest ids source key payload w (hk, ht, no_gap) all))
          returned listed).1
        is_ready in
    (
      leo,
      cached,
      elim (pending (acknowledged encoded offset) (keeps topic offset is_topic ack)) [
        | inl stored ↦ inl (
            id_there env key payload (env.new_message_id w.calls) encoded offset w'.db hk ht
              (ids w.calls).0 (ids w.calls).1 is_encoded stored)
        | inr behind ↦ inr behind
      ],
    )
