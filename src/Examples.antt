-- ===== src/Examples.antt =====
-- The theorems at concrete inputs: one partition with one record in its changelog.
mod Durable
mod Lossless
mod Ready
mod Replays
mod Startup
use ksqlite.Prelude.{
  ◌≡◌, ◌≢◌, refl, true, false, none, some, [], ◌∷◌, ◌++◌, arith, ◌↔◌, if◌then◌else◌,
}
use ksqlite.Prelude.Int.{pos}
use ksqlite.Errors.{Result, ok, err, kafka_error}
use ksqlite.Text.{Text, codes, text_eq}
use ksqlite.Text.Utf8.{encode, decode, encode_char}
use ksqlite.Types.{TopicPartition, standby}
use ksqlite.State.{Entry, init}
use ksqlite.Wire.{str, EncodedRecord, ksqlite_record, encode_record, classify, serialize_payload}
use ksqlite.Wire.Roundtrip.{classify-encode_record}
use ksqlite.Schema.{Db, Row, checkpoint_of, checkpoint_upsert, execute_statement}
use ksqlite.Sql.{escape_string_literal}
use ksqlite.Sql.Literal.{read_literal, read_literal-escape}
use ksqlite.World.{Conn, Env, World, ConsumerRecord, beginning, handed, done, ◌>>=◌}
use ksqlite.Batches.{Settings, get_consumer, read_checkpoint}
use ksqlite.Pool.{
  select_checkpoint, execute, take_connection, reset_transaction, run, checkout, transact,
  run_statement,
}
use ksqlite.Pool.Transaction.{Transacted, run-Transacted}
use ksqlite.Pool.Work.{IsWork-statement}
use ksqlite.Pool.Written.{Written, CheckedOut, checkout-CheckedOut, transact-Written}
use ksqlite.Pool.Errors.{is_mapped_end, run-Only, Only-run_statement}
use ksqlite.Write.{append}
use ksqlite.Write.Effect.{Appended, append-Appended}
use ksqlite.Replay.{replay, unfinished}
use ksqlite.Replay.Termination.{replay-Ends}
use ksqlite.Lifecycle.{rehydrate_one, on_partitions_assigned, replay_from}
use ksqlite.State
use ksqlite.Topics.{changelog_name}
use ksqlite.Topics.Names.{IsTopicName, changelog_name_iff}
use ksqlite.Schema.Keys.{IsKeyed}
use ksqlite.History.{appended, assigned, run_calls, run_calls-IsKeyed}
use ksqlite.Store.Run.{running}
use ksqlite.Lifecycle.Hidden.{rehydrate_one-Hides}
use ksqlite.Lifecycle.Frame.{Outside, assigned-Outside}
use ksqlite.World.Only.{Only}
use ksqlite.Store.{other, string, find, merged_consumer_kwargs, pinned_consumer_keys}
use ksqlite.Read.{Target, model, change, query_into}
use ksqlite.Read.Readonly.{Same, query_into-Same}
use ksqlite.Batches.{reveal, execute_in_txn}
use ksqlite.Pool.{dml, retry, attempt, begin_immediate, commit}
use ksqlite.Replay.{round}
use ksqlite.Lifecycle.{finish, seek_start}
use ksqlite.Lifecycle.Shown.{Shown, rehydrate_one-Shown}
use ksqlite.Write.{row_for}
use ksqlite.Write.Effect.{append_effect, decoded_effect, materialize_effect}
use ksqlite.Write.Replayed.{acknowledged, replay_effect-append}
use ksqlite.Batches.Effect.{replay_effect}
use ksqlite.Lifecycle.{on_partitions_revoked}
use ksqlite.Lifecycle.Revoked.{Revoked, on_partitions_revoked-Revoked}
use ksqlite.Store.Kwargs.{or_else, find_last, find-merged_consumer_kwargs}
use ksqlite.Store.Run.{
  Store, stopping, start_enter, start_exit, append_enter, ensure_running, stop_enter, Steps, here,
  then_step, starts, started, appends, stops, fresh, IsSoundStore, steps-IsSoundStore,
}

abbrev tp : TopicPartition
tp = record { topic = codes "t"; partition = 0 }

abbrev name : Text
name = codes "t.p0.changelog"

abbrev clean_conn : Conn
clean_conn = record { pending = none; query_only = false; row_factory = false }

-- A connection that was given back inside a read-only transaction.
abbrev dirty_conn : Conn
dirty_conn = record {
  pending = some (record { records = []; checkpoints = []; owned = [] });
  query_only = true;
  row_factory = true;
}

abbrev first_record : ConsumerRecord
first_record = record {
  offset = pos 0;
  key = some (codes "k");
  value = some (codes "{}");
  headers =
      (codes "format_version", some (codes "1")) ∷ (codes "message_id", some (codes "m")) ∷ [];
}

abbrev env : Env
env = record {
  parsers = record { is_uuid = λ t. true; is_json = λ t. true };
  json = λ t. some t;
  clock = λ n. n;
  sleep = λ n ms. false;
  checkout = λ n. handed dirty_conn;
  statement = λ n. done;
  consumer_start = λ n. ok tt;
  end_offset = λ n t. ok (pos 1);
  beginning_offset = λ n t. ok (pos 0);
  seek_to_beginning = λ n t. ok tt;
  getmany = λ n t c. ok (first_record ∷ []);
  send_and_wait = λ n t k v hs. ok (pos 0);
  new_message_id = λ n. codes "m";
  list_topics = λ n. ok (name ∷ []);
  create_topics = λ n t r. ok [];
  describe_configs = λ n t. ok [];
  format = λ template topic partition. ok name;
}

abbrev cfg : Settings
cfg = record {
  topics = record {
    template = codes "{source_topic}.p{partition}.changelog";
    create_topics_retention_ms = none;
    verify_changelog_policy = true;
  };
  busy_timeout = 5000;
  rehydrate_timeout = 30000;
}

abbrev world : World
world = record {
  db = record { records = []; checkpoints = []; owned = [] };
  conn = clean_conn;
  machine = init;
  checked = [];
  consumer = false;
  assigned = none;
  cursor = beginning;
  calls = 0;
}

run-Transacted_example :
    Transacted
      (execute_statement env.json (checkpoint_upsert tp (pos 3)))
      world
      (run env 5000 (run_statement env (checkpoint_upsert tp (pos 3))) world)
run-Transacted_example =
    run-Transacted env 5000 world (IsWork-statement env (checkpoint_upsert tp (pos 3))) refl refl

transact-Written_example :
    Written
      (execute_statement env.json (checkpoint_upsert tp (pos 3)))
      world
      (transact env 5000 (run_statement env (checkpoint_upsert tp (pos 3))) world)
transact-Written_example =
    transact-Written env 5000 world (IsWork-statement env (checkpoint_upsert tp (pos 3)))

checkout-CheckedOut_example : CheckedOut world (checkout env world)
checkout-CheckedOut_example = checkout-CheckedOut env world

append-Appended_example :
    Appended env cfg tp
      (codes "k")
      (str (codes "{}"))
      world
      (append env cfg tp (codes "k") (str (codes "{}")) world)
append-Appended_example = append-Appended env cfg tp (codes "k") (str (codes "{}")) world

assigned-Outside_example :
    Outside (tp ∷ []) world.db (on_partitions_assigned env cfg 9 (tp ∷ []) world).1.db
assigned-Outside_example = assigned-Outside env cfg 9 (tp ∷ []) world

read_literal-escape_example :
    read_literal (escape_string_literal (codes "it's") ++ codes ")")
    ≡ some (codes "it's", codes ")")
read_literal-escape_example = read_literal-escape (codes "it's") (codes ")") refl

-- The end offset of the changelog cannot be read.
abbrev offline_env : Env
offline_env = record env { end_offset = λ n t. err kafka_error }

rehydrate_one-Hides_example : (rehydrate_one offline_env cfg 9 tp name 800 world).1.db.owned ≡ []
unfolding rehydrate_one ◌>>=◌ read_checkpoint checkout select_checkpoint get_consumer execute
    take_connection reset_transaction checkpoint_of
rehydrate_one-Hides_example = rehydrate_one-Hides offline_env cfg tp 9 name 800 world tt

replay-Ends_example :
    (replay env cfg tp name (pos 1) 4 6 (replay_from (pos 0)) world).0 ≢ ok unfinished
replay-Ends_example =
    replay-Ends env cfg tp name (pos 1) 4 4 (λ n late. late) 6 (replay_from (pos 0)) world
      (omega arith) (omega arith)

run-Only_example :
    Only is_mapped_end (run env 5000 (run_statement env (checkpoint_upsert tp (pos 3))))
run-Only_example = run-Only env 5000 (Only-run_statement env (checkpoint_upsert tp (pos 3)))

abbrev encoded : EncodedRecord
encoded = record {
  key = codes "k";
  value = codes "{}";
  headers =
      (codes "format_version", some (codes "1")) ∷ (codes "message_id", some (codes "m")) ∷ [];
}

classify-encode_record_example :
    classify env.parsers (some encoded.key) (some encoded.value) encoded.headers
    ≡ ksqlite_record
        (record { message_id = codes "m"; entity_key = codes "k"; payload = codes "{}" })
unfolding encode_record serialize_payload encode encode_char
classify-encode_record_example =
    classify-encode_record env.parsers (codes "k") (codes "{}") (codes "m") (str (codes "{}"))
      encoded (omega arith, tt) (omega arith, (omega arith, tt)) (omega arith, tt) refl refl refl

abbrev seen_entry : Entry
seen_entry = record {
  status = standby;
  checkpoint_offset = some (pos 4);
  log_end_offset = some (pos 5);
}

find-merged_consumer_kwargs_example :
    find
      (codes "group_id")
      (merged_consumer_kwargs other ((codes "group_id", string (codes "g")) ∷ []))
    ≡ or_else (find_last (codes "group_id") pinned_consumer_keys) (
        or_else
          (find_last (codes "group_id") ((codes "group_id", string (codes "g")) ∷ []))
          (if text_eq (codes "bootstrap_servers") (codes "group_id") then some other else none))
find-merged_consumer_kwargs_example =
    find-merged_consumer_kwargs (codes "group_id") other
      ((codes "group_id", string (codes "g")) ∷ [])

-- An append is under way when `stop` is called.
abbrev stopping_store : Store
stopping_store = record {
  run_state = stopping;
  in_flight = 1;
  drained = false;
  starting = 0;
  waiting = 1;
}

to_stopping : Steps fresh stopping_store
unfolding start_enter start_exit append_enter ensure_running stop_enter
to_stopping =
    then_step
      (then_step (then_step (then_step here (starts refl)) (started true (λ h. omega (arith, h))))
        (appends refl))
      (stops refl)

-- Two calls of `start` overlap; the second ends behind a `stop` and opens the closed store again.
start_behind_stop : Steps fresh (record fresh { run_state = running })
unfolding start_enter start_exit stop_enter
start_behind_stop =
    then_step
      (then_step
        (then_step (then_step (then_step here (starts refl)) (starts refl))
          (started true (λ h. omega (arith, h))))
        (stops refl))
      (started true (λ h. omega (arith, h)))

steps-IsSoundStore_example : IsSoundStore stopping_store
unfolding to_stopping
steps-IsSoundStore_example = steps-IsSoundStore to_stopping ((((tt, refl), tt), tt), tt)

abbrev first_row : Row
first_row = row_for tp (codes "m") (codes "k") (pos 0) (codes "{}")

abbrev after_append : Db
after_append = record { records = first_row ∷ []; checkpoints = (tp, pos 0) ∷ []; owned = [] }

replay_effect-append_example :
    replay_effect env tp (acknowledged encoded (pos 0) ∷ []) after_append ≡ ok after_append
unfolding encode_record serialize_payload encode encode_char append_effect decoded_effect
    materialize_effect execute_statement decode
replay_effect-append_example =
    replay_effect-append env tp (codes "k") (codes "{}") (codes "m") (str (codes "{}")) encoded
      (pos 0) world.db after_append (omega arith, tt) (omega arith, (omega arith, tt))
      (omega arith, tt) refl refl refl refl

-- A partition that is visible, and known to the process.
abbrev owning_world : World
owning_world = record world {
  db = record { records = first_row ∷ []; checkpoints = (tp, pos 0) ∷ []; owned = tp ∷ [] };
  machine = (tp, seen_entry) ∷ [];
}

on_partitions_revoked-Revoked_example :
    Revoked (tp ∷ []) owning_world (on_partitions_revoked env cfg (tp ∷ []) owning_world)
on_partitions_revoked-Revoked_example = on_partitions_revoked-Revoked env cfg (tp ∷ []) owning_world

-- An empty changelog: there is nothing to replay.
abbrev empty_env : Env
empty_env = record env { end_offset = λ n t. ok (pos 0) }

rehydrate_one-Shown_example : Shown tp (rehydrate_one empty_env cfg 9 tp name 800 world).1
unfolding rehydrate_one ◌>>=◌ read_checkpoint checkout select_checkpoint get_consumer execute
    take_connection reset_transaction checkpoint_of seek_start replay round finish reveal
    execute_in_txn transact run retry attempt begin_immediate commit run_statement dml
    execute_statement
rehydrate_one-Shown_example = rehydrate_one-Shown empty_env cfg tp 9 name 800 world refl

-- A host that hands a write to a query.
abbrev model_target : Target Text
model_target = model (λ t. ok t)

-- DELETE FROM _records
abbrev delete_records : Db → Result Db
delete_records d = ok (record d { records = [] })

query_into-Same_example :
    Same world (query_into env (change delete_records []) model_target world).1
query_into-Same_example = query_into-Same env (change delete_records []) model_target world

changelog_name_iff_example :
    (changelog_name env cfg.topics tp ≡ ok name)
    ↔ ((env.format cfg.topics.template tp.topic tp.partition ≡ ok name) × IsTopicName name)
changelog_name_iff_example = changelog_name_iff env cfg.topics tp name

abbrev running_store : Store
running_store = record fresh { run_state = running }

run_calls-IsKeyed_example :
    IsKeyed
      (run_calls env cfg
        ((running_store, appended tp (codes "k") (str (codes "{}")))
          ∷ (running_store, assigned 9 (tp ∷ tp ∷ []))
          ∷ [])
        world).db
run_calls-IsKeyed_example =
    run_calls-IsKeyed env cfg
      ((running_store, appended tp (codes "k") (str (codes "{}")))
        ∷ (running_store, assigned 9 (tp ∷ tp ∷ []))
        ∷ [])
      world (tt, tt, tt)
