-- ===== src/Topics.antt =====
-- _topics.py, class ChangelogTopics: changelog names, and step 0 of an assignment.
pub mod Cache
pub mod Names
use ksqlite.Prelude.{
  Bool, true, false, Option, none, some, List, [], ◌∷◌, ◌++◌, if◌then◌else◌, any_of, ◌&&◌,
}
use ksqlite.Prelude.Int.{ℤ}
use ksqlite.Errors.{
  Exn, Result, ok, err, kafka_error, offset_out_of_range, rehydrate_error, topic_not_found_error,
}
use ksqlite.Errors
use ksqlite.Text.{Text, codes, text_eq, text_in, contains}
use ksqlite.Types.{TopicPartition, tp_eq}
use ksqlite.Sql.{validate_topic_name}
use ksqlite.World.{
  Env, Exec, ErrorCode, no_error, topic_already_exists, unauthorized, Resource, pure, raise, gets,
  lift, call, catch, modify, ◌>>=◌, ◌>>◌,
}

pub record TopicsConfig : Type 0 where
  pub template : Text
  pub create_topics_retention_ms : Option ℤ
  pub verify_changelog_policy : Bool

-- `except KafkaError`, which takes its subclasses.
abbrev pub is_kafka : Exn → Bool
is_kafka kafka_error = true
is_kafka offset_out_of_range = true
is_kafka _ = false

unfoldable pub changelog_name : Env → TopicsConfig → TopicPartition → Result Text
changelog_name env cfg source =
    Errors.◌>>=◌ (env.format cfg.template source.topic source.partition)
      λ name. Errors.◌>>◌ (validate_topic_name name) (ok name)

-- What `_verify_policy` logs, which is all that it does.
pub data PolicyEvent : Type 0 where
  topic_verified compact_policy_detected : PolicyEvent
  policy_verify_unauthorized policy_verify_failed : PolicyEvent

abbrev is_compact : Text × Text → Bool
is_compact (key, value) = text_eq key (codes "cleanup.policy") && contains value (codes "compact")

-- The walk over the resources of the responses, up to its first `return`.
unfoldable pub policy_event : List Resource → PolicyEvent
policy_event [] = topic_verified
policy_event (r ∷ rs) =
    let rest = policy_event rs in
    elim r.error_code [
      | no_error ↦ if any_of is_compact r.entries then compact_policy_detected else rest
      | unauthorized ↦ policy_verify_unauthorized
      | other ↦ policy_verify_failed
    ]

unfoldable pub verify_policy : Env → Text → Exec PolicyEvent
unfolding policy_event
verify_policy env name = do
  responses ← call (λ n. env.describe_configs n name)
  pure (policy_event responses)

-- The walk over `response.topic_errors`; `for_code` gives a KafkaError.
unfoldable pub creation_outcome : List ErrorCode → Result (Unit {0})
creation_outcome [] = ok tt
creation_outcome (no_error ∷ codes) = creation_outcome codes
creation_outcome (topic_already_exists ∷ codes) = ok tt
creation_outcome (code ∷ codes) = err kafka_error

unfoldable pub create : Env → Text → ℤ → Exec (Unit {0})
unfolding creation_outcome
create env name retention = do
  topic_errors ← call (λ n. env.create_topics n name retention)
  lift (creation_outcome topic_errors)

-- A changelog that is missing: it is created, if a retention is configured.
unfoldable pub create_missing : Env → Text → Option ℤ → Exec (Unit {0})
unfolding create
create_missing env name none = raise topic_not_found_error
create_missing env name (some retention) = create env name retention

unfoldable pub ensure_topic : Env → TopicsConfig → Text → Exec (Unit {0})
unfolding create_missing
ensure_topic env cfg name = do
  existing ← call env.list_topics
  if text_in name existing then pure tt else create_missing env name cfg.create_topics_retention_ms

-- The part of step 0 that talks to the broker.
unfoldable pub step_zero : Env → TopicsConfig → Text → Exec (Unit {0})
unfolding ensure_topic verify_policy
step_zero env cfg name = do
  ensure_topic env cfg name
  if cfg.verify_changelog_policy then (do verify_policy env name; pure tt) else pure tt

-- `raise RehydrateError(...) from exc` on a KafkaError.
abbrev pub as_rehydrate_error : {A : Type 0} → (Exn → Bool) → Exn → Exec A
as_rehydrate_error mapped e = raise (if mapped e then rehydrate_error else e)

-- `source in self._checked`
abbrev pub is_checked : TopicPartition → List TopicPartition → Bool
is_checked source checked = any_of (λ q. tp_eq q source) checked

unfoldable pub ensure_and_verify : Env → TopicsConfig → TopicPartition → Exec Text
unfolding changelog_name step_zero
ensure_and_verify env cfg source = do
  name ← lift (changelog_name env cfg source)
  known ← gets (λ w. is_checked source w.checked)
  if known then pure name else (do
    catch (step_zero env cfg name) (as_rehydrate_error is_kafka)
    modify (λ w. record w { checked = w.checked ++ source ∷ [] })
    pure name)
