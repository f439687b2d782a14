-- ===== src/Lifecycle.antt =====
-- _lifecycle.py: `_rehydrate_one`, the post-reset clamps and the two rebalance hooks.
pub mod Rules
pub mod Pieces
pub mod Related
pub mod Verified
pub mod Hooks
pub mod Frame
pub mod Hidden
pub mod Shown
pub mod Revoked
pub mod Clamped
pub mod CaughtUp
pub mod Everywhere
pub mod Assigned
pub mod Opens
pub mod Opened
pub mod Ready
use ksqlite.Prelude.{
  ℕ, ◌+◌, Bool, true, false, ◌&&◌, Option, none, some, List, [], ◌∷◌, leb, ◌==◌, if◌then◌else◌,
}
use ksqlite.Prelude.Int.{ℤ, pos, ◌+ℤ◌, ◌-ℤ◌, ltb_ℤ, eqb_ℤ}
use ksqlite.Errors.{Exn, storage_error, still_running}
use ksqlite.Text.{Text}
use ksqlite.Types.{TopicPartition, PartitionStatus}
use ksqlite.State
use ksqlite.Schema.{checkpoint_clamp, owned_delete}
use ksqlite.World.{
  Env, Exec, beginning, at, pure, raise, gets, call, catch, modify, on_machine, read_clock, ◌>>=◌,
  ◌>>◌,
}
use ksqlite.Batches.{Settings, get_consumer, reveal, read_checkpoint, execute_in_txn}
use ksqlite.Replay.{Replay, Ending, reached, stopped, unfinished, replay}
use ksqlite.Topics.{is_kafka, as_rehydrate_error, ensure_and_verify}

-- `self._state.record_applied(tp, checkpoint)`, if there is a checkpoint.
abbrev pub seed_checkpoint : TopicPartition → Option ℤ → Exec (Unit {0})
seed_checkpoint tp none = pure tt
seed_checkpoint tp (some c) = on_machine (State.record_applied tp c)

-- `assign`, and `seek` behind the checkpoint or to the beginning: the position to replay from.
unfoldable pub seek_start : Env → Text → Option ℤ → Exec ℤ
seek_start env name none = do
  modify (λ w. record w { assigned = some name })
  call (λ n. env.seek_to_beginning n name)
  modify (λ w. record w { cursor = beginning })
  pure (pos 0)
seek_start env name (some c) = do
  modify (λ w. record w { assigned = some name; cursor = at (c +ℤ pos 1) })
  pure (c +ℤ pos 1)

-- `stored is not None and stored > leo - 1`
abbrev pub is_above : ℤ → Option ℤ → Bool
is_above leo none = false
is_above leo (some c) = ltb_ℤ (leo -ℤ pos 1) c

-- The checkpoint that a clamp writes: down to LEO - 1, or up past a gap that was trimmed whole.
unfoldable pub clamp_target : Option ℤ → ℤ → ℤ → ℕ → Option ℤ
clamp_target stored leo log_start replayed =
    if is_above leo stored
    then some (leo -ℤ pos 1)
    else if replayed == 0 && eqb_ℤ log_start leo
    then some (log_start -ℤ pos 1)
    else none

-- `_apply_post_reset_clamps`
unfoldable pub apply_post_reset_clamps :
    Env → Settings → TopicPartition → ℤ → ℤ → ℕ → Exec (Unit {0})
apply_post_reset_clamps env cfg tp leo log_start replayed = do
  stored ← read_checkpoint env tp
  elim (clamp_target stored leo log_start replayed) [
    | none ↦ pure tt
    | some target ↦ do
      execute_in_txn env cfg (checkpoint_clamp tp target)
      on_machine (State.record_clamped tp target)
  ]

-- The end of `_rehydrate_one`, by how the loop ended.
unfoldable pub finish : Env → Settings → TopicPartition → ℤ → Ending → Exec (Unit {0})
finish env cfg tp leo stopped = pure tt
finish env cfg tp leo unfinished = raise still_running
finish env cfg tp leo (reached r) = do
  if r.reset_occurred
      then apply_post_reset_clamps env cfg tp leo r.reset_log_start r.replayed_after_reset
      else pure tt
  on_machine (State.mark_ready tp)
  reveal env cfg tp

-- The loop's variables at its start.
abbrev pub replay_from : ℤ → Replay
replay_from position = record {
  position = position;
  reset_occurred = false;
  reset_log_start = pos 0;
  replayed_after_reset = 0;
}

-- `_rehydrate_one`
unfoldable pub rehydrate_one : Env → Settings → ℕ → TopicPartition → Text → ℕ → Exec (Unit {0})
rehydrate_one env cfg fuel tp name deadline = do
  checkpoint ← read_checkpoint env tp
  seed_checkpoint tp checkpoint
  get_consumer env
  leo ← call (λ n. env.end_offset n name)
  on_machine (State.record_log_end tp leo)
  on_machine (State.mark_restoring tp)
  position ← seek_start env name checkpoint
  ending ← replay env cfg tp name leo deadline fuel (replay_from position)
  finish env cfg tp leo ending

-- `_reveal_partial_unreached`
unfoldable pub reveal_partial_unreached : Env → Settings → TopicPartition → Text → Exec (Unit {0})
reveal_partial_unreached env cfg tp name = do
  get_consumer env
  leo ← call (λ n. env.end_offset n name)
  on_machine (State.record_log_end tp leo)
  checkpoint ← read_checkpoint env tp
  seed_checkpoint tp checkpoint
  on_machine (State.mark_ready_partial tp)
  reveal env cfg tp

-- `except (StorageError, KafkaError)`
abbrev pub is_mapped : Exn → Bool
is_mapped storage_error = true
is_mapped e = is_kafka e

-- The deadline is checked before each partition after the first that was replayed.
unfoldable pub out_of_time : Env → Bool → ℕ → Exec Bool
out_of_time env first deadline =
    if first then pure false else (do now ← read_clock env; pure (leb deadline now))

-- The body of the loop over the assigned partitions; it returns the next value of `first`.
unfoldable pub assign_one : Env → Settings → ℕ → ℕ → Bool → TopicPartition → Exec Bool
assign_one env cfg fuel deadline first tp = do
  name ← ensure_and_verify env cfg.topics tp
  late ← out_of_time env first deadline
  if late
      then (do reveal_partial_unreached env cfg tp name; pure first)
      else (do rehydrate_one env cfg fuel tp name deadline; pure false)

unfoldable pub assign_each : Env → Settings → ℕ → ℕ → Bool → List TopicPartition → Exec (Unit {0})
assign_each env cfg fuel deadline first [] = pure tt
assign_each env cfg fuel deadline first (tp ∷ tps) = do
  first' ← catch (assign_one env cfg fuel deadline first tp) (as_rehydrate_error is_mapped)
  assign_each env cfg fuel deadline first' tps

unfoldable pub on_partitions_assigned : Env → Settings → ℕ → List TopicPartition → Exec (Unit {0})
on_partitions_assigned env cfg fuel assigned = do
  now ← read_clock env
  assign_each env cfg fuel (now + cfg.rehydrate_timeout) true assigned

-- The body of the loop over the revoked partitions, by the status that the partition has.
unfoldable pub revoke_seen :
    Env → Settings → TopicPartition → Option PartitionStatus → Exec (Unit {0})
revoke_seen env cfg tp none = pure tt
revoke_seen env cfg tp (some _) = do
  execute_in_txn env cfg (owned_delete tp)
  on_machine (State.mark_revoked tp)

unfoldable pub revoke_one : Env → Settings → TopicPartition → Exec (Unit {0})
unfolding revoke_seen
revoke_one env cfg tp = do
  seen ← gets (λ w. State.status_of tp w.machine)
  revoke_seen env cfg tp seen

unfoldable pub on_partitions_revoked : Env → Settings → List TopicPartition → Exec (Unit {0})
on_partitions_revoked env cfg [] = pure tt
on_partitions_revoked env cfg (tp ∷ tps) =
    revoke_one env cfg tp >> on_partitions_revoked env cfg tps
