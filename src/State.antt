-- ===== src/State.antt =====
-- _state.py: the in-memory record of every partition seen, a dict in insertion order.
pub mod Laws
pub mod View
use ksqlite.Prelude.{Bool, true, Option, none, some, List, [], ◌∷◌, if◌then◌else◌}
use ksqlite.Prelude.Int.{ℤ, pos, ltb_ℤ, ◌+ℤ◌, ◌-ℤ◌}
use ksqlite.Types.{
  TopicPartition, tp_eq, PartitionStatus, restoring, ready, ready_partial, standby, PartitionState,
}

pub record Entry : Type 0 where
  pub status : PartitionStatus
  pub checkpoint_offset : Option ℤ
  pub log_end_offset : Option ℤ

abbrev pub Machine : Type 0
Machine = List (TopicPartition × Entry)

abbrev pub init : Machine
init = []

-- `self._entries.get(tp)`
unfoldable pub get : TopicPartition → Machine → Option Entry
get tp [] = none
get tp ((q, e) ∷ m) = if tp_eq q tp then some e else get tp m

abbrev pub new_entry : Entry
new_entry = record { status = standby; checkpoint_offset = none; log_end_offset = none }

-- The entry that `_entry(tp)` returns.
abbrev pub entry : TopicPartition → Machine → Entry
entry tp m = elim (get tp m) [ none ↦ new_entry | some e ↦ e ]

-- `_entry(tp)`, which adds a new entry at the end, and a change of the entry that it returns.
unfoldable pub change : TopicPartition → (Entry → Entry) → Machine → Machine
change tp f [] = (tp, f new_entry) ∷ []
change tp f ((q, e) ∷ m) = if tp_eq q tp then (q, f e) ∷ m else (q, e) ∷ change tp f m

unfoldable pub mark_restoring : TopicPartition → Machine → Machine
mark_restoring tp = change tp (λ e. record e { status = restoring })

unfoldable pub mark_ready : TopicPartition → Machine → Machine
mark_ready tp = change tp (λ e. record e { status = ready })

unfoldable pub mark_ready_partial : TopicPartition → Machine → Machine
mark_ready_partial tp = change tp (λ e. record e { status = ready_partial })

unfoldable pub mark_revoked : TopicPartition → Machine → Machine
mark_revoked tp = change tp (λ e. record e { status = standby })

-- `checkpoint is None or offset > checkpoint`
abbrev pub is_ahead : ℤ → Option ℤ → Bool
is_ahead offset none = true
is_ahead offset (some c) = ltb_ℤ c offset

unfoldable pub apply_offset : ℤ → Entry → Entry
apply_offset offset e =
    if is_ahead offset e.checkpoint_offset then record e { checkpoint_offset = some offset } else e

unfoldable pub record_applied : TopicPartition → ℤ → Machine → Machine
unfolding apply_offset
record_applied tp offset = change tp (apply_offset offset)

unfoldable pub status_of : TopicPartition → Machine → Option PartitionStatus
status_of tp m = elim (get tp m) [ none ↦ none | some e ↦ some e.status ]

unfoldable pub record_clamped : TopicPartition → ℤ → Machine → Machine
record_clamped tp offset = change tp (λ e. record e { checkpoint_offset = some offset })

unfoldable pub record_log_end : TopicPartition → ℤ → Machine → Machine
record_log_end tp leo = change tp (λ e. record e { log_end_offset = some leo })

-- `_lag`: LEO - (checkpoint + 1), once a LEO is cached.
abbrev pub next_offset : Option ℤ → ℤ
next_offset none = pos 0
next_offset (some c) = c +ℤ pos 1

unfoldable pub lag : Entry → Option ℤ
lag e = elim e.log_end_offset [
  | none ↦ none
  | some leo ↦ some (leo -ℤ next_offset e.checkpoint_offset)
]

unfoldable pub snapshot : Entry → PartitionState
unfolding lag
snapshot e = record {
  state = e.status;
  checkpoint_offset = e.checkpoint_offset;
  log_end_offset = e.log_end_offset;
  lag = lag e;
}

unfoldable pub partition_states : Machine → List (TopicPartition × PartitionState)
unfolding snapshot
partition_states [] = []
partition_states ((tp, e) ∷ m) = (tp, snapshot e) ∷ partition_states m
