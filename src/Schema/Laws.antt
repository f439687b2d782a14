-- ===== src/Schema/Laws.antt =====
-- What the checkpoint and ownership statements leave for each partition.
use ksqlite.Prelude.{
  ◌≡◌, false, ◌||◌, not, Option, none, some, List, [], ◌∷◌, ◌++◌, arith, if◌then◌else◌, keep,
  any_of-append,
}
use ksqlite.Prelude.Int.{ℤ}
use ksqlite.Types.{TopicPartition, tp_eq, tp_eq_iff}
use ksqlite.Schema.{Checkpoints, checkpoint_of, upsert, is_owned}

abbrev pub merge_into : (ℤ → ℤ → ℤ) → Option ℤ → ℤ → ℤ
merge_into merge none o = o
merge_into merge (some p) o = merge p o

pub checkpoint_of-upsert :
    (merge : ℤ → ℤ → ℤ) (tp q : TopicPartition) (o : ℤ) (cs : Checkpoints)
    → checkpoint_of q (upsert merge tp o cs)
      ≡ (if tp_eq tp q then some (merge_into merge (checkpoint_of tp cs) o) else checkpoint_of q cs)
unfolding checkpoint_of upsert
checkpoint_of-upsert merge tp q o [] = ground arith
checkpoint_of-upsert merge tp q o ((r, p) ∷ cs) =
    ground
      (arith, checkpoint_of-upsert merge tp q o cs, tp_eq_iff tp q, tp_eq_iff r tp, tp_eq_iff r q)

pub is_owned-keep :
    (tp q : TopicPartition) (owned : List TopicPartition)
    → is_owned q (keep (λ r. not (tp_eq r tp)) owned)
      ≡ (if tp_eq tp q then false else is_owned q owned)
unfolding is_owned
is_owned-keep tp q [] = ground arith
is_owned-keep tp q (r ∷ owned) =
    ground (arith, is_owned-keep tp q owned, tp_eq_iff tp q, tp_eq_iff r tp, tp_eq_iff r q)

pub is_owned-append :
    (tp q : TopicPartition) (owned : List TopicPartition)
    → is_owned q (owned ++ tp ∷ []) ≡ (is_owned q owned || tp_eq tp q)
unfolding is_owned
is_owned-append tp q owned = rw any_of-append (ground arith)
