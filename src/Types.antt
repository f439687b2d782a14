-- ===== src/Types.antt =====
-- types.py: the public data types, and aiokafka's `TopicPartition`, a pair of a topic and a number.
use ksqlite.Prelude.{ℕ, ◌≡◌, ◌↔◌, Bool, true, ◌&&◌, Option, List, arith, ◌==◌, ==_iff, &&-eq-true}
use ksqlite.Prelude.Int.{ℤ}
use ksqlite.Text.{Text, text_eq, text_eq_iff, text_eq_refl}

-- Partition numbers are not negative.
pub record TopicPartition : Type 0 where
  pub topic : Text
  pub partition : ℕ

unfoldable pub tp_eq : TopicPartition → TopicPartition → Bool
tp_eq a b = text_eq a.topic b.topic && a.partition == b.partition

pub tp_eq_refl : (a : TopicPartition) → tp_eq a a ≡ true
unfolding tp_eq
tp_eq_refl a = ground (arith, text_eq_refl a.topic)

pub tp_eq_iff : (a b : TopicPartition) → (tp_eq a b ≡ true) ↔ (a ≡ b)
unfolding tp_eq
tp_eq_iff a b = (
  λ h.
      let (t, p) = &&-eq-true _ _ h in
      λ i. record {
        topic = (text_eq_iff a.topic b.topic).0 t i;
        partition = (==_iff a.partition b.partition).0 p i;
      },
  λ e. ground (arith, e, text_eq_refl a.topic),
)

pub record GeneratedColumn : Type 0 where
  pub name : Text
  pub json_path : Text
  pub sql_type : Text

-- `columns` is a tuple of its own: a later change of the caller's list does not reach it.
pub record Index : Type 0 where
  pub name : Text
  pub columns : List Text
  pub unique : Bool

pub data PartitionStatus : Type 0 where
  restoring ready ready_partial standby : PartitionStatus

pub record PartitionState : Type 0 where
  pub state : PartitionStatus
  pub checkpoint_offset : Option ℤ
  pub log_end_offset : Option ℤ
  pub lag : Option ℤ
