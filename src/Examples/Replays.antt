-- ===== src/Examples/Replays.antt =====
-- The theorems on repeated replays and on the tables and the machine as maps, at concrete inputs.
use ksqlite.Prelude.{ℕ, ◌≡◌, refl, sym, ◌∙◌, ap, inl, inr, Option, none, some, List, [], ◌∷◌, arith}
use ksqlite.Prelude.Int.{ℤ, pos}
use ksqlite.Errors.{ok}
use ksqlite.Text.{Text, codes, text_eq}
use ksqlite.Text.Utf8.{decode, decode_replace}
use ksqlite.Wire.{classify}
use ksqlite.Schema.{Db, Row, execute_statement}
use ksqlite.Schema.View.{view}
use ksqlite.World.{ConsumerRecord}
use ksqlite.Batches.Covered.{Among}
use ksqlite.Batches.Effect.{batch_effect, replay_effect}
use ksqlite.Batches.Again.{batch_effect_again}
use ksqlite.Batches.Converge.{batch_effect-view}
use ksqlite.Batches.Rows.{HaveOwnIds, stored_row}
use ksqlite.Examples.{tp, first_record, env, world}
use ksqlite.Schema.{insert_record, checkpoint_of}
use ksqlite.Schema.Laws.{merge_into}
use ksqlite.Prelude.Int.{max_ℤ}
use ksqlite.Schema.View.{viewed, specified, viewed-execute_statement}
use ksqlite.Types.{TopicPartition}
use ksqlite.Prelude.{map}
use ksqlite.State.{partition_states, init, snapshot}
use ksqlite.State.View.{
  Method, readied, applied, clamped, run_methods, told, seen, partition_states-told,
}

-- A record with an id of its own.
abbrev other_record : ConsumerRecord
other_record = record first_record {
  offset = pos 1;
  headers =
      (codes "format_version", some (codes "1")) ∷ (codes "message_id", some (codes "n")) ∷ [];
}

abbrev in_order : List ConsumerRecord
in_order = first_record ∷ other_record ∷ []

abbrev out_of_order : List ConsumerRecord
out_of_order = other_record ∷ first_record ∷ other_record ∷ []

abbrev row : ℤ → Text → Row
row offset id = record {
  message_id = id;
  source = tp;
  changelog_offset = offset;
  entity_key = codes "k";
  payload = codes "{}";
}

abbrev both_stored : Db
both_stored = record {
  records = row (pos 0) (codes "m") ∷ row (pos 1) (codes "n") ∷ [];
  checkpoints = (tp, pos 1) ∷ [];
  owned = [];
}

of_in_order : (x : ConsumerRecord) → Among x out_of_order → Among x in_order
of_in_order x (inl e) = inr (inl e)
of_in_order x (inr (inl e)) = inl e
of_in_order x (inr (inr among)) = inr among

of_out_of_order : (x : ConsumerRecord) → Among x in_order → Among x out_of_order
of_out_of_order x (inl e) = inr (inl e)
of_out_of_order x (inr (inl e)) = inl e
of_out_of_order x (inr (inr never)) = absurd never

batch_effect_again_example : batch_effect env tp out_of_order (pos 0) both_stored ≡ ok both_stored
unfolding batch_effect replay_effect classify text_eq decode decode_replace execute_statement
batch_effect_again_example =
    batch_effect_again env tp in_order out_of_order (pos 1) (pos 0) world.db both_stored refl
      of_in_order (omega arith)

abbrev first_code : Text → ℕ
first_code [] = 0
first_code (c ∷ t) = c

ids_differ : codes "m" ≡ codes "n" → ⊥
ids_differ e = omega (arith, ap first_code e)

abbrev id_of : Option Row → Text
id_of none = []
id_of (some r) = r.message_id

-- The id of the row that a record leaves.
its_id :
    (x z : ConsumerRecord) (r : Row)
    → x ≡ z
    → stored_row env tp x ≡ some r
    → id_of (stored_row env tp z) ≡ r.message_id
its_id x z r e h = ap (λ y. id_of (stored_row env tp y)) (sym e) ∙ ap id_of h

first_id : id_of (stored_row env tp first_record) ≡ codes "m"
unfolding classify text_eq decode decode_replace
first_id = refl

other_id : id_of (stored_row env tp other_record) ≡ codes "n"
unfolding classify text_eq decode decode_replace
other_id = refl

-- The two records leave rows with two ids.
in_order-HaveOwnIds : HaveOwnIds env tp in_order
in_order-HaveOwnIds x y r s (inl e) (inl f) left right same = e ∙ sym f
in_order-HaveOwnIds x y r s (inr (inl e)) (inr (inl f)) left right same = e ∙ sym f
in_order-HaveOwnIds x y r s (inl e) (inr (inl f)) left right same = absurd (
    ids_differ (
      sym first_id
      ∙ its_id x first_record r e left
      ∙ same
      ∙ sym (its_id y other_record s f right)
      ∙ other_id))
in_order-HaveOwnIds x y r s (inr (inl e)) (inl f) left right same = absurd (
    ids_differ (
      sym first_id
      ∙ its_id y first_record s f right
      ∙ sym same
      ∙ sym (its_id x other_record r e left)
      ∙ other_id))
in_order-HaveOwnIds x y r s (inr (inr never)) among left right same = absurd never
in_order-HaveOwnIds x y r s (inl e) (inr (inr never)) left right same = absurd never
in_order-HaveOwnIds x y r s (inr (inl e)) (inr (inr never)) left right same = absurd never

abbrev stored_out_of_order : Db
stored_out_of_order = record both_stored {
  records = row (pos 1) (codes "n") ∷ row (pos 0) (codes "m") ∷ [];
}

batch_effect-view_example :
    (view both_stored ≡ view stored_out_of_order)
    × (checkpoint_of tp both_stored.checkpoints
        ≡ some (merge_into max_ℤ (checkpoint_of tp world.db.checkpoints) (pos 1)))
unfolding batch_effect replay_effect classify text_eq decode decode_replace execute_statement
batch_effect-view_example =
    batch_effect-view env tp first_record other_record (other_record ∷ [])
      (first_record ∷ other_record ∷ []) world.db both_stored world.db stored_out_of_order
      in_order-HaveOwnIds of_out_of_order of_in_order refl refl refl refl

viewed-execute_statement_example :
    viewed (execute_statement env.json (insert_record (row (pos 3) (codes "n"))) both_stored)
    ≡ specified env.json (insert_record (row (pos 3) (codes "n"))) (view both_stored)
viewed-execute_statement_example =
    viewed-execute_statement env.json (insert_record (row (pos 3) (codes "n"))) both_stored

abbrev other_tp : TopicPartition
other_tp = record { topic = codes "t"; partition = 1 }

-- The checkpoint of `tp` goes to 4, stays there, and is clamped to 1.
abbrev methods : List (TopicPartition × Method)
methods =
    (tp, applied (pos 4)) ∷ (other_tp, readied) ∷ (tp, applied (pos 2)) ∷ (tp, clamped (pos 1)) ∷ []

partition_states-told_example :
    partition_states (run_methods methods init)
    ≡ map (λ q. (q, snapshot (told methods q))) (seen methods)
partition_states-told_example = partition_states-told methods
