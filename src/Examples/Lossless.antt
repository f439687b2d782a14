-- ===== src/Examples/Lossless.antt =====
-- The theorems on the records that are stored, at concrete inputs: a changelog of one record.
use ksqlite.Prelude.{◌≡◌, refl, [], ◌∷◌, arith, ◌∙◌, inl}
use ksqlite.Prelude.Int.{ℤ, pos, ◌≤ℤ◌}
use ksqlite.Errors.{ok}
use ksqlite.Text.{Text, codes}
use ksqlite.Text.Utf8.{encode, encode_char}
use ksqlite.Types.{TopicPartition}
use ksqlite.Wire.{EncodedRecord, str, encode_record, serialize_payload}
use ksqlite.Schema.{checkpoint_of}
use ksqlite.World.{World, ConsumerRecord}
use ksqlite.Write.{append}
use ksqlite.Lifecycle.{rehydrate_one}
use mathlib.Core.Path.{subst}
use ksqlite.Errors.{ok_injective}
use ksqlite.State
use ksqlite.Batches.Effect.{batch_effect}
use ksqlite.Batches.Covered.{IsHonest, Covered}
use ksqlite.Text.Utf8.Roundtrip.{IsText}
use ksqlite.Write.{row_for}
use ksqlite.Write.Effect.{append_effect}
use ksqlite.Write.Equal.{append_effect-batch}
use ksqlite.Write.Covered.{LeavesNoGap, append-Covered}
use ksqlite.Prelude.{inr, ap, sym}
use ksqlite.Write.Replayed.{acknowledged}
use ksqlite.Examples.{tp, name, first_record, env, cfg, world, encoded}

-- The changelog holds the one record.
abbrev pub Held : ConsumerRecord → Type 0
Held x = x ≡ first_record

pub env-IsHonest : (t : Text) → IsHonest env t Held
env-IsHonest t = record {
  nonnegative = λ x held. rw held (omega arith);
  fetches = λ n cursor c cs x fetched held from within. inl (held ∙ cc fetched);
  starts = λ n log_start x asked held.
      rw held (subst (λ l. l ≤ℤ pos 0) (ok_injective asked) (omega arith));
}

pub world-Covered : (q : TopicPartition) → Covered env q Held world.db
unfolding checkpoint_of
world-Covered q x c held at_c le k e = cc at_c

abbrev caught_up : World
caught_up = (rehydrate_one env cfg 9 tp name 800 world).1

pub encoded_lem : encode_record env.parsers (codes "k") (str (codes "{}")) (codes "m") ≡ ok encoded
unfolding encode_record serialize_payload encode encode_char
encoded_lem = refl

append_effect-batch_example :
    append_effect env (row_for tp (codes "m") (codes "k") (pos 0)) encoded world.db
    ≡ batch_effect env tp (acknowledged encoded (pos 0) ∷ []) (pos 0) world.db
unfolding serialize_payload
append_effect-batch_example =
    append_effect-batch env tp (codes "k") (codes "{}") (codes "m") (str (codes "{}")) encoded
      (pos 0) world.db (omega arith, tt) (omega arith, (omega arith, tt)) (omega arith, tt) refl
      refl encoded_lem

-- The record that the changelog holds is that of the append.
pub its_record :
    (enc : EncodedRecord) (offset : ℤ) (x : ConsumerRecord)
    → encode_record env.parsers (codes "k") (str (codes "{}")) (codes "m") ≡ ok enc
    → ok (pos 0) ≡ ok offset
    → Held x
    → x ≡ acknowledged enc offset
its_record enc offset x is_encoded sent held =
    held
    ∙ ap (λ e. acknowledged e (pos 0)) (ok_injective (sym encoded_lem ∙ is_encoded))
    ∙ ap (acknowledged enc) (ok_injective sent)

world-LeavesNoGap : LeavesNoGap env (codes "k") (str (codes "{}")) Held world
world-LeavesNoGap enc topic offset x is_encoded (sent, fine) held le =
    inr (its_record enc offset x is_encoded sent held)

append-Covered_example :
    Covered env tp Held (append env cfg tp (codes "k") (str (codes "{}")) world).1.db
unfolding serialize_payload
append-Covered_example =
    append-Covered env cfg tp (codes "k") (str (codes "{}")) Held world
      (λ m. ((omega arith, tt), refl)) (omega arith, tt)
      (λ text same. subst IsText (ok_injective same) (omega arith, (omega arith, tt)))
      world-LeavesNoGap (world-Covered tp)
