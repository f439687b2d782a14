-- ===== src/Batches/Covered.antt =====
-- Which records of a changelog the database holds, and what a batch adds to them.
use ksqlite.Prelude.{
  ℕ, ◌≡◌, refl, sym, ap, ◌∙◌, ◌⊎◌, inl, inr, true, Option, none, some, List, [], ◌∷◌,
}
use mathlib.Core.Path.{subst}
use ksqlite.Prelude.Int.{ℤ, pos, max_ℤ, ◌≤ℤ◌, ◌+ℤ◌, le_or_next, le-max}
use ksqlite.Errors.{ok, ok_injective, parts_of-ok}
use ksqlite.Text.{Text}
use ksqlite.Types.{TopicPartition, tp_eq_refl}
use ksqlite.Wire.{Classified, ksqlite_record, foreign, unknown_version, KsqliteRecord, classify}
use ksqlite.Schema.{
  Statement, upsert, Db, has_id, checkpoint_of, insert_record, checkpoint_upsert, execute_statement,
}
use ksqlite.Schema.Laws.{merge_into, checkpoint_of-upsert}
use ksqlite.Schema.Ids.{Grows, Grows-preorder, Within-Grows, insert_record-stores}
use ksqlite.Schema.Frame.{IsFor, statement-Within}
use ksqlite.World.{Env, ConsumerRecord, Cursor, beginning, at}
use ksqlite.Batches.{row_of, last_offset}
use ksqlite.Batches.Effect.{
  classified_effect, record_effect, replay_effect, batch_effect, Through, Through-replay,
}

-- The record is one of the list.
abbrev pub Among : ConsumerRecord → List ConsumerRecord → Type 0
Among x [] = ⊥
Among x (c ∷ cs) = (x ≡ c) ⊎ Among x cs

-- A fetch from the cursor reaches the offset.
abbrev pub From : Cursor → ℤ → Type 0
From beginning o = Unit
From (at p) o = p ≤ℤ o

-- Kafka's part, for the records that the changelog holds as long as the rehydrate runs: their
-- offsets are not negative; a fetch skips none of them; none lies below the start of the log.
pub record IsHonest (env : Env) (name : Text) (holds : ConsumerRecord → Type 0) : Type 0 where
  pub nonnegative : (x : ConsumerRecord) → holds x → pos 0 ≤ℤ x.offset
  pub fetches :
      (n : ℕ) (cursor : Cursor) (c : ConsumerRecord) (cs : List ConsumerRecord) (x : ConsumerRecord)
      → env.getmany n name cursor ≡ ok (c ∷ cs)
      → holds x
      → From cursor x.offset
      → x.offset ≤ℤ last_offset c cs
      → Among x (c ∷ cs)
  pub starts :
      (n : ℕ) (log_start : ℤ) (x : ConsumerRecord)
      → env.beginning_offset n name ≡ ok log_start
      → holds x
      → log_start ≤ℤ x.offset

-- A record of this library is in the database, under its message id; another one need not be.
abbrev pub Stored : Env → Db → ConsumerRecord → Type 0
Stored env d x =
    (k : KsqliteRecord)
    → classify env.parsers x.key x.value x.headers ≡ ksqlite_record k
    → has_id k.message_id d.records ≡ true

-- Every record that the changelog holds up to the stored checkpoint is in the database.
abbrev pub Covered : Env → TopicPartition → (ConsumerRecord → Type 0) → Db → Type 0
Covered env tp holds d =
    (x : ConsumerRecord) (c : ℤ)
    → holds x
    → checkpoint_of tp d.checkpoints ≡ some c
    → x.offset ≤ℤ c
    → Stored env d x

pub Stored-Grows :
    (env : Env) (d d' : Db) (x : ConsumerRecord) → Grows d d' → Stored env d x → Stored env d' x
Stored-Grows env d d' x g s k h = g k.message_id (s k h)

some_injective : {a b : ℤ} → some a ≡ some b → a ≡ b
some_injective e = cc e

module _ (env : Env) (tp : TopicPartition) where
  classified-Stored :
      (x : ConsumerRecord) (c : Classified) (d d' : Db)
      → classify env.parsers x.key x.value x.headers ≡ c
      → classified_effect env tp x.offset c d ≡ ok d'
      → Stored env d' x × (d'.checkpoints ≡ d.checkpoints)
  classified-Stored x (foreign reason) d d' e h =
      ((λ k k_is. cc (e, k_is)), ap (λ y. y.checkpoints) (sym (ok_injective h)))
  classified-Stored x (unknown_version id version) d d' e h = cc h
  classified-Stored x (ksqlite_record r) d d' e h =
      let (stored, same) = insert_record-stores env.json (row_of tp x.offset r) d d' h in
      (
        (λ k k_is.
            subst (λ y. has_id y.message_id d'.records ≡ true) (same_record (sym e ∙ k_is)) stored),
        same,
      )
    where
      same_record : {a b : KsqliteRecord} → ksqlite_record a ≡ ksqlite_record b → a ≡ b
      same_record p = cc p

  statement-Grows : (s : Statement) → IsFor tp s → Through Grows (execute_statement env.json s)
  statement-Grows s f = record {
    step = λ d d' h. Within-Grows d d' (statement-Within env.json tp s d d' f h);
  }

  replay-Grows : (rs : List ConsumerRecord) → Through Grows (replay_effect env tp rs)
  replay-Grows = Through-replay Grows-preorder env tp (λ r f. statement-Grows (insert_record r) f)

  pub replay-Stored :
      (rs : List ConsumerRecord) (d d' : Db)
      → replay_effect env tp rs d ≡ ok d'
      → ((x : ConsumerRecord) → Among x rs → Stored env d' x) × (d'.checkpoints ≡ d.checkpoints)
  unfolding replay_effect
  replay-Stored [] d d' h = ((λ x m. absurd m), ap (λ y. y.checkpoints) (sym (ok_injective h)))
  replay-Stored (r ∷ rs) d d' h =
      let (d1, first, rest) = parts_of-ok (record_effect env tp r d) (replay_effect env tp rs) h in
      let (stored, same) = classified-Stored r _ d d1 refl first in
      let (all, same2) = replay-Stored rs d1 d' rest in
      (
        λ x m. elim m [
          | inl e ↦
              Stored-Grows env d1 d' x ((replay-Grows rs).step d1 d' rest)
                (subst (Stored env d1) (sym e) stored)
          | inr later ↦ all x later
        ],
        same2 ∙ same,
      )

  -- A batch stores its records and moves the checkpoint up to its last offset.
  pub batch-Stored :
      (rs : List ConsumerRecord) (last : ℤ) (d d' : Db)
      → batch_effect env tp rs last d ≡ ok d'
      → Grows d d'
        × ((x : ConsumerRecord) → Among x rs → Stored env d' x)
        × (checkpoint_of tp d'.checkpoints
            ≡ some (merge_into max_ℤ (checkpoint_of tp d.checkpoints) last))
  unfolding batch_effect execute_statement
  batch-Stored rs last d d' h =
      let (d1, ran, upserted) =
        parts_of-ok (replay_effect env tp rs d)
          (execute_statement env.json (checkpoint_upsert tp last)) h in
      let (stored, same) = replay-Stored rs d d1 ran in
      let more = (statement-Grows (checkpoint_upsert tp last) refl).step d1 d' upserted in
      (
        (λ i there. more i ((replay-Grows rs).step d d1 ran i there)),
        (λ x m. Stored-Grows env d1 d' x more (stored x m)),
        ap (checkpoint_of tp) (upserted-checkpoints d1 d' upserted)
            ∙ checkpoint_of-upsert max_ℤ tp tp last d1.checkpoints
            ∙ rw (tp_eq_refl tp) (ap (λ c. some (merge_into max_ℤ (checkpoint_of tp c) last)) same),
      )
    where
      upserted-checkpoints :
          (d1 d' : Db)
          → execute_statement env.json (checkpoint_upsert tp last) d1 ≡ ok d'
          → d'.checkpoints ≡ upsert max_ℤ tp last d1.checkpoints
      upserted-checkpoints d1 d' h = ap (λ y. y.checkpoints) (sym (ok_injective h))

  module _ (holds : ConsumerRecord → Type 0) where
    -- What is not stored lies at the position or behind it.
    abbrev pub Pending : ℤ → Db → Type 0
    Pending position d = (x : ConsumerRecord) → holds x → Stored env d x ⊎ (position ≤ℤ x.offset)

    up_to_last :
        (last : ℤ) (rs : List ConsumerRecord) (d d' : Db)
        → ((x : ConsumerRecord) → holds x → x.offset ≤ℤ last → Stored env d x ⊎ Among x rs)
        → Grows d d'
        → ((x : ConsumerRecord) → Among x rs → Stored env d' x)
        → (x : ConsumerRecord) → holds x
        → x.offset ≤ℤ last
        → Stored env d' x
    up_to_last last rs d d' all grows stored x held within = elim (all x held within) [
      | inl old ↦ Stored-Grows env d d' x grows old
      | inr fetched ↦ stored x fetched
    ]

    at_checkpoint :
        (last : ℤ) (d d' : Db)
        → Covered env tp holds d
        → Grows d d'
        → ((x : ConsumerRecord) → holds x → x.offset ≤ℤ last → Stored env d' x)
        → (o : Option ℤ) → checkpoint_of tp d.checkpoints ≡ o
        → checkpoint_of tp d'.checkpoints
          ≡ some (merge_into max_ℤ (checkpoint_of tp d.checkpoints) last)
        → (x : ConsumerRecord) (c : ℤ) → holds x
        → checkpoint_of tp d'.checkpoints ≡ some c
        → x.offset ≤ℤ c
        → Stored env d' x
    at_checkpoint last d d' covered grows there none e moved x c held at_c le =
        let new : c ≡ last = some_injective (sym at_c ∙ rw e at moved) in
        there x held (subst (λ v. x.offset ≤ℤ v) new le)
    at_checkpoint last d d' covered grows there (some p) e moved x c held at_c le =
        let new : c ≡ max_ℤ p last = some_injective (sym at_c ∙ rw e at moved) in
        elim (le-max x.offset p last (subst (λ v. x.offset ≤ℤ v) new le)) [
          | inl old ↦ Stored-Grows env d d' x grows (covered x p held e old)
          | inr within ↦ there x held within
        ]

    -- A batch from the first record that may be missing keeps all covered.
    pub batch-Covered :
        (rs : List ConsumerRecord) (last : ℤ) (d d' : Db)
        → batch_effect env tp rs last d ≡ ok d'
        → ((x : ConsumerRecord) → holds x → x.offset ≤ℤ last → Stored env d x ⊎ Among x rs)
        → Covered env tp holds d
        → Covered env tp holds d' × Pending (last +ℤ pos 1) d'
    batch-Covered rs last d d' h all covered =
        let (grows, stored, moved) = batch-Stored rs last d d' h in
        let there = up_to_last last rs d d' all grows stored in
        (
          λ x c held at_c le.
              at_checkpoint last d d' covered grows there (checkpoint_of tp d.checkpoints) refl
                moved x c held at_c le,
          λ x held. elim (le_or_next x.offset last) [
            | inl within ↦ inl (there x held within)
            | inr behind ↦ inr behind
          ],
        )
