-- ===== src/Batches/Again.antt =====
-- _lifecycle.py, `_materialize_batch`: a batch whose records have been materialized before.
use ksqlite.Prelude.{
  ◌≡◌, refl, sym, ap, ◌∙◌, inl, inr, true, Option, none, some, List, [], ◌∷◌, arith, Option-cases,
}
use mathlib.Core.Path.{subst}
use ksqlite.Prelude.Int.{ℤ, max_ℤ, max_below, right_le_max, ◌≤ℤ◌, int_laws}
use ksqlite.Errors.{ok, parts_of-ok, ◌>>=◌}
use ksqlite.Types.{TopicPartition}
use ksqlite.Wire.{Classified, ksqlite_record, foreign, unknown_version, classify}
use ksqlite.Schema.{
  Row, Db, Json, Checkpoints, has_id, insert_row, insert_record, upsert, checkpoint_of,
  checkpoint_upsert, execute_statement,
}
use ksqlite.Schema.Laws.{merge_into}
use ksqlite.World.{Env, ConsumerRecord}
use ksqlite.Batches.{row_of}
use ksqlite.Batches.Covered.{Among, Stored, batch-Stored}
use ksqlite.Batches.Effect.{classified_effect, record_effect, replay_effect, batch_effect}

inserted-again : (r : Row) (d : Db) → has_id r.message_id d.records ≡ true → insert_row r d ≡ d
unfolding insert_row
inserted-again r d there = rw there refl

-- The insert of a row whose id is stored, where SQLite accepts its payload.
pub stored_again :
    (json : Json) (row : Row) (d d1 d2 : Db)
    → execute_statement json (insert_record row) d1 ≡ ok d2
    → has_id row.message_id d.records ≡ true
    → execute_statement json (insert_record row) d ≡ ok d
unfolding execute_statement
stored_again json row d d1 d2 ran there = elim (Option-cases (json row.payload)) [
  | inl bad ↦ cc (rw (bad, execute_statement) at ran)
  | inr (payload, good) ↦
      rw (execute_statement, good)
        (ap ok (inserted-again (record row { payload = payload }) d there))
]

-- A checkpoint that is not above the stored one is not written.
upsert_again :
    (tp : TopicPartition) (o c : ℤ) (cs : Checkpoints)
    → checkpoint_of tp cs ≡ some c
    → o ≤ℤ c
    → upsert max_ℤ tp o cs ≡ cs
unfolding upsert checkpoint_of
upsert_again tp o c [] at_c le = cc at_c
upsert_again tp o c ((q, p) ∷ cs) at_c le =
    ground (arith, upsert_again tp o c cs, at_c, le, max_below p o)

module _ (env : Env) (tp : TopicPartition) where
  -- The record has been replayed, at some state of the database.
  abbrev Ran : ConsumerRecord → Type 0
  Ran y = (d : Db) × (d' : Db) × (record_effect env tp y d ≡ ok d')

  replay-Ran :
      (xs : List ConsumerRecord) (d d' : Db) (y : ConsumerRecord)
      → replay_effect env tp xs d ≡ ok d'
      → Among y xs
      → Ran y
  unfolding replay_effect
  replay-Ran [] d d' y h among = absurd among
  replay-Ran (x ∷ xs) d d' y h among =
      let (d1, first, rest) = parts_of-ok (record_effect env tp x d) (replay_effect env tp xs) h in
      elim among [
        | inl same ↦ (d, d1, subst (λ z. record_effect env tp z d ≡ ok d1) (sym same) first)
        | inr later ↦ replay-Ran xs d1 d' y rest later
      ]

  -- A record that is stored is passed over, or inserted without effect.
  classified_again :
      (y : ConsumerRecord) (c : Classified) (d d1 d2 : Db)
      → classify env.parsers y.key y.value y.headers ≡ c
      → classified_effect env tp y.offset c d1 ≡ ok d2
      → Stored env d y
      → classified_effect env tp y.offset c d ≡ ok d
  classified_again y (foreign reason) d d1 d2 e ran stored = refl
  classified_again y (unknown_version id version) d d1 d2 e ran stored = cc ran
  classified_again y (ksqlite_record k) d d1 d2 e ran stored =
      stored_again env.json (row_of tp y.offset k) d d1 d2 ran (stored k e)

  again :
      (ys : List ConsumerRecord) (d : Db)
      → ((y : ConsumerRecord) → Among y ys → Ran y × Stored env d y)
      → replay_effect env tp ys d ≡ ok d
  unfolding replay_effect
  again [] d settled = refl
  again (y ∷ ys) d settled =
      let ((d1, d2, ran), stored) = settled y (inl refl) in
      ap (λ r. r >>= replay_effect env tp ys) (classified_again y _ d d1 d2 refl ran stored)
      ∙ again ys d (λ z m. settled z (inr m))

not_above : (o : Option ℤ) (last : ℤ) → last ≤ℤ merge_into max_ℤ o last
not_above none last = omega int_laws
not_above (some p) last = right_le_max p last

-- Where a batch has been materialized, materializing any of its records once more, in any order and any
-- number of times and with a checkpoint that is not greater, leaves the database as it is.
pub batch_effect_again :
    (env : Env) (tp : TopicPartition) (xs ys : List ConsumerRecord) (last last' : ℤ) (d d' : Db)
    → batch_effect env tp xs last d ≡ ok d'
    → ((y : ConsumerRecord) → Among y ys → Among y xs)
    → last' ≤ℤ last
    → batch_effect env tp ys last' d' ≡ ok d'
unfolding batch_effect execute_statement
batch_effect_again env tp xs ys last last' d d' h only le =
    let (d1, ran, upserted) =
      parts_of-ok (replay_effect env tp xs d)
        (execute_statement env.json (checkpoint_upsert tp last)) h in
    let (grows, stored, moved) = batch-Stored env tp xs last d d' h in
    let replayed =
      again env tp ys d'
        (λ y m. (replay-Ran env tp xs d d1 y ran (only y m), stored y (only y m))) in
    ap (λ r. r >>= execute_statement env.json (checkpoint_upsert tp last')) replayed
    ∙ ap (λ (cs : Checkpoints). ok (record d' { checkpoints = cs }))
        (upsert_again tp last' (merge_into max_ℤ (checkpoint_of tp d.checkpoints) last)
          d'.checkpoints moved
          (omega (int_laws, le, not_above (checkpoint_of tp d.checkpoints) last)))
