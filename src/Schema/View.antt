-- ===== src/Schema/View.antt =====
-- _schema.py, the shared DML, as operations on maps: what can be asked of the three tables, whatever
-- the order of their rows.
use ksqlite.Prelude.{
  ◌≡◌, refl, ap, ◌∙◌, Bool, true, false, ◌||◌, Option, none, some, List, [], ◌∷◌, ◌++◌, arith,
  if◌then◌else◌, Bool-cases, Option-cases, inl, inr,
}
use ksqlite.Prelude.Int.{ℤ, max_ℤ}
use ksqlite.Errors.{Result, ok, err, sqlite_failure}
use ksqlite.Text.{Text, text_eq, eq_of_text_eq}
use ksqlite.Types.{TopicPartition, tp_eq, tp_eq_iff}
use ksqlite.Schema.{
  Row, Db, Json, Statement, insert_record, checkpoint_upsert, checkpoint_clamp, owned_insert,
  owned_delete, owned_delete_all, has_id, insert_row, execute_statement, checkpoint_of, is_owned,
}
use ksqlite.Schema.Laws.{merge_into, checkpoint_of-upsert, is_owned-keep, is_owned-append}

-- The row with a message id, the checkpoint and the ownership of a partition.
pub record View : Type 0 where
  pub row : Text → Option Row
  pub checkpoint : TopicPartition → Option ℤ
  pub owned : TopicPartition → Bool

unfoldable pub find_row : Text → List Row → Option Row
find_row id [] = none
find_row id (r ∷ rows) = if text_eq r.message_id id then some r else find_row id rows

abbrev pub view : Db → View
view d = record {
  row = λ id. find_row id d.records;
  checkpoint = λ tp. checkpoint_of tp d.checkpoints;
  owned = λ tp. is_owned tp d.owned;
}

-- A row that is there stays; another one is taken where it has the id that is asked for.
unfoldable pub or_row : Option Row → Text → Row → Option Row
or_row (some old) id r = some old
or_row none id r = if text_eq r.message_id id then some r else none

-- What a statement does to the view: the first row with an id stands, a checkpoint is merged or
-- replaced, ownership is set and cleared.
abbrev pub specified : Json → Statement → View → Result View
specified json (insert_record r) v = elim (json r.payload) [
  | none ↦ err sqlite_failure
  | some payload ↦
      ok (record v { row = λ id. or_row (v.row id) id (record r { payload = payload }) })
]
specified json (checkpoint_upsert tp o) v = ok (record v {
  checkpoint =
      λ q. if tp_eq tp q then some (merge_into max_ℤ (v.checkpoint tp) o) else v.checkpoint q;
})
specified json (checkpoint_clamp tp o) v =
    ok (record v { checkpoint = λ q. if tp_eq tp q then some o else v.checkpoint q })
specified json (owned_insert tp) v = ok (record v { owned = λ q. v.owned q || tp_eq tp q })
specified json (owned_delete tp) v =
    ok (record v { owned = λ q. if tp_eq tp q then false else v.owned q })
specified json owned_delete_all v = ok (record v { owned = λ q. false })

abbrev pub viewed : Result Db → Result View
viewed (ok d) = ok (view d)
viewed (err e) = err e

-- Two views that answer alike are one.
pub View-equal :
    (u v : View)
    → ((id : Text) → u.row id ≡ v.row id)
    → ((tp : TopicPartition) → u.checkpoint tp ≡ v.checkpoint tp)
    → ((tp : TopicPartition) → u.owned tp ≡ v.owned tp)
    → u ≡ v
View-equal u v rows points owned =
    λ j. record { row = λ id. rows id j; checkpoint = λ tp. points tp j; owned = λ tp. owned tp j }

find_row-append :
    (id : Text) (r : Row) (rows : List Row)
    → find_row id (rows ++ r ∷ []) ≡ or_row (find_row id rows) id r
unfolding find_row or_row
find_row-append id r [] = refl
find_row-append id r (q ∷ rows) = ground (arith, find_row-append id r rows)

-- A row with an id is found exactly where the id is there.
found :
    (id : Text) (rows : List Row) → has_id id rows ≡ true → (r : Row) × (find_row id rows ≡ some r)
unfolding has_id find_row
found id [] h = cc h
found id (q ∷ rows) h = elim (Bool-cases (text_eq q.message_id id)) [
  | inl same ↦ (q, rw same refl)
  | inr other ↦ let (r, e) = found id rows (rw other at h) in (r, rw other e)
]

-- A row whose id is there changes no answer.
known :
    (id : Text) (r : Row) (rows : List Row) (o : Option Row)
    → has_id r.message_id rows ≡ true
    → find_row id rows ≡ o
    → o ≡ or_row o id r
unfolding or_row
known id r rows (some old) there e = refl
known id r rows none there e = elim (Bool-cases (text_eq r.message_id id)) [
  | inl same ↦
      let (x, is_x) = found r.message_id rows there in
      cc (e, is_x, ap (λ i. find_row i rows) (eq_of_text_eq r.message_id id same))
  | inr other ↦ rw other refl
]

find_row-insert_row :
    (id : Text) (r : Row) (d : Db)
    → find_row id (insert_row r d).records ≡ or_row (find_row id d.records) id r
unfolding insert_row
find_row-insert_row id r d = elim (Bool-cases (has_id r.message_id d.records)) [
  | inl there ↦ rw there (known id r d.records (find_row id d.records) there refl)
  | inr new ↦ rw new (find_row-append id r d.records)
]

inserted_elsewhere :
    (r : Row) (d : Db)
    → ((insert_row r d).checkpoints ≡ d.checkpoints) × ((insert_row r d).owned ≡ d.owned)
unfolding insert_row
inserted_elsewhere r d = elim (Bool-cases (has_id r.message_id d.records)) [
  | inl there ↦ rw there (refl, refl)
  | inr new ↦ rw new (refl, refl)
]

owned-insert :
    (tp q : TopicPartition) (d : Db)
    → is_owned q (if is_owned tp d.owned then d else record d { owned = d.owned ++ tp ∷ [] }).owned
      ≡ (is_owned q d.owned || tp_eq tp q)
owned-insert tp q d = ground (arith, is_owned-append tp q d.owned, tp_eq_iff tp q)

-- Every statement does to the three tables what the specification says of their view, a refusal of the
-- payload by `json` included: the first row with an id stands, a checkpoint is merged or replaced,
-- ownership is set and cleared, and nothing else changes.
pub viewed-execute_statement :
    (json : Json) (s : Statement) (d : Db)
    → viewed (execute_statement json s d) ≡ specified json s (view d)
unfolding execute_statement
viewed-execute_statement json (insert_record r) d = elim (Option-cases (json r.payload)) [
  | inl bad ↦ rw (execute_statement, viewed, specified, bad) refl
  | inr (payload, good) ↦
      let row : Row = record r { payload = payload } in
      rw (execute_statement, viewed, specified, good)
        (ap ok (
          View-equal _ _ (λ id. find_row-insert_row id row d)
            (λ tp. ap (checkpoint_of tp) (inserted_elsewhere row d).0)
            (λ tp. ap (is_owned tp) (inserted_elsewhere row d).1)))
]
viewed-execute_statement json (checkpoint_upsert tp o) d =
    ap ok (
      View-equal _ _ (λ id. refl) (λ q. checkpoint_of-upsert max_ℤ tp q o d.checkpoints)
        (λ q. refl))
viewed-execute_statement json (checkpoint_clamp tp o) d = ap ok (
    View-equal _ _ (λ id. refl)
      (λ q. checkpoint_of-upsert (λ old new. new) tp q o d.checkpoints ∙ replaced tp q) (λ q. refl))
  where
    latest : (c : Option ℤ) → merge_into (λ old new. new) c o ≡ o
    latest none = refl
    latest (some c) = refl

    replaced :
        (tp q : TopicPartition)
        → (if tp_eq tp q
            then some (merge_into (λ old new. new) (checkpoint_of tp d.checkpoints) o)
            else checkpoint_of q d.checkpoints)
          ≡ (if tp_eq tp q then some o else checkpoint_of q d.checkpoints)
    replaced tp q =
        ap (λ x. if tp_eq tp q then some x else checkpoint_of q d.checkpoints)
          (latest (checkpoint_of tp d.checkpoints))
viewed-execute_statement json (owned_insert tp) d = ap ok (
    View-equal _ _ (λ id. ap (find_row id) (same_rows (is_owned tp d.owned)))
      (λ q. ap (checkpoint_of q) (same_points (is_owned tp d.owned))) (λ q. owned-insert tp q d))
  where
    same_rows :
        (b : Bool) → (if b then d else record d { owned = d.owned ++ tp ∷ [] }).records ≡ d.records
    same_rows true = refl
    same_rows false = refl

    same_points :
        (b : Bool)
        → (if b then d else record d { owned = d.owned ++ tp ∷ [] }).checkpoints ≡ d.checkpoints
    same_points true = refl
    same_points false = refl
viewed-execute_statement json (owned_delete tp) d =
    ap ok (View-equal _ _ (λ id. refl) (λ q. refl) (λ q. is_owned-keep tp q d.owned))
viewed-execute_statement json owned_delete_all d = refl
