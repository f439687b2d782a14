-- ===== src/Batches/Rows.antt =====
-- _lifecycle.py, the loop of `_materialize_batch`: the rows that its records leave.
use ksqlite.Prelude.{◌≡◌, refl, sym, ap, ◌∙◌, Option, none, some, List, [], ◌∷◌}
use mathlib.Core.Path.{subst}
use ksqlite.Prelude.Int.{ℤ}
use ksqlite.Errors.{ok, ok_injective, parts_of-ok}
use ksqlite.Text.{Text}
use ksqlite.Types.{TopicPartition}
use ksqlite.Wire.{Classified, ksqlite_record, foreign, unknown_version, classify}
use ksqlite.Schema.{Row, Db, insert_record, execute_statement}
use ksqlite.Schema.View.{View, view, or_row, specified, viewed, viewed-execute_statement}
use ksqlite.World.{Env, ConsumerRecord}
use ksqlite.Batches.{row_of}
use ksqlite.Batches.Covered.{Among}
use ksqlite.Batches.Effect.{classified_effect, record_effect, replay_effect}

-- The row that a record leaves: none for a foreign one and for a payload that SQLite refuses.
abbrev pub parsed_row : Row → Option Text → Option Row
parsed_row r none = none
parsed_row r (some payload) = some (record r { payload = payload })

abbrev pub classified_row : Env → TopicPartition → ℤ → Classified → Option Row
classified_row env tp offset (ksqlite_record k) =
    parsed_row (row_of tp offset k) (env.json k.payload)
classified_row env tp offset _ = none

abbrev pub stored_row : Env → TopicPartition → ConsumerRecord → Option Row
stored_row env tp x = classified_row env tp x.offset (classify env.parsers x.key x.value x.headers)

-- Two records of the list that leave rows with one message id are the same record.
abbrev pub HaveOwnIds : Env → TopicPartition → List ConsumerRecord → Type 0
HaveOwnIds env tp xs =
    (x y : ConsumerRecord) (r s : Row)
    → Among x xs
    → Among y xs
    → stored_row env tp x ≡ some r
    → stored_row env tp y ≡ some s
    → r.message_id ≡ s.message_id
    → x ≡ y

pub row_id : {s : Row} (r : Row) → some s ≡ some r → s.message_id ≡ r.message_id
row_id r e = cc e

-- What a row, if there is one, changes of the answer for an id.
abbrev pub taken : Option Row → Text → Option Row → Option Row
taken o id none = o
taken o id (some r) = or_row o id r

abbrev pub taken_all : Env → TopicPartition → Text → List ConsumerRecord → Option Row → Option Row
taken_all env tp id [] o = o
taken_all env tp id (x ∷ xs) o = taken_all env tp id xs (taken o id (stored_row env tp x))

module _ (env : Env) (tp : TopicPartition) where
  -- One record leaves all but the rows.
  abbrev pub Replayed : View → (Text → Option Row) → View → Type 0
  Replayed v row v' =
      ((id : Text) → v'.row id ≡ row id)
      × ((q : TopicPartition) → v'.checkpoint q ≡ v.checkpoint q)
      × ((q : TopicPartition) → v'.owned q ≡ v.owned q)

  inserted :
      (r : Row) (d d' : Db)
      → execute_statement env.json (insert_record r) d ≡ ok d'
      → Replayed
          (view d)
          (λ id. taken ((view d).row id) id (parsed_row r (env.json r.payload)))
          (view d')
  inserted r d d' h =
      by_json (env.json r.payload) refl
        (sym (viewed-execute_statement env.json (insert_record r) d) ∙ ap viewed h)
    where
      by_json :
          (o : Option Text)
          → env.json r.payload ≡ o
          → specified env.json (insert_record r) (view d) ≡ ok (view d')
          → Replayed
              (view d)
              (λ id. taken ((view d).row id) id (parsed_row r (env.json r.payload)))
              (view d')
      by_json none e same = cc (rw (specified, e) at same)
      by_json (some p) e same =
          let is_view = ok_injective (rw (specified, e) at same) in
          (
            λ id. rw e (ap (λ (v : View). v.row id) (sym is_view)),
            λ q. ap (λ (v : View). v.checkpoint q) (sym is_view),
            λ q. ap (λ (v : View). v.owned q) (sym is_view),
          )

  recorded :
      (offset : ℤ) (c : Classified) (d d' : Db)
      → classified_effect env tp offset c d ≡ ok d'
      → Replayed
          (view d)
          (λ id. taken ((view d).row id) id (classified_row env tp offset c))
          (view d')
  recorded offset (foreign reason) d d' h =
      subst (λ x. Replayed (view d) (λ id. (view d).row id) (view x)) (ok_injective h)
        ((λ id. refl), (λ q. refl), (λ q. refl))
  recorded offset (unknown_version id version) d d' h = cc h
  recorded offset (ksqlite_record k) d d' h = inserted (row_of tp offset k) d d' h

  pub replayed :
      (xs : List ConsumerRecord) (d d' : Db)
      → replay_effect env tp xs d ≡ ok d'
      → Replayed (view d) (λ id. taken_all env tp id xs ((view d).row id)) (view d')
  unfolding replay_effect
  replayed [] d d' h =
      subst (λ x. Replayed (view d) (λ id. (view d).row id) (view x)) (ok_injective h)
        ((λ id. refl), (λ q. refl), (λ q. refl))
  replayed (x ∷ xs) d d' h =
      let (d1, first, rest) = parts_of-ok (record_effect env tp x d) (replay_effect env tp xs) h in
      let (rows, points, owned) =
        recorded x.offset (classify env.parsers x.key x.value x.headers) d d1 first in
      let (rows2, points2, owned2) = replayed xs d1 d' rest in
      (
        λ id. rows2 id ∙ ap (taken_all env tp id xs) (rows id),
        λ q. points2 q ∙ points q,
        λ q. owned2 q ∙ owned q,
      )
