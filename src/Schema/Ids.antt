-- ===== src/Schema/Ids.antt =====
-- Message ids in `_records`: an id that was stored stays, and an insert stores its own.
use ksqlite.Prelude.{
  ◌≡◌, refl, sym, ap, ◌∙◌, Bool, true, false, ◌||◌, List, [], ◌∷◌, ◌++◌, any_of, any_of-append,
  arith, Bool-cases, Option-cases, inl, inr,
}
use ksqlite.Errors.{ok, ok_injective}
use ksqlite.Text.{Text, text_eq, text_eq_refl}
use ksqlite.Types.{TopicPartition}
use ksqlite.World.Related.{IsPreorder}
use ksqlite.Schema.{Row, Db, Json, has_id, insert_row, insert_record, execute_statement}
use ksqlite.Schema.Frame.{Within}

stored-last : (r : Row) (b : Bool) → (b || (text_eq r.message_id r.message_id || false)) ≡ true
stored-last r true = refl
stored-last r false = rw (text_eq_refl r.message_id) refl

appended : (r : Row) (rows : List Row) → has_id r.message_id (rows ++ r ∷ []) ≡ true
unfolding has_id
appended r rows =
    any_of-append (λ q. text_eq q.message_id r.message_id) rows (r ∷ [])
    ∙ stored-last r (any_of (λ q. text_eq q.message_id r.message_id) rows)

-- After an insert the id is there, and so a second insert does nothing.
pub has_id-insert_row : (r : Row) (d : Db) → has_id r.message_id (insert_row r d).records ≡ true
unfolding insert_row has_id
has_id-insert_row r d = elim (Bool-cases (has_id r.message_id d.records)) [
  | inl there ↦ rw there there
  | inr missing ↦ rw missing (appended r d.records)
]

-- Every stored id stays.
abbrev pub Grows : Db → Db → Type 0
Grows d d' = (i : Text) → has_id i d.records ≡ true → has_id i d'.records ≡ true

pub Grows-preorder : IsPreorder Grows
Grows-preorder = record { same = λ d i h. h; then_also = λ a b c p q i h. q i (p i h) }

pub has_id-append : (i : Text) (xs ys : List Row) → has_id i xs ≡ true → has_id i (xs ++ ys) ≡ true
unfolding has_id
has_id-append i xs ys h = any_of-append (λ r. text_eq r.message_id i) xs ys ∙ rw h refl

pub Within-Grows : {tp : TopicPartition} (d d' : Db) → Within tp d d' → Grows d d'
Within-Grows d d' w i h = ap (has_id i) w.records ∙ has_id-append i d.records w.added h

-- An insert that goes through stores the id and leaves the checkpoints alone.
pub insert_record-stores :
    (json : Json) (r : Row) (d d' : Db)
    → execute_statement json (insert_record r) d ≡ ok d'
    → (has_id r.message_id d'.records ≡ true) × (d'.checkpoints ≡ d.checkpoints)
unfolding execute_statement
insert_record-stores json r d d' h = elim (Option-cases (json r.payload)) [
  | inl bad ↦ cc (rw (bad, execute_statement) at h)
  | inr (payload, good) ↦
      let row : Row = record r { payload = payload } in
      let same : insert_row row d ≡ d' = ok_injective (rw (good, execute_statement) at h) in
      (
        ap (λ x. has_id r.message_id x.records) (sym same) ∙ has_id-insert_row row d,
        ap (λ x. x.checkpoints) (sym same) ∙ insert_row-checkpoints row d,
      )
]
  where
    insert_row-checkpoints : (r : Row) (d : Db) → (insert_row r d).checkpoints ≡ d.checkpoints
    insert_row-checkpoints r d = ground arith
