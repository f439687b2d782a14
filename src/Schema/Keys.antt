-- ===== src/Schema/Keys.antt =====
-- The keys of the three tables: UNIQUE (message_id), and the two primary keys.
use ksqlite.Prelude.{
  ◌≡◌, refl, ◌∙◌, Bool, true, false, Option, none, some, List, [], ◌∷◌, ◌++◌, arith, if◌then◌else◌,
  Bool-cases, inl, inr, keep, not, any_of-append,
}
use mathlib.Core.Path.{subst}
use ksqlite.Prelude.Int.{ℤ, max_ℤ}
use ksqlite.Errors.{ok, err, ok_injective, sqlite_failure}
use ksqlite.Text.{Text, text_eq, text_eq_iff}
use ksqlite.Types.{TopicPartition, tp_eq, tp_eq_iff}
use ksqlite.World.Related.{IsPreorder}
use ksqlite.Schema.{
  Row, Db, Json, Statement, Checkpoints, insert_record, checkpoint_upsert, checkpoint_clamp,
  owned_insert, owned_delete, owned_delete_all, has_id, insert_row, execute_statement,
  checkpoint_of, upsert, is_owned,
}
use ksqlite.Schema.Laws.{checkpoint_of-upsert, is_owned-keep, is_owned-append}
use ksqlite.Batches.Effect.{Through}

-- No key stands twice.
abbrev pub DistinctIds : List Row → Type 0
DistinctIds [] = Unit
DistinctIds (r ∷ rs) = (has_id r.message_id rs ≡ false) × DistinctIds rs

abbrev pub DistinctKeys : Checkpoints → Type 0
DistinctKeys [] = Unit
DistinctKeys ((q, o) ∷ cs) = (checkpoint_of q cs ≡ none) × DistinctKeys cs

abbrev pub DistinctOwned : List TopicPartition → Type 0
DistinctOwned [] = Unit
DistinctOwned (q ∷ owned) = (is_owned q owned ≡ false) × DistinctOwned owned

abbrev pub IsKeyed : Db → Type 0
IsKeyed d = DistinctIds d.records × DistinctKeys d.checkpoints × DistinctOwned d.owned

-- A step that respects the keys.
abbrev pub RespectsKeys : Db → Db → Type 0
RespectsKeys d d' = IsKeyed d → IsKeyed d'

pub RespectsKeys-preorder : IsPreorder RespectsKeys
RespectsKeys-preorder = record { same = λ d k. k; then_also = λ a b c p q k. q (p k) }

DistinctIds-append :
    (r : Row) (rs : List Row)
    → has_id r.message_id rs ≡ false
    → DistinctIds rs
    → DistinctIds (rs ++ r ∷ [])
unfolding has_id
DistinctIds-append r [] new d = (refl, tt)
DistinctIds-append r (x ∷ rs) new (fresh, d) = (
  any_of-append (λ y. text_eq y.message_id x.message_id) rs (r ∷ [])
      ∙ ground (
        arith,
        fresh,
        new,
        text_eq_iff x.message_id r.message_id,
        text_eq_iff r.message_id x.message_id,
      ),
  DistinctIds-append r rs (ground (arith, new)) d,
)

DistinctKeys-upsert :
    (merge : ℤ → ℤ → ℤ) (tp : TopicPartition) (o : ℤ) (cs : Checkpoints)
    → DistinctKeys cs
    → DistinctKeys (upsert merge tp o cs)
unfolding upsert checkpoint_of
DistinctKeys-upsert merge tp o [] d = (refl, tt)
DistinctKeys-upsert merge tp o ((q, p) ∷ cs) (fresh, d) = elim (Bool-cases (tp_eq q tp)) [
  | inl same ↦ rw same (fresh, d)
  | inr other ↦ rw other (
    checkpoint_of-upsert merge tp q o cs
        ∙ ground (arith, fresh, other, tp_eq_iff q tp, tp_eq_iff tp q),
    DistinctKeys-upsert merge tp o cs d,
  )
]

DistinctOwned-append :
    (tp : TopicPartition) (owned : List TopicPartition)
    → is_owned tp owned ≡ false
    → DistinctOwned owned
    → DistinctOwned (owned ++ tp ∷ [])
unfolding is_owned
DistinctOwned-append tp [] new d = (refl, tt)
DistinctOwned-append tp (q ∷ owned) new (fresh, d) = (
  is_owned-append tp q owned ∙ ground (arith, fresh, new, tp_eq_iff q tp, tp_eq_iff tp q),
  DistinctOwned-append tp owned (ground (arith, new)) d,
)

DistinctOwned-keep :
    (tp : TopicPartition) (owned : List TopicPartition)
    → DistinctOwned owned
    → DistinctOwned (keep (λ q. not (tp_eq q tp)) owned)
DistinctOwned-keep tp [] d = tt
DistinctOwned-keep tp (q ∷ owned) (fresh, d) = elim (Bool-cases (tp_eq q tp)) [
  | inl same ↦ rw same (DistinctOwned-keep tp owned d)
  | inr other ↦
      rw other (is_owned-keep tp q owned ∙ ground (arith, fresh), DistinctOwned-keep tp owned d)
]

insert_row-IsKeyed : (r : Row) (d : Db) → IsKeyed d → IsKeyed (insert_row r d)
unfolding insert_row
insert_row-IsKeyed r d (ids, keys, owned) = elim (Bool-cases (has_id r.message_id d.records)) [
  | inl old ↦ rw old (ids, keys, owned)
  | inr new ↦ rw new (DistinctIds-append r d.records new ids, keys, owned)
]

-- Every statement respects the keys.
pub statement-RespectsKeys :
    (json : Json) (s : Statement) → Through RespectsKeys (execute_statement json s)
unfolding execute_statement
statement-RespectsKeys json s = record { step = λ d d' h k. by_statement s d d' h k }
  where
    moved : {d d' : Db} → ok d ≡ ok d' → IsKeyed d → IsKeyed d'
    moved h k = subst IsKeyed (ok_injective h) k

    inserted :
        (r : Row) (payload : Option Text) (d d' : Db)
        → (elim payload [
          | none ↦ err sqlite_failure
          | some p ↦ ok (insert_row (record r { payload = p }) d)
        ])
          ≡ ok d'
        → IsKeyed d
        → IsKeyed d'
    inserted r none d d' h k = cc h
    inserted r (some p) d d' h k = moved h (insert_row-IsKeyed (record r { payload = p }) d k)

    shown :
        (tp : TopicPartition) (d : Db) (b : Bool)
        → is_owned tp d.owned ≡ b
        → IsKeyed d
        → IsKeyed (if b then d else record d { owned = d.owned ++ tp ∷ [] })
    shown tp d true e k = k
    shown tp d false e (ids, keys, owned) = (ids, keys, DistinctOwned-append tp d.owned e owned)

    by_statement :
        (s : Statement) (d d' : Db) → execute_statement json s d ≡ ok d' → IsKeyed d → IsKeyed d'
    by_statement (insert_record r) d d' h k = inserted r (json r.payload) d d' h k
    by_statement (checkpoint_upsert tp o) d d' h (ids, keys, owned) =
        moved h (ids, DistinctKeys-upsert max_ℤ tp o d.checkpoints keys, owned)
    by_statement (checkpoint_clamp tp o) d d' h (ids, keys, owned) =
        moved h (ids, DistinctKeys-upsert (λ old new. new) tp o d.checkpoints keys, owned)
    by_statement (owned_insert tp) d d' h k = moved h (shown tp d (is_owned tp d.owned) refl k)
    by_statement (owned_delete tp) d d' h (ids, keys, owned) =
        moved h (ids, keys, DistinctOwned-keep tp d.owned owned)
    by_statement owned_delete_all d d' h (ids, keys, owned) = moved h (ids, keys, tt)
