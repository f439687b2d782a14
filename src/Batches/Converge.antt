-- ===== src/Batches/Converge.antt =====
-- _lifecycle.py, the work of `_materialize_batch`, over records that come in another order or more than
-- once.
use ksqlite.Prelude.{
  ◌≡◌, refl, sym, ap, ◌∙◌, inl, inr, false, Option, none, some, List, [], ◌∷◌, Bool-cases,
  if◌then◌else◌,
}
use mathlib.Core.Path.{subst}
use ksqlite.Errors.{ok, ok_injective, parts_of-ok}
use ksqlite.Text.{Text, text_eq, text_eq_iff}
use ksqlite.Types.{TopicPartition}
use ksqlite.Prelude.Int.{max_ℤ}
use ksqlite.Schema.{Row, Db, checkpoint_of, checkpoint_upsert}
use ksqlite.Schema.Laws.{merge_into}
use ksqlite.Batches.{last_offset}
use ksqlite.Schema.View.{
  View, view, viewed, specified, or_row, View-equal, viewed-execute_statement,
}
use ksqlite.World.{Env, ConsumerRecord}
use ksqlite.Batches.Covered.{Among, batch-Stored}
use ksqlite.Batches.Effect.{replay_effect, batch_effect}
use ksqlite.Batches.Rows.{stored_row, HaveOwnIds, taken, taken_all, row_id, replayed}

module _ (env : Env) (tp : TopicPartition) where
  -- The row that the records bring for an id stays what it is.
  keeps_old :
      (id : Text) (xs : List ConsumerRecord) (old : Row)
      → taken_all env tp id xs (some old) ≡ some old
  unfolding or_row
  keeps_old id [] old = refl
  keeps_old id (x ∷ xs) old =
      ap (taken_all env tp id xs) (kept (stored_row env tp x)) ∙ keeps_old id xs old
    where
      kept : (o : Option Row) → taken (some old) id o ≡ some old
      kept none = refl
      kept (some r) = refl

  -- The record `x` of the list leaves the row `r`, and that has the id.
  abbrev Brings : Text → List ConsumerRecord → Row → Type 0
  Brings id xs r =
      (x : ConsumerRecord) × Among x xs × (stored_row env tp x ≡ some r) × (r.message_id ≡ id)

  later_Brings :
      (id : Text) (x : ConsumerRecord) (xs : List ConsumerRecord) (r : Row)
      → Brings id xs r
      → Brings id (x ∷ xs) r
  later_Brings id x xs r (y, among, leaves, same) = (y, inr among, leaves, same)

  taken-Brings :
      (id : Text) (xs : List ConsumerRecord) (r : Row)
      → taken_all env tp id xs none ≡ some r
      → Brings id xs r
  unfolding or_row
  taken-Brings id [] r h = cc h
  taken-Brings id (x ∷ xs) r h = by_row (taken-Brings id xs) (stored_row env tp x) refl h
    where
      by_row :
          ((r : Row) → taken_all env tp id xs none ≡ some r → Brings id xs r)
          → (o : Option Row) → stored_row env tp x ≡ o
          → taken_all env tp id xs (taken none id o) ≡ some r
          → Brings id (x ∷ xs) r
      by_row later none e h = later_Brings id x xs r (later r h)
      by_row later (some s) e h = elim (Bool-cases (text_eq s.message_id id)) [
        | inl same ↦
            let is_s : some s ≡ some r =
              sym (keeps_old id xs s)
              ∙ subst (λ b. taken_all env tp id xs (if b then some s else none) ≡ some r) same h in
            (x, inl refl, e ∙ is_s, sym (row_id r is_s) ∙ (text_eq_iff s.message_id id).0 same)
        | inr other ↦ later_Brings id x xs r (
            later r
              (subst (λ b. taken_all env tp id xs (if b then some s else none) ≡ some r) other h))
      ]

  Brings-taken :
      (id : Text) (xs : List ConsumerRecord) (r : Row)
      → Brings id xs r
      → (s : Row) × (taken_all env tp id xs none ≡ some s)
  unfolding or_row
  Brings-taken id [] r (x, among, leaves, same) = absurd among
  Brings-taken id (y ∷ xs) r (x, among, leaves, same) =
      by_row (Brings-taken id xs) (stored_row env tp y) refl
    where
      by_row :
          ((r : Row) → Brings id xs r → (s : Row) × (taken_all env tp id xs none ≡ some s))
          → (o : Option Row) → stored_row env tp y ≡ o
          → (s : Row) × (taken_all env tp id xs (taken none id o) ≡ some s)
      by_row rest none e = elim among [
        | inl first ↦ cc (e, leaves, ap (stored_row env tp) first)
        | inr later ↦ rest r (x, later, leaves, same)
      ]
      by_row rest (some s) e = elim (Bool-cases (text_eq s.message_id id)) [
        | inl own_id ↦ (
          s,
          subst (λ b. taken_all env tp id xs (if b then some s else none) ≡ some s) (sym own_id)
              (keeps_old id xs s),
        )
        | inr other ↦ elim among [
          | inl first ↦ absurd (not_other s e other first)
          | inr later ↦
              let (q, is_q) = rest r (x, later, leaves, same) in
              (
                q,
                subst (λ b. taken_all env tp id xs (if b then some s else none) ≡ some q)
                    (sym other) is_q,
              )
        ]
      ]
        where
          not_other :
              (s : Row) → stored_row env tp y ≡ some s → text_eq s.message_id id ≡ false → x ≡ y → ⊥
          not_other s e other first =
              let is_r : some s ≡ some r = sym e ∙ ap (stored_row env tp) (sym first) ∙ leaves in
              cc (other, (text_eq_iff s.message_id id).1 (row_id r is_r ∙ same))

  -- Two lists of the same records bring the same row.
  same_taken :
      (id : Text) (xs ys : List ConsumerRecord)
      → HaveOwnIds env tp xs
      → ((x : ConsumerRecord) → Among x xs → Among x ys)
      → ((x : ConsumerRecord) → Among x ys → Among x xs)
      → taken_all env tp id xs none ≡ taken_all env tp id ys none
  same_taken id xs ys own to from =
      by_rows (taken_all env tp id xs none) (taken_all env tp id ys none) refl refl
    where
      over : (r : Row) → Brings id xs r → Brings id ys r
      over r (x, among, leaves, same) = (x, to x among, leaves, same)

      back : (r : Row) → Brings id ys r → Brings id xs r
      back r (x, among, leaves, same) = (x, from x among, leaves, same)

      one : (r s : Row) → Brings id xs r → Brings id xs s → some r ≡ some s
      one r s (x, x_in, x_leaves, x_id) (y, y_in, y_leaves, y_id) =
          let same = own x y r s x_in y_in x_leaves y_leaves (x_id ∙ sym y_id) in
          sym x_leaves ∙ ap (stored_row env tp) same ∙ y_leaves

      by_rows :
          (o p : Option Row)
          → taken_all env tp id xs none ≡ o
          → taken_all env tp id ys none ≡ p
          → o ≡ p
      by_rows none none e f = refl
      by_rows (some r) none e f =
          let (s, is_s) = Brings-taken id ys r (over r (taken-Brings id xs r e)) in cc (f, is_s)
      by_rows none (some r) e f =
          let (s, is_s) = Brings-taken id xs r (back r (taken-Brings id ys r f)) in cc (e, is_s)
      by_rows (some r) (some s) e f =
          one r s (taken-Brings id xs r e) (back s (taken-Brings id ys s f))

  same_taken_all :
      (id : Text) (xs ys : List ConsumerRecord) (o : Option Row)
      → HaveOwnIds env tp xs
      → ((x : ConsumerRecord) → Among x xs → Among x ys)
      → ((x : ConsumerRecord) → Among x ys → Among x xs)
      → taken_all env tp id xs o ≡ taken_all env tp id ys o
  same_taken_all id xs ys none own to from = same_taken id xs ys own to from
  same_taken_all id xs ys (some old) own to from = keeps_old id xs old ∙ sym (keeps_old id ys old)

-- The inserts of the same records, in any order and with any repetitions, take databases that answer
-- alike to such.
replay_effect-view :
    (env : Env) (tp : TopicPartition) (xs ys : List ConsumerRecord) (d d' e e' : Db)
    → HaveOwnIds env tp xs
    → ((x : ConsumerRecord) → Among x xs → Among x ys)
    → ((x : ConsumerRecord) → Among x ys → Among x xs)
    → view d ≡ view e
    → replay_effect env tp xs d ≡ ok d'
    → replay_effect env tp ys e ≡ ok e'
    → view d' ≡ view e'
replay_effect-view env tp xs ys d d' e e' own to from alike left right =
    let (rows, points, owned) = replayed env tp xs d d' left in
    let (rows2, points2, owned2) = replayed env tp ys e e' right in
    View-equal (view d') (view e')
      (λ id.
        rows id
        ∙ same_taken_all env tp id xs ys ((view d).row id) own to from
        ∙ ap (λ (v : View). taken_all env tp id ys (v.row id)) alike
        ∙ sym (rows2 id))
      (λ q. points q ∙ ap (λ (v : View). v.checkpoint q) alike ∙ sym (points2 q))
      (λ q. owned q ∙ ap (λ (v : View). v.owned q) alike ∙ sym (owned2 q))

-- Two batches of the same records, each in any order and with any repetitions, the last records of which
-- have one offset, and that both go through, leave databases that answer alike, if they start from
-- such: under each message id the same row, and for each partition the same checkpoint and ownership;
-- the checkpoint of the batch's partition is then the greater of the stored one and that offset.
-- Records with one message id are one record.
pub batch_effect-view :
    (env : Env) (tp : TopicPartition) (c c2 : ConsumerRecord) (cs cs2 : List ConsumerRecord)
    (d d' e e' : Db)
    → HaveOwnIds env tp (c ∷ cs)
    → ((x : ConsumerRecord) → Among x (c ∷ cs) → Among x (c2 ∷ cs2))
    → ((x : ConsumerRecord) → Among x (c2 ∷ cs2) → Among x (c ∷ cs))
    → last_offset c cs ≡ last_offset c2 cs2
    → view d ≡ view e
    → batch_effect env tp (c ∷ cs) (last_offset c cs) d ≡ ok d'
    → batch_effect env tp (c2 ∷ cs2) (last_offset c2 cs2) e ≡ ok e'
    → (view d' ≡ view e')
      × (checkpoint_of tp d'.checkpoints
          ≡ some (merge_into max_ℤ (checkpoint_of tp d.checkpoints) (last_offset c cs)))
unfolding batch_effect
batch_effect-view env tp c c2 cs cs2 d d' e e' own to from ends alike left right =
    let (d1, ran, upserted) = parts_of-ok (replay_effect env tp (c ∷ cs) d) _ left in
    let (e1, ran2, upserted2) = parts_of-ok (replay_effect env tp (c2 ∷ cs2) e) _ right in
    let same = replay_effect-view env tp (c ∷ cs) (c2 ∷ cs2) d d1 e e1 own to from alike ran ran2 in
    (
      ok_injective (
          ap viewed (sym upserted)
          ∙ viewed-execute_statement env.json (checkpoint_upsert tp (last_offset c cs)) d1
          ∙ ap (λ (v : View). specified env.json (checkpoint_upsert tp (last_offset c cs)) v) same
          ∙ ap (λ last. specified env.json (checkpoint_upsert tp last) (view e1)) ends
          ∙ sym (viewed-execute_statement env.json (checkpoint_upsert tp (last_offset c2 cs2)) e1)
          ∙ ap viewed upserted2),
      (batch-Stored env tp (c ∷ cs) (last_offset c cs) d d' left).2,
    )
