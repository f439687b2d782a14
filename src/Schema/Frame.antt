-- ===== src/Schema/Frame.antt =====
-- The statements for one partition leave the others alone, and rows are only added.
use mathlib.Core.Path.{subst}
use ksqlite.Prelude.{
  ◌≡◌, ◌≢◌, refl, sym, ◌∙◌, ap, Bool, true, false, List, [], ◌∷◌, ◌++◌, arith, append-nil,
  append_assoc, if◌then◌else◌, Bool-cases, Option-cases, inl, inr, keep, not,
}
use ksqlite.Prelude.Int.{ℤ, max_ℤ}
use ksqlite.Errors.{ok, ok_injective}
use ksqlite.Types.{TopicPartition, tp_eq, tp_eq_iff}
use ksqlite.World.Related.{IsPreorder}
use ksqlite.Schema.{
  Row, Db, Json, Statement, insert_record, checkpoint_upsert, checkpoint_clamp, owned_insert,
  owned_delete, owned_delete_all, has_id, insert_row, execute_statement, checkpoint_of, upsert,
  is_owned,
}
use ksqlite.Schema.Laws.{checkpoint_of-upsert, is_owned-keep, is_owned-append}

abbrev pub AllFrom : TopicPartition → List Row → Type 0
AllFrom tp [] = Unit
AllFrom tp (r ∷ rs) = (r.source ≡ tp) × AllFrom tp rs

AllFrom-append :
    (tp : TopicPartition) (xs ys : List Row) → AllFrom tp xs → AllFrom tp ys → AllFrom tp (xs ++ ys)
AllFrom-append tp [] ys hx hy = hy
AllFrom-append tp (x ∷ xs) ys hx hy = (hx.0, AllFrom-append tp xs ys hx.1 hy)

-- `d'` differs from `d` at the partition `tp` only, and has all the rows of `d`.
pub record Within (tp : TopicPartition) (d d' : Db) : Type 0 where
  pub owned : (q : TopicPartition) → q ≢ tp → is_owned q d'.owned ≡ is_owned q d.owned
  pub checkpoints :
      (q : TopicPartition) → q ≢ tp → checkpoint_of q d'.checkpoints ≡ checkpoint_of q d.checkpoints
  pub added : List Row
  pub records : d'.records ≡ d.records ++ added
  pub from_tp : AllFrom tp added

pub Within-preorder : (tp : TopicPartition) → IsPreorder (Within tp)
Within-preorder tp = record {
  same = λ d. record {
    owned = λ q h. refl;
    checkpoints = λ q h. refl;
    added = [];
    records = sym (append-nil d.records);
    from_tp = tt;
  };
  then_also = λ a b c h k. record {
    owned = λ q n. k.owned q n ∙ h.owned q n;
    checkpoints = λ q n. k.checkpoints q n ∙ h.checkpoints q n;
    added = h.added ++ k.added;
    records = k.records ∙ ap (λ l. l ++ k.added) h.records ∙ append_assoc a.records h.added k.added;
    from_tp = AllFrom-append tp h.added k.added h.from_tp k.from_tp;
  };
}

module _ (tp : TopicPartition) (d : Db) where
  insert_row-Within : (r : Row) → r.source ≡ tp → Within tp d (insert_row r d)
  unfolding insert_row
  insert_row-Within r e = elim (Bool-cases (has_id r.message_id d.records)) [
    | inl old ↦ rw old ((Within-preorder tp).same d)
    | inr new ↦ rw new (record {
      owned = λ q h. refl;
      checkpoints = λ q h. refl;
      added = r ∷ [];
      records = refl;
      from_tp = (e, tt);
    })
  ]

  upsert-Within :
      (merge : ℤ → ℤ → ℤ) (o : ℤ)
      → Within tp d (record d { checkpoints = upsert merge tp o d.checkpoints })
  upsert-Within merge o = record {
    owned = λ q h. refl;
    checkpoints =
        λ q h. ground (arith, checkpoint_of-upsert merge tp q o d.checkpoints, tp_eq_iff tp q);
    added = [];
    records = sym (append-nil d.records);
    from_tp = tt;
  }

  owned-Within :
      (owned : List TopicPartition)
      → ((q : TopicPartition) → q ≢ tp → is_owned q owned ≡ is_owned q d.owned)
      → Within tp d (record d { owned = owned })
  owned-Within owned h = record {
    owned = h;
    checkpoints = λ q n. refl;
    added = [];
    records = sym (append-nil d.records);
    from_tp = tt;
  }

  owned_insert-Within :
      {q : TopicPartition} (b : Bool)
      → q ≡ tp
      → Within tp d (if b then d else record d { owned = d.owned ++ q ∷ [] })
  owned_insert-Within true f = (Within-preorder tp).same d
  owned_insert-Within {q} false f =
      owned-Within (d.owned ++ q ∷ [])
        (λ r n. ground (arith, is_owned-append q r d.owned, tp_eq_iff q r, f))

-- The partition that a statement is for.
abbrev pub IsFor : TopicPartition → Statement → Type 0
IsFor tp (insert_record r) = r.source ≡ tp
IsFor tp (checkpoint_upsert q o) = q ≡ tp
IsFor tp (checkpoint_clamp q o) = q ≡ tp
IsFor tp (owned_insert q) = q ≡ tp
IsFor tp (owned_delete q) = q ≡ tp
IsFor tp _ = ⊥

pub statement-Within :
    (json : Json) (tp : TopicPartition) (s : Statement) (d d' : Db)
    → IsFor tp s
    → execute_statement json s d ≡ ok d'
    → Within tp d d'
unfolding execute_statement
statement-Within json tp (insert_record r) d d' f h = elim (Option-cases (json r.payload)) [
  | inl bad ↦ cc (rw (bad, execute_statement) at h)
  | inr (payload, good) ↦
      subst (Within tp d) (ok_injective (rw (good, execute_statement) at h))
        (insert_row-Within tp d (record r { payload = payload }) f)
]
statement-Within json tp (checkpoint_upsert q o) d d' f h =
    subst (Within tp d)
      (ap (λ x. record d { checkpoints = upsert max_ℤ x o d.checkpoints }) (sym f) ∙ ok_injective h)
      (upsert-Within tp d max_ℤ o)
statement-Within json tp (checkpoint_clamp q o) d d' f h =
    subst (Within tp d)
      (ap (λ x. record d { checkpoints = upsert (λ old new. new) x o d.checkpoints }) (sym f)
        ∙ ok_injective h)
      (upsert-Within tp d (λ old new. new) o)
statement-Within json tp (owned_insert q) d d' f h =
    subst (Within tp d) (ok_injective h) (owned_insert-Within tp d (is_owned q d.owned) f)
statement-Within json tp (owned_delete q) d d' f h = subst (Within tp d) (ok_injective h) (
    owned-Within tp d (keep (λ r. not (tp_eq r q)) d.owned)
      (λ r n. ground (arith, is_owned-keep q r d.owned, tp_eq_iff q r, f)))
statement-Within json tp owned_delete_all d d' f h = elim f [ ]

-- The statements for a partition that do not touch `_owned`.
abbrev pub IsData : TopicPartition → Statement → Type 0
IsData tp (insert_record r) = r.source ≡ tp
IsData tp (checkpoint_upsert q o) = q ≡ tp
IsData tp (checkpoint_clamp q o) = q ≡ tp
IsData tp _ = ⊥

pub IsData-IsFor : (tp : TopicPartition) (s : Statement) → IsData tp s → IsFor tp s
IsData-IsFor tp (insert_record r) f = f
IsData-IsFor tp (checkpoint_upsert q o) f = f
IsData-IsFor tp (checkpoint_clamp q o) f = f
IsData-IsFor tp _ f = absurd f
