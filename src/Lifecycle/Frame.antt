-- ===== src/Lifecycle/Frame.antt =====
-- An assignment touches the assigned partitions only, and loses no row.
use ksqlite.Prelude.{
  Each, ℕ, ◌≡◌, refl, sym, ap, ◌∙◌, true, false, List, [], ◌∷◌, ◌++◌, arith, append-nil,
  append_assoc,
}
use ksqlite.Types.{TopicPartition, tp_eq_refl}
use ksqlite.Schema.{Row, Db, Statement, execute_statement, is_owned, checkpoint_of}
use ksqlite.Schema.Frame.{IsFor, Within, AllFrom, statement-Within}
use ksqlite.World.{Env, World}
use ksqlite.World.Related.{IsPreorder}
use ksqlite.Batches.{Settings}
use ksqlite.Batches.Effect.{Through}
use ksqlite.Lifecycle.{on_partitions_assigned}
use ksqlite.Lifecycle.Hooks.{assigned-Ends}

-- Every row is of one of the partitions `tps`.
abbrev pub AllIn : List TopicPartition → List Row → Type 0
AllIn tps [] = Unit
AllIn tps (r ∷ rs) = (is_owned r.source tps ≡ true) × AllIn tps rs

AllIn-append :
    (tps : List TopicPartition) (xs ys : List Row)
    → AllIn tps xs
    → AllIn tps ys
    → AllIn tps (xs ++ ys)
AllIn-append tps [] ys hx hy = hy
AllIn-append tps (x ∷ xs) ys hx hy = (hx.0, AllIn-append tps xs ys hx.1 hy)

AllFrom-AllIn :
    (tp : TopicPartition) (tps : List TopicPartition) (rs : List Row)
    → is_owned tp tps ≡ true
    → AllFrom tp rs
    → AllIn tps rs
AllFrom-AllIn tp tps [] m h = tt
AllFrom-AllIn tp tps (r ∷ rs) m h = (rw h.0 m, AllFrom-AllIn tp tps rs m h.1)

-- `d'` differs from `d` only at the partitions `tps`, and has all the rows of `d`.
pub record Outside (tps : List TopicPartition) (d d' : Db) : Type 0 where
  pub owned :
      (q : TopicPartition) → is_owned q tps ≡ false → is_owned q d'.owned ≡ is_owned q d.owned
  pub checkpoints :
      (q : TopicPartition)
      → is_owned q tps ≡ false
      → checkpoint_of q d'.checkpoints ≡ checkpoint_of q d.checkpoints
  pub added : List Row
  pub records : d'.records ≡ d.records ++ added
  pub from_tps : AllIn tps added

pub Outside-preorder : (tps : List TopicPartition) → IsPreorder (Outside tps)
Outside-preorder tps = record {
  same = λ d. record {
    owned = λ q h. refl;
    checkpoints = λ q h. refl;
    added = [];
    records = sym (append-nil d.records);
    from_tps = tt;
  };
  then_also = λ a b c h k. record {
    owned = λ q n. k.owned q n ∙ h.owned q n;
    checkpoints = λ q n. k.checkpoints q n ∙ h.checkpoints q n;
    added = h.added ++ k.added;
    records = k.records ∙ ap (λ l. l ++ k.added) h.records ∙ append_assoc a.records h.added k.added;
    from_tps = AllIn-append tps h.added k.added h.from_tps k.from_tps;
  };
}

Within-Outside :
    (tp : TopicPartition) (tps : List TopicPartition) (d d' : Db)
    → is_owned tp tps ≡ true
    → Within tp d d'
    → Outside tps d d'
Within-Outside tp tps d d' m h = record {
  owned = λ q n. h.owned q (λ e. cc (e, m, n));
  checkpoints = λ q n. h.checkpoints q (λ e. cc (e, m, n));
  added = h.added;
  records = h.records;
  from_tps = AllFrom-AllIn tp tps h.added m h.from_tp;
}

statement-Outside :
    (env : Env) (tps : List TopicPartition) (tp : TopicPartition)
    → is_owned tp tps ≡ true
    → (s : Statement) → IsFor tp s
    → Through (Outside tps) (execute_statement env.json s)
statement-Outside env tps tp m s f = record {
  step = λ d d' h. Within-Outside tp tps d d' m (statement-Within env.json tp s d d' f h);
}

-- Every partition of `todo` is one of `tps`.
abbrev AllOf : List TopicPartition → List TopicPartition → Type 0
AllOf tps todo = Each (λ q. is_owned q tps ≡ true) todo

AllOf-more :
    (q : TopicPartition) (tps todo : List TopicPartition) → AllOf tps todo → AllOf (q ∷ tps) todo
unfolding is_owned
AllOf-more q tps [] h = tt
AllOf-more q tps (r ∷ todo) h = (ground (arith, h.0), AllOf-more q tps todo h.1)

self-AllOf : (tps : List TopicPartition) → AllOf tps tps
unfolding is_owned
self-AllOf [] = tt
self-AllOf (q ∷ tps) = (ground (arith, tp_eq_refl q), AllOf-more q tps tps (self-AllOf tps))

-- However an assignment ends, no row is lost, the rows that it adds are of the assigned partitions,
-- and the ownership and the checkpoint of every other partition are what they were.
pub assigned-Outside :
    (env : Env) (cfg : Settings) (fuel : ℕ) (tps : List TopicPartition) (w : World)
    → Outside tps w.db (on_partitions_assigned env cfg fuel tps w).1.db
assigned-Outside env cfg fuel tps w =
    (assigned-Ends env cfg (Outside-preorder tps) (λ q. is_owned q tps ≡ true)
        (statement-Outside env tps) fuel tps (self-AllOf tps)).at
      w
