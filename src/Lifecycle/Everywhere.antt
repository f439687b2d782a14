-- ===== src/Lifecycle/Everywhere.antt =====
-- _lifecycle.py, the parts of an assignment: the records that are stored, for all partitions at once.
use ksqlite.Prelude.{ℕ, ◌≡◌, ◌≢◌, refl, sym, ◌∙◌, true, inl, inr, Bool-cases}
use mathlib.Core.Path.{subst}
use ksqlite.Errors.{Result, ok, err}
use ksqlite.Text.{Text}
use ksqlite.Types.{TopicPartition, tp_eq, tp_eq_iff, tp_eq_refl}
use ksqlite.Schema.{Db, Statement, owned_insert, execute_statement}
use ksqlite.Schema.Frame.{IsFor, IsData-IsFor, Within, Within-preorder, statement-Within}
use ksqlite.Schema.Ids.{Within-Grows}
use ksqlite.World.{Env, World, Exec, ConsumerRecord, lift, caught}
use ksqlite.World.Related.{OnDb}
use ksqlite.World.Triple.{
  Leaves, Triple, Triple-pure, Triple-weaken, Triple-if, Triple-call, Triple-bind,
}
use ksqlite.Batches.{Settings, reveal, execute_in_txn}
use ksqlite.Batches.Covered.{IsHonest, Stored-Grows, Covered}
use ksqlite.Batches.Effect.{Through}
use ksqlite.Replay.Covered.{Safe, execute_in_txn-Triple, revealed-Covered}
use ksqlite.Topics.{changelog_name, ensure_and_verify, step_zero, is_kafka, as_rehydrate_error}
use ksqlite.Lifecycle.{rehydrate_one, reveal_partial_unreached}
use ksqlite.Lifecycle.Related.{rehydrate_one-Ends, reveal_partial_unreached-Ends}
use ksqlite.Lifecycle.Clamped.{read_checkpoint-Triple}
use ksqlite.Lifecycle.CaughtUp.{seed_checkpoint-Triple, get_consumer-Triple, rehydrate_one-Covered}
use ksqlite.Lifecycle.Verified.{step_zero-Calm}
use ksqlite.Lifecycle.Rules.{Rules, db_rules}

-- The changelog of one partition moves, the other partitions keep their checkpoints and all rows.
Within-Covered :
    (env : Env) (tp q : TopicPartition) (holds : ConsumerRecord → Type 0) (d d' : Db)
    → q ≢ tp
    → Within tp d d'
    → Covered env q holds d
    → Covered env q holds d'
Within-Covered env tp q holds d d' other w covered x c held at_c le =
    Stored-Grows env d d' x (Within-Grows d d' w)
      (covered x c held (sym (w.checkpoints q other) ∙ at_c) le)

-- Each partition has its changelog: `holds tp` are the records that it holds.
module _ (env : Env) (cfg : Settings) (holds : TopicPartition → ConsumerRecord → Type 0) where
  abbrev pub AllCovered : Db → Type 0
  AllCovered d = (q : TopicPartition) → Covered env q (holds q) d

  pub across :
      (tp : TopicPartition) (d d' : Db)
      → Within tp d d'
      → Covered env tp (holds tp) d'
      → AllCovered d
      → AllCovered d'
  across tp d d' w own all q = elim (Bool-cases (tp_eq q tp)) [
    | inl same ↦ subst (λ t. Covered env t (holds t) d') (sym ((tp_eq_iff q tp).0 same)) own
    | inr other ↦
        Within-Covered env tp q (holds q) d d'
          (λ e. cc (other, subst (λ t. tp_eq q t ≡ true) e (tp_eq_refl q))) w (all q)
  ]

  stmt-Within :
      (tp : TopicPartition) (s : Statement)
      → IsFor tp s
      → Through (Within tp) (execute_statement env.json s)
  stmt-Within tp s f = record { step = λ d d' h. statement-Within env.json tp s d d' f h }

  pub within : (tp : TopicPartition) → Rules env cfg tp (IsFor tp) (OnDb (Within tp))
  within tp = db_rules env cfg tp (Within-preorder tp) (IsData-IsFor tp) (stmt-Within tp)

  abbrev pub All : World → Type 0
  All w = AllCovered w.db

  leaves : {A : Type 0} (x : Result A × World) → AllCovered x.1.db → Leaves (λ u. All) All x
  leaves (ok u, w) all = all
  leaves (err e, w) all = all

  pub rehydrate_one-All :
      (tp : TopicPartition) (name : Text) (fuel deadline : ℕ)
      → IsHonest env name (holds tp)
      → Triple All (λ u. All) All (rehydrate_one env cfg fuel tp name deadline)
  rehydrate_one-All tp name fuel deadline honest = record {
    run = λ w all. leaves (rehydrate_one env cfg fuel tp name deadline w) (
        across tp w.db (rehydrate_one env cfg fuel tp name deadline w).1.db
          ((rehydrate_one-Ends env cfg tp (within tp) fuel name deadline).at w)
          (rehydrate_one-Covered env cfg fuel tp name deadline (holds tp) w honest (all tp)) all);
  }

  abbrev SafeAt : TopicPartition → World → Type 0
  SafeAt tp = Safe env cfg tp (holds tp)

  abbrev Own : TopicPartition → Db → Type 0
  Own tp = Covered env tp (holds tp)

  -- The reveal of a partition that the deadline left out.
  reveal_partial-Triple :
      (tp : TopicPartition) (name : Text)
      → Triple (SafeAt tp) (λ u. SafeAt tp) (SafeAt tp) (reveal_partial_unreached env cfg tp name)
  unfolding reveal_partial_unreached reveal
  reveal_partial-Triple tp name =
      Triple-bind {Q = λ u. SafeAt tp} _ _
        (get_consumer-Triple env cfg tp (holds tp) (Own tp) (λ d p. p))
        λ u.
          Triple-bind {Q = λ leo. SafeAt tp} _ _ (Triple-call _ (λ w leo e p. p) (λ w p. p)) λ leo.
            Triple-bind {Q = λ u. SafeAt tp} _ _ (record { run = λ w p. p })
              λ u.
                Triple-bind _ _
                  (Triple-weaken (λ w p. (p, tt))
                    (read_checkpoint-Triple env cfg tp (holds tp) (Own tp) (λ m. Unit) (λ d p. p)))
                  λ c. Triple-bind _ _ (seed_checkpoint-Triple env cfg tp (holds tp) c) λ u.
                    Triple-bind {Q = λ u. SafeAt tp} _ _ (record { run = λ w p. p.0 })
                      λ u. record { run = λ w p. shown _ (showing.run w (p, tt)) }
    where
      showing :
          Triple
            (λ w. Own tp w.db × Unit)
            (λ u w. Own tp w.db × Unit)
            (SafeAt tp)
            (execute_in_txn env cfg (owned_insert tp))
      showing =
          execute_in_txn-Triple env cfg tp (holds tp) (owned_insert tp) (Own tp) (Own tp)
            (λ m. Unit) (revealed-Covered env cfg tp (holds tp)) (λ d p. p) (λ d p. p)

      shown :
          (x : Result (Unit {0}) × World)
          → Leaves (λ u w. Own tp w.db × Unit) (SafeAt tp) x
          → Leaves (λ u. SafeAt tp) (SafeAt tp) x
      shown (ok u, w) p = p.0
      shown (err e, w) p = p

  reveal_partial-Covered :
      (tp : TopicPartition) (name : Text) (w : World)
      → Covered env tp (holds tp) w.db
      → Covered env tp (holds tp) (reveal_partial_unreached env cfg tp name w).1.db
  reveal_partial-Covered tp name w covered =
      either _ ((reveal_partial-Triple tp name).run w covered)
    where
      either :
          (x : Result (Unit {0}) × World)
          → Leaves (λ u w. Safe env cfg tp (holds tp) w) (Safe env cfg tp (holds tp)) x
          → Covered env tp (holds tp) x.1.db
      either (ok u, w) p = p
      either (err e, w) p = p

  pub reveal_partial-All :
      (tp : TopicPartition) (name : Text)
      → Triple All (λ u. All) All (reveal_partial_unreached env cfg tp name)
  reveal_partial-All tp name = record {
    run = λ w all. leaves (reveal_partial_unreached env cfg tp name w) (
        across tp w.db (reveal_partial_unreached env cfg tp name w).1.db
          ((reveal_partial_unreached-Ends env cfg tp (within tp) name).at w)
          (reveal_partial-Covered tp name w (all tp)) all);
  }

  -- What leaves the database alone.
  pub still-All :
      {A : Type 0} (m : Exec A) → ((w : World) → (m w).1.db ≡ w.db) → Triple All (λ a. All) All m
  still-All m same = record { run = λ w all. leaves (m w) (subst AllCovered (sym (same w)) all) }

  -- A fact about no world can stand in front of a method.
  pub given :
      {A : Type 0} {E : Type 0} {Pre F : World → Type 0} {P : A → World → Type 0} {m : Exec A}
      → (E → Triple Pre P F m)
      → Triple (λ w. Pre w × E) P F m
  given h = record { run = λ w (p, e). (h e).run w p }

  abbrev pub IsName : TopicPartition → Text → Type 0
  IsName tp name = changelog_name env cfg.topics tp ≡ ok name

  named-All :
      (tp : TopicPartition)
      → Triple All (λ name w. All w × IsName tp name) All (lift (changelog_name env cfg.topics tp))
  named-All tp = record { run = λ w all. by_result w (changelog_name env cfg.topics tp) refl all }
    where
      by_result :
          (w : World) (r : Result Text)
          → changelog_name env cfg.topics tp ≡ r
          → All w
          → Leaves (λ name w. All w × IsName tp name) All (r, w)
      by_result w (ok name) e all = (all, e)
      by_result w (err x) e all = all

  step_zero-same : (name : Text) (w : World) → (step_zero env cfg.topics name w).1.db ≡ w.db
  step_zero-same name w = ((step_zero-Calm env cfg.topics name).at w).0

  pub verified-All :
      (tp : TopicPartition)
      → Triple All (λ name w. All w × IsName tp name) All (ensure_and_verify env cfg.topics tp)
  unfolding ensure_and_verify
  verified-All tp = Triple-bind _ _ (named-All tp) λ name. given λ is_name.
      Triple-bind {Q = λ known. All} _ _ (still-All _ (λ w. refl)) λ known.
        Triple-if known _ _ (Triple-pure name (λ w all. (all, is_name))) (
          Triple-bind {Q = λ u. All} _ _
            (still-All _ (λ w. handled w (step_zero env cfg.topics name w) (step_zero-same name w)))
            λ u.
              Triple-bind {Q = λ u. All} _ _ (still-All _ (λ w. refl))
                λ u. Triple-pure name (λ w all. (all, is_name)))
    where
      handled :
          (w : World) (x : Result (Unit {0}) × World)
          → x.1.db ≡ w.db
          → (caught x (as_rehydrate_error is_kafka)).1.db ≡ w.db
      handled w (ok u, w1) same = same
      handled w (err e, w1) same = same
