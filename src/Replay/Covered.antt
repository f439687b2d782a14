-- ===== src/Replay/Covered.antt =====
-- _lifecycle.py, the parts of the replay loop, over the records that are stored.
use ksqlite.Prelude.{
  ℕ, ◌≡◌, refl, sym, ap, ◌∙◌, inl, inr, Bool, true, false, some, [], ◌∷◌, ◌++◌, if◌then◌else◌, leb,
}
use mathlib.Core.Path.{subst}
use ksqlite.Prelude.Int.{ℤ, ◌≤ℤ◌}
use ksqlite.Errors.{Result, ok, err, cancelled, ok_injective}
use ksqlite.Types.{TopicPartition, ready_partial}
use ksqlite.State.{Machine, entry, status_of}
use ksqlite.State.Laws.{status_of-mark_ready_partial}
use ksqlite.Schema.{has_id, checkpoint_of, is_owned, Db, Statement, owned_insert, execute_statement}
use ksqlite.World.{Env, World, Exec, ConsumerRecord, Cursor}
use ksqlite.World.Triple.{
  Leaves, Triple, Triple-pure, Triple-weaken, Triple-if, Triple-call, Triple-bind,
}
use ksqlite.Pool.Transaction.{Atomic}
use ksqlite.Pool.Work.{IsWork-statement}
use ksqlite.Pool.Written.{Written, transact-Written}
use ksqlite.Batches.{Settings, execute_in_txn, reveal, force_stop}
use ksqlite.Batches.Covered.{From, Covered, Pending}
use ksqlite.Replay.{Replay, Ending, reached, stopped, unfinished, stop_or}

-- A property of the database that the effect of a transaction keeps holds however it ends.
pub Atomic-keeps :
    (P : Db → Type 0) (f : Db → Result Db) (d d' : Db) (r : Result (Unit {0}))
    → Atomic f d r d'
    → P d
    → ((d' : Db) → f d ≡ ok d' → P d')
    → P d'
Atomic-keeps P f d d' (ok u) a h step = step d' a
Atomic-keeps P f d d' (err cancelled) (inl e) h step = subst P (sym e) h
Atomic-keeps P f d d' (err cancelled) (inr a) h step = step d' a
Atomic-keeps P f d d' (err _) e h step = subst P (sym e) h

-- The cached LEO of the partition.
abbrev pub LogEnd : TopicPartition → ℤ → World → Type 0
LogEnd tp leo w = (entry tp w.machine).log_end_offset ≡ some leo

module _ (env : Env) (cfg : Settings) (tp : TopicPartition) (holds : ConsumerRecord → Type 0) where
  abbrev pub Safe : World → Type 0
  Safe w = Covered env tp holds w.db

  -- The cursor is not behind the position.
  abbrev pub Reaches : ℤ → Cursor → Type 0
  Reaches position cursor =
      (x : ConsumerRecord) → holds x → position ≤ℤ x.offset → From cursor x.offset

  abbrev pub Loop : ℤ → Replay → World → Type 0
  Loop leo r w =
      Safe w × Pending env tp holds r.position w.db × Reaches r.position w.cursor × LogEnd tp leo w

  -- How the loop leaves the world.
  abbrev pub Over : ℤ → Ending → World → Type 0
  Over leo (reached r) w = Safe w × Pending env tp holds leo w.db × LogEnd tp leo w
  Over leo stopped w = Safe w × (status_of tp w.machine ≡ some ready_partial)
  Over leo unfinished w = Safe w

  -- A write of the lifecycle, by what its statement makes of the database; the memory stays.
  module _ (s : Statement) (P Q : Db → Type 0) (M : Machine → Type 0)
      (steps : (d d' : Db) → execute_statement env.json s d ≡ ok d' → P d → Q d')
      (before : (d : Db) → P d → Covered env tp holds d)
      (after : (d : Db) → Q d → Covered env tp holds d) where
    at_end :
        (w : World) (x : Result (Unit {0}) × World)
        → P w.db × M w.machine
        → Written (execute_statement env.json s) w x
        → Leaves (λ u w. Q w.db × M w.machine) Safe x
    at_end w (ok u, w') (p, m) (k, c, d, same, le, ran) =
        (subst (λ y. Q y.db) (sym same) (steps w.db d ran p), subst (λ y. M y.machine) (sym same) m)
    at_end w (err e, w') (p, m) (k, c, d, same, le, atomic) =
        subst (λ y. Covered env tp holds y.db) (sym same)
          (Atomic-keeps (Covered env tp holds) (execute_statement env.json s) w.db d (err e) atomic
            (before w.db p) (λ d' ran. after d' (steps w.db d' ran p)))

    pub execute_in_txn-Triple :
        Triple
          (λ w. P w.db × M w.machine)
          (λ u w. Q w.db × M w.machine)
          Safe
          (execute_in_txn env cfg s)
    unfolding execute_in_txn
    execute_in_txn-Triple = record {
      run = λ w p. at_end w _ p (transact-Written env cfg.busy_timeout w (IsWork-statement env s));
    }

  -- To reveal a partition moves no row and no checkpoint.
  revealed :
      (d d' : Db)
      → execute_statement env.json (owned_insert tp) d ≡ ok d'
      → (d'.records ≡ d.records) × (d'.checkpoints ≡ d.checkpoints)
  unfolding execute_statement
  revealed d d' h = (
    ap (λ y. y.records) (sym (ok_injective h)) ∙ same_records (is_owned tp d.owned),
    ap (λ y. y.checkpoints) (sym (ok_injective h)) ∙ same_checkpoints (is_owned tp d.owned),
  )
    where
      same_records :
          (b : Bool)
          → (if b then d else record d { owned = d.owned ++ tp ∷ [] }).records ≡ d.records
      same_records true = refl
      same_records false = refl

      same_checkpoints :
          (b : Bool)
          → (if b then d else record d { owned = d.owned ++ tp ∷ [] }).checkpoints ≡ d.checkpoints
      same_checkpoints true = refl
      same_checkpoints false = refl

  -- What is below an offset is stored, at a database with these rows.
  pub revealed-Covered :
      (d d' : Db)
      → execute_statement env.json (owned_insert tp) d ≡ ok d'
      → Covered env tp holds d
      → Covered env tp holds d'
  revealed-Covered d d' h covered x c held at_c le k e =
      let (rows, points) = revealed d d' h in
      ap (has_id k.message_id) rows
      ∙ covered x c held (ap (checkpoint_of tp) (sym points) ∙ at_c) le k e

  pub revealed-Pending :
      (p : ℤ) (d d' : Db)
      → execute_statement env.json (owned_insert tp) d ≡ ok d'
      → Pending env tp holds p d
      → Pending env tp holds p d'
  revealed-Pending p d d' h pending x held = elim (pending x held) [
    | inl stored ↦ inl (λ k e. ap (has_id k.message_id) (revealed d d' h).0 ∙ stored k e)
    | inr behind ↦ inr behind
  ]

  -- The forced stop.
  force_stop-Triple :
      Triple Safe
        (λ u w. Safe w × (status_of tp w.machine ≡ some ready_partial))
        Safe
        (force_stop env cfg tp)
  unfolding force_stop reveal
  force_stop-Triple =
      Triple-bind _ _ (record { run = λ w s. (s, status_of-mark_ready_partial tp w.machine) })
        λ u.
          execute_in_txn-Triple (owned_insert tp) (Covered env tp holds) (Covered env tp holds)
            (λ m. status_of tp m ≡ some ready_partial) revealed-Covered (λ d p. p) (λ d p. p)

  pub stop_or-Triple :
      (leo : ℤ) (deadline : ℕ) (r : Replay) (m : Exec Ending)
      → Triple (Loop leo r) (Over leo) Safe m
      → Triple (Loop leo r) (Over leo) Safe (stop_or env cfg tp deadline m)
  unfolding stop_or
  stop_or-Triple leo deadline r m hm =
      Triple-bind {Q = λ now w. Loop leo r w} _ _ (Triple-call _ (λ w a e p. p) (λ w p. p.0)) λ now.
        Triple-if (leb deadline now) _ _
          (Triple-bind _ _ (Triple-weaken (λ w p. p.0) force_stop-Triple)
            (λ u. Triple-pure stopped (λ w p. p)))
          hm
