-- ===== src/Lifecycle/Pieces.antt =====
-- A relation between worlds that the data statements of a partition and the changes of its entry keep
-- is kept by every part of a rehydrate that reveals nothing.
use ksqlite.Prelude.{ℕ, suc, ◌≡◌, refl, ap, true, Option, none, some, List, [], ◌∷◌}
use ksqlite.Prelude.Int.{ℤ}
use ksqlite.Errors.{Result, ok, err}
use ksqlite.Text.{Text}
use ksqlite.Types.{TopicPartition}
use ksqlite.State
use ksqlite.Schema.{Statement, checkpoint_clamp, checkpoint_of}
use ksqlite.Schema.Frame.{IsData}
use ksqlite.World.{
  Env, World, Exec, Outcome, cancel, next, ConsumerRecord, pure, on_machine, ◌>>=◌, ◌>>◌,
}
use ksqlite.World.Related.{Related, Related-bind, Related-if, Related-catch}
use ksqlite.Pool.{checkout, select_checkpoint, execute, by_outcome}
use ksqlite.Pool.Written.{checkout-CheckedOut}
use ksqlite.Batches.{
  Settings, get_consumer, execute_in_txn, read_checkpoint, materialize_batch, last_offset,
}
use ksqlite.Replay.{reset, getmany, polled}
use ksqlite.Lifecycle.Rules.{Rules, record_applied-IsChange, record_clamped-IsChange}
use ksqlite.Lifecycle.{seed_checkpoint, seek_start, clamp_target, apply_post_reset_clamps}

-- Neither the database nor the memory changes.
abbrev pub IsCalm : World → World → Type 0
IsCalm w w' = (w'.db ≡ w.db) × (w'.machine ≡ w.machine)

read_select :
    (env : Env) (q : TopicPartition) (w : World) (o : Outcome)
    → IsCalm w
        (next (by_outcome o (λ x. ok x) w) (λ _ x. (ok (checkpoint_of q x.db.checkpoints), x))).1
read_select env q w (cancel true) = (refl, refl)
read_select env q w _ = (refl, refl)

-- The SELECT of a checkpoint changes nothing in the database.
select_checkpoint-same :
    (env : Env) (q : TopicPartition) (w : World) → IsCalm w (select_checkpoint env q w).1
unfolding select_checkpoint execute
select_checkpoint-same env q w =
    read_select env q (record w { calls = suc w.calls }) (env.statement w.calls)

polled-same : (x : Result (List ConsumerRecord)) (w : World) → IsCalm w (polled x w).1
polled-same (ok []) w = (refl, refl)
polled-same (ok (r ∷ rs)) w = (refl, refl)
polled-same (err e) w = (refl, refl)

module _ (env : Env) (cfg : Settings) (tp : TopicPartition) {R : World → World → Type 0}
    (rules : Rules env cfg tp (IsData tp) R) where
  abbrev pub Ends : {A : Type 0} → Exec A → Type 0
  Ends m = Related R m

  pub still : {A : Type 0} (m : Exec A) → ((w : World) → IsCalm w (m w).1) → Ends m
  still m h = rules.calm m h

  pub bind :
      {A B : Type 0} (m : Exec A) (f : A → Exec B)
      → Ends m
      → ((a : A) → Ends (f a))
      → Ends (m >>= f)
  bind m f hm hf = Related-bind rules.order m f hm hf

  pub execute_in_txn-Ends : (s : Statement) → IsData tp s → Ends (execute_in_txn env cfg s)
  execute_in_txn-Ends = rules.write

  pub checkout-Ends : Ends (checkout env)
  checkout-Ends = still _ (λ w.
      let (k, c, same, le, tidy) = checkout-CheckedOut env w in
      (ap (λ x. x.db) same, ap (λ x. x.machine) same))

  pub select_checkpoint-Ends : (q : TopicPartition) → Ends (select_checkpoint env q)
  select_checkpoint-Ends q = still _ (select_checkpoint-same env q)

  pub read_checkpoint-Ends : (q : TopicPartition) → Ends (read_checkpoint env q)
  unfolding read_checkpoint
  read_checkpoint-Ends q =
      Related-catch rules.order (checkout env >> select_checkpoint env q) _
        (bind _ _ checkout-Ends (λ _. select_checkpoint-Ends q)) (λ e. still _ (λ w. (refl, refl)))

  pub materialize_batch-Ends :
      (r : ConsumerRecord) (rs : List ConsumerRecord) → Ends (materialize_batch env cfg tp r rs)
  unfolding materialize_batch
  materialize_batch-Ends r rs =
      bind _ _ (rules.batch r rs)
        (λ _. rules.moved _ (record_applied-IsChange tp (last_offset r rs)))

  pub reset-Ends : (name : Text) → Ends (reset env name)
  unfolding reset
  reset-Ends name = bind _ _ (still _ (λ w. (refl, refl))) λ _.
      bind _ _ (still _ (λ w. (refl, refl)))
        λ _. bind _ _ (still _ (λ w. (refl, refl))) λ _. still _ (λ w. (refl, refl))

  pub getmany-Ends : (name : Text) → Ends (getmany env name)
  unfolding getmany
  getmany-Ends name =
      still _
        (λ w. polled-same (env.getmany w.calls name w.cursor) (record w { calls = suc w.calls }))

  pub get_consumer-Ends : Ends (get_consumer env)
  unfolding get_consumer
  get_consumer-Ends = bind _ _ (still _ (λ w. (refl, refl))) λ started.
      Related-if rules.order started _ _ (still _ (λ w. (refl, refl)))
        (bind _ _ (still _ (λ w. (refl, refl))) (λ _. still _ (λ w. (refl, refl))))

  pub seed-Ends : (c : Option ℤ) → Ends (seed_checkpoint tp c)
  seed-Ends none = still _ (λ w. (refl, refl))
  seed-Ends (some c) = rules.moved _ (record_applied-IsChange tp c)

  pub seek-Ends : (name : Text) (c : Option ℤ) → Ends (seek_start env name c)
  unfolding seek_start
  seek-Ends name none = bind _ _ (still _ (λ w. (refl, refl))) λ _.
      bind _ _ (still _ (λ w. (refl, refl)))
        λ _. bind _ _ (still _ (λ w. (refl, refl))) λ _. still _ (λ w. (refl, refl))
  seek-Ends name (some c) =
      bind _ _ (still _ (λ w. (refl, refl))) (λ _. still _ (λ w. (refl, refl)))

  pub clamp-Ends :
      (t : Option ℤ)
      → Ends (elim t [
        | none ↦ pure tt
        | some target ↦ do
          execute_in_txn env cfg (checkpoint_clamp tp target)
          on_machine (State.record_clamped tp target)
      ])
  clamp-Ends none = still _ (λ w. (refl, refl))
  clamp-Ends (some target) =
      bind _ _ (execute_in_txn-Ends (checkpoint_clamp tp target) refl)
        (λ _. rules.moved _ (record_clamped-IsChange tp target))

  pub clamps-Ends :
      (leo log_start : ℤ) (n : ℕ) → Ends (apply_post_reset_clamps env cfg tp leo log_start n)
  unfolding apply_post_reset_clamps
  clamps-Ends leo log_start n =
      bind _ _ (read_checkpoint-Ends tp)
        (λ stored. clamp-Ends (clamp_target stored leo log_start n))
