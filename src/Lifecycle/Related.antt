-- ===== src/Lifecycle/Related.antt =====
-- A relation between worlds that the statements for a partition and the changes of its entry keep is
-- kept by its whole rehydrate, however that ends.
use ksqlite.Prelude.{ℕ, zero, suc, refl, Bool, true, false, List, [], ◌∷◌, leb, if◌then◌else◌}
use ksqlite.Prelude.Int.{ℤ, eqb_ℤ}
use ksqlite.Errors.{Result, ok, err, offset_out_of_range}
use ksqlite.Text.{Text}
use ksqlite.Types.{TopicPartition}
use ksqlite.Schema.{Statement, owned_insert}
use ksqlite.Schema.Frame.{IsFor, IsData}
use ksqlite.World.{Env, World, Exec, ConsumerRecord, ◌>>=◌}
use ksqlite.World.Related.{Related, Related-bind, Related-if}
use ksqlite.Batches.{Settings, execute_in_txn, reveal, force_stop}
use ksqlite.Replay.{
  Replay, Ending, reached, stopped, unfinished, stop_or, reset, getmany, after_reset, after_batch,
  after_poll, on_poll, round, replay,
}
use ksqlite.Lifecycle.Pieces
use ksqlite.Lifecycle.Pieces.{IsCalm}
use ksqlite.Lifecycle.Rules.{
  Rules, quiet_rules, mark_ready-IsChange, mark_ready_partial-IsChange, mark_restoring-IsChange,
  record_log_end-IsChange,
}
use ksqlite.Lifecycle.{finish, rehydrate_one, reveal_partial_unreached}

module _ (env : Env) (cfg : Settings) (tp : TopicPartition) {R : World → World → Type 0}
    (rules : Rules env cfg tp (IsFor tp) R) where
  abbrev Ends : {A : Type 0} → Exec A → Type 0
  Ends m = Related R m

  quiet : Rules env cfg tp (IsData tp) R
  quiet = quiet_rules env cfg tp rules

  still : {A : Type 0} (m : Exec A) → ((w : World) → IsCalm w (m w).1) → Ends m
  still m h = rules.calm m h

  bind :
      {A B : Type 0} (m : Exec A) (f : A → Exec B)
      → Ends m
      → ((a : A) → Ends (f a))
      → Ends (m >>= f)
  bind m f hm hf = Related-bind rules.order m f hm hf

  pub write-Ends : (s : Statement) → IsFor tp s → Ends (execute_in_txn env cfg s)
  write-Ends = rules.write

  show_tp : Ends (execute_in_txn env cfg (owned_insert tp))
  show_tp = rules.write (owned_insert tp) refl

  force_stop-Ends : Ends (force_stop env cfg tp)
  unfolding force_stop reveal
  force_stop-Ends = bind _ _ (rules.moved _ (mark_ready_partial-IsChange tp)) (λ _. show_tp)

  stop_or-Ends : (deadline : ℕ) (m : Exec Ending) → Ends m → Ends (stop_or env cfg tp deadline m)
  unfolding stop_or
  stop_or-Ends deadline m h = bind _ _ (still _ (λ w. (refl, refl))) (λ now.
      Related-if rules.order (leb deadline now) _ m
        (bind _ _ force_stop-Ends (λ _. still _ (λ w. (refl, refl)))) h)

  after_batch-Ends :
      (name : Text) (leo : ℤ) (deadline : ℕ) (again : Replay → Exec Ending) (r : Replay)
      (c : ConsumerRecord) (cs : List ConsumerRecord)
      → ((r : Replay) → Ends (again r))
      → Ends (after_batch env cfg tp name leo deadline again r c cs)
  unfolding after_batch
  after_batch-Ends name leo deadline again r c cs h =
      bind _ _ (Pieces.materialize_batch-Ends env cfg tp quiet c cs)
        (λ _. Related-if rules.order _ _ _ (h _) (stop_or-Ends deadline _ (h _)))

  after_poll-Ends :
      (name : Text) (leo : ℤ) (deadline : ℕ) (again : Replay → Exec Ending) (r : Replay)
      (rs : List ConsumerRecord)
      → ((r : Replay) → Ends (again r))
      → Ends (after_poll env cfg tp name leo deadline again r rs)
  unfolding after_poll
  after_poll-Ends name leo deadline again r [] h = stop_or-Ends deadline _ (h r)
  after_poll-Ends name leo deadline again r (c ∷ cs) h =
      after_batch-Ends name leo deadline again r c cs h

  on_poll-Ends :
      (name : Text) (leo : ℤ) (deadline : ℕ) (again : Replay → Exec Ending) (r : Replay)
      → ((r : Replay) → Ends (again r))
      → (x : Result (List ConsumerRecord) × World)
      → R x.1 (on_poll env cfg tp name leo deadline again r x).1
  unfolding on_poll
  on_poll-Ends name leo deadline again r h (ok rs, w) =
      (after_poll-Ends name leo deadline again r rs h).at w
  on_poll-Ends name leo deadline again r h (err offset_out_of_range, w) =
      (bind (reset env name) (after_reset env cfg tp name leo deadline again)
          (Pieces.reset-Ends env cfg tp quiet name)
          (λ start. unfold after_reset in stop_or-Ends deadline _ (h _))).at
        w
  on_poll-Ends name leo deadline again r h (err e, w) = rules.order.same w

  round-Ends :
      (name : Text) (leo : ℤ) (deadline : ℕ) (again : Replay → Exec Ending) (r : Replay)
      → ((r : Replay) → Ends (again r))
      → Ends (round env cfg tp name leo deadline again r)
  unfolding round
  round-Ends name leo deadline again r h = record { at = λ w. by_test w (eqb_ℤ r.position leo) }
    where
      by_test :
          (w : World) (b : Bool)
          → R w
              (if b
                then (ok (reached r), w)
                else on_poll env cfg tp name leo deadline again r (getmany env name w)).1
      by_test w true = rules.order.same w
      by_test w false =
          rules.order.then_also w _ _ ((Pieces.getmany-Ends env cfg tp quiet name).at w)
            (on_poll-Ends name leo deadline again r h (getmany env name w))

  replay-Ends :
      (name : Text) (leo : ℤ) (deadline fuel : ℕ) (r : Replay)
      → Ends (replay env cfg tp name leo deadline fuel r)
  unfolding replay
  replay-Ends name leo deadline zero r = still _ (λ w. (refl, refl))
  replay-Ends name leo deadline (suc fuel) r =
      round-Ends name leo deadline (replay env cfg tp name leo deadline fuel) r
        (replay-Ends name leo deadline fuel)

  finish-Ends : (leo : ℤ) (e : Ending) → Ends (finish env cfg tp leo e)
  unfolding finish reveal
  finish-Ends leo stopped = still _ (λ w. (refl, refl))
  finish-Ends leo unfinished = still _ (λ w. (refl, refl))
  finish-Ends leo (reached r) =
      bind _ _
        (Related-if rules.order r.reset_occurred _ _
          (Pieces.clamps-Ends env cfg tp quiet leo r.reset_log_start r.replayed_after_reset)
          (still _ (λ w. (refl, refl))))
        λ _. bind _ _ (rules.moved _ (mark_ready-IsChange tp)) (λ _. show_tp)

  -- A rehydrate relates the database before to the database after.
  pub rehydrate_one-Ends :
      (fuel : ℕ) (name : Text) (deadline : ℕ) → Ends (rehydrate_one env cfg fuel tp name deadline)
  unfolding rehydrate_one
  rehydrate_one-Ends fuel name deadline =
      bind _ _ (Pieces.read_checkpoint-Ends env cfg tp quiet tp) λ c.
        bind _ _ (Pieces.seed-Ends env cfg tp quiet c) λ _.
          bind _ _ (Pieces.get_consumer-Ends env cfg tp quiet) λ _.
            bind _ _ (still _ (λ w. (refl, refl))) λ leo.
              bind _ _ (rules.moved _ (record_log_end-IsChange tp leo)) λ _.
                bind _ _ (rules.moved _ (mark_restoring-IsChange tp)) λ _.
                  bind _ _ (Pieces.seek-Ends env cfg tp quiet name c)
                    λ position. bind _ _ (replay-Ends name leo deadline fuel _) (finish-Ends leo)

  pub reveal_partial_unreached-Ends :
      (name : Text) → Ends (reveal_partial_unreached env cfg tp name)
  unfolding reveal_partial_unreached reveal
  reveal_partial_unreached-Ends name = bind _ _ (Pieces.get_consumer-Ends env cfg tp quiet) λ _.
      bind _ _ (still _ (λ w. (refl, refl))) λ leo.
        bind _ _ (rules.moved _ (record_log_end-IsChange tp leo)) λ _.
          bind _ _ (Pieces.read_checkpoint-Ends env cfg tp quiet tp) λ c.
            bind _ _ (Pieces.seed-Ends env cfg tp quiet c)
              λ _. bind _ _ (rules.moved _ (mark_ready_partial-IsChange tp)) (λ _. show_tp)
