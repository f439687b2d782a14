-- ===== src/Lifecycle/Hidden.antt =====
-- A rehydrate that raises, but for a cancellation, has revealed nothing: `_owned` is as it was.
use ksqlite.Prelude.{
  ℕ, zero, suc, ◌≡◌, refl, sym, ap, ◌∙◌, Bool, true, false, List, [], ◌∷◌, leb, if◌then◌else◌,
  Option-cases, inl, inr,
}
use ksqlite.Prelude.Int.{ℤ, eqb_ℤ}
use ksqlite.Errors.{Result, ok, err, offset_out_of_range, cancelled, ok_injective}
use ksqlite.Text.{Text}
use ksqlite.Types.{TopicPartition}
use ksqlite.Schema.{
  Row, Db, Json, Statement, insert_record, checkpoint_upsert, checkpoint_clamp, owned_insert,
  execute_statement, insert_row, has_id,
}
use ksqlite.Schema.Frame.{IsData}
use ksqlite.World.{Env, World, Exec, ConsumerRecord, ◌>>=◌}
use ksqlite.World.Related.{Related, IsPreorder, OnDb, OnDb-preorder, OnDb-still, Related-if}
use ksqlite.World.Failure.{
  Failed, IsFailure, OnResult, OnResult-of_Related, OnResult-if, OnResult-bind, OnResult-last,
  OnResult-both,
}
use ksqlite.Pool.{transact, run_statement}
use ksqlite.Pool.Transaction.{Atomic}
use ksqlite.Pool.Work.{IsWork-statement}
use ksqlite.Pool.Written.{Written, transact-Written}
use ksqlite.Batches.{Settings, execute_in_txn, reveal, force_stop}
use ksqlite.Batches.Effect.{Through}
use ksqlite.Replay.{
  Replay, Ending, reached, stopped, unfinished, stop_or, reset, getmany, after_reset, after_batch,
  after_poll, on_poll, round, replay,
}
use ksqlite.Lifecycle.Pieces
use ksqlite.Lifecycle.Rules.{Rules, db_rules}
use ksqlite.Lifecycle.{finish, rehydrate_one, replay_from}

-- The table `_owned` is the same.
abbrev pub Kept : Db → Db → Type 0
Kept d d' = d'.owned ≡ d.owned

pub Kept-preorder : IsPreorder Kept
Kept-preorder = record { same = λ d. refl; then_also = λ a b c h k. k ∙ h }

insert_row-Kept :
    (r : Row) (d : Db) (b : Bool) → has_id r.message_id d.records ≡ b → Kept d (insert_row r d)
unfolding insert_row
insert_row-Kept r d true e = rw e
insert_row-Kept r d false e = rw e

pub statement-Kept :
    (json : Json) (tp : TopicPartition) (s : Statement)
    → IsData tp s
    → Through Kept (execute_statement json s)
unfolding execute_statement
statement-Kept json tp (insert_record r) f = record {
  step = λ d d' h. elim (Option-cases (json r.payload)) [
    | inl bad ↦ cc (rw (bad, execute_statement) at h)
    | inr (payload, good) ↦
        let row : Row = record r { payload = payload } in
        ap (λ x. x.owned) (sym (ok_injective (rw (good, execute_statement) at h)))
        ∙ insert_row-Kept row d (has_id row.message_id d.records) refl
  ];
}
statement-Kept json tp (checkpoint_upsert q o) f = record {
  step = λ d d' h. ap (λ x. x.owned) (sym (ok_injective h));
}
statement-Kept json tp (checkpoint_clamp q o) f = record {
  step = λ d d' h. ap (λ x. x.owned) (sym (ok_injective h));
}
statement-Kept json tp _ f = absurd f

-- A write that fails has written nothing.
Atomic-Failed :
    (f : Db → Result Db) (d d' : Db) (r : Result (Unit {0}))
    → Atomic f d r d'
    → Failed r
    → Kept d d'
Atomic-Failed f d d' (ok _) a failed = absurd failed
Atomic-Failed f d d' (err cancelled) a failed = absurd failed
Atomic-Failed f d d' (err e) a failed = ap (λ x. x.owned) a

-- The loop has ended with nothing revealed.
abbrev Unrevealed : Result Ending → Type 0
Unrevealed (ok (reached r)) = Unit
Unrevealed (ok stopped) = ⊥
Unrevealed (ok unfinished) = Unit
Unrevealed (err e) = IsFailure e

module _ (env : Env) (cfg : Settings) (tp : TopicPartition) where
  abbrev Hides : Exec (Unit {0}) → Type 0
  Hides m = OnResult Failed (OnDb Kept) m

  abbrev Loops : Exec Ending → Type 0
  Loops m = OnResult Unrevealed (OnDb Kept) m

  quiet : Rules env cfg tp (IsData tp) (OnDb Kept)
  quiet = db_rules env cfg tp Kept-preorder (λ s f. f) (statement-Kept env.json tp)

  still : {A : Type 0} (m : Exec A) → ((w : World) → (m w).1.db ≡ w.db) → Related (OnDb Kept) m
  still m h = OnDb-still Kept-preorder m h

  bind :
      {A : Type 0} (m : Exec A) (f : A → Exec (Unit {0}))
      → Related (OnDb Kept) m
      → ((a : A) → Hides (f a))
      → Hides (m >>= f)
  bind = OnResult-bind Failed (OnDb-preorder Kept-preorder)

  loop_bind :
      {A : Type 0} (m : Exec A) (f : A → Exec Ending)
      → Related (OnDb Kept) m
      → ((a : A) → Loops (f a))
      → Loops (m >>= f)
  loop_bind = OnResult-bind Unrevealed (OnDb-preorder Kept-preorder)

  execute_in_txn-Hides : (s : Statement) → Hides (execute_in_txn env cfg s)
  unfolding execute_in_txn
  execute_in_txn-Hides s = record {
    at = λ w failed.
        go w (transact env cfg.busy_timeout (run_statement env s) w)
          (transact-Written env cfg.busy_timeout w (IsWork-statement env s)) failed;
  }
    where
      go :
          (w : World) (x : Result (Unit {0}) × World)
          → Written (execute_statement env.json s) w x
          → Failed x.0
          → Kept w.db x.1.db
      go w (r, w') (k, c, d, same, le, atomic) failed =
          ap (λ x. x.db.owned) same
          ∙ Atomic-Failed (execute_statement env.json s) w.db d r atomic failed

  force_stop-Hides : Hides (force_stop env cfg tp)
  unfolding force_stop reveal
  force_stop-Hides = bind _ _ (still _ (λ w. refl)) (λ _. execute_in_txn-Hides (owned_insert tp))

  stop_or-Hides : (deadline : ℕ) (m : Exec Ending) → Loops m → Loops (stop_or env cfg tp deadline m)
  unfolding stop_or
  stop_or-Hides deadline m h = loop_bind _ _ (still _ (λ w. refl)) (λ now.
      OnResult-if Unrevealed (leb deadline now) _ m
        (OnResult-last Unrevealed (OnDb-preorder Kept-preorder) _ _ force_stop-Hides (λ e p. p)
          (λ _ w p. p))
        h)

  after_batch-Hides :
      (name : Text) (leo : ℤ) (deadline : ℕ) (again : Replay → Exec Ending) (r : Replay)
      (c : ConsumerRecord) (cs : List ConsumerRecord)
      → ((r : Replay) → Loops (again r))
      → Loops (after_batch env cfg tp name leo deadline again r c cs)
  unfolding after_batch
  after_batch-Hides name leo deadline again r c cs h =
      loop_bind _ _ (Pieces.materialize_batch-Ends env cfg tp quiet c cs)
        (λ _. OnResult-if Unrevealed _ _ _ (h _) (stop_or-Hides deadline _ (h _)))

  after_poll-Hides :
      (name : Text) (leo : ℤ) (deadline : ℕ) (again : Replay → Exec Ending) (r : Replay)
      (rs : List ConsumerRecord)
      → ((r : Replay) → Loops (again r))
      → Loops (after_poll env cfg tp name leo deadline again r rs)
  unfolding after_poll
  after_poll-Hides name leo deadline again r [] h = stop_or-Hides deadline _ (h r)
  after_poll-Hides name leo deadline again r (c ∷ cs) h =
      after_batch-Hides name leo deadline again r c cs h

  on_poll-Hides :
      (name : Text) (leo : ℤ) (deadline : ℕ) (again : Replay → Exec Ending) (r : Replay)
      → ((r : Replay) → Loops (again r))
      → (x : Result (List ConsumerRecord) × World)
      → Unrevealed (on_poll env cfg tp name leo deadline again r x).0
      → Kept x.1.db (on_poll env cfg tp name leo deadline again r x).1.db
  unfolding on_poll
  on_poll-Hides name leo deadline again r h (ok rs, w) =
      (after_poll-Hides name leo deadline again r rs h).at w
  on_poll-Hides name leo deadline again r h (err offset_out_of_range, w) =
      (loop_bind (reset env name) (after_reset env cfg tp name leo deadline again)
          (Pieces.reset-Ends env cfg tp quiet name)
          (λ start. unfold after_reset in stop_or-Hides deadline _ (h _))).at
        w
  on_poll-Hides name leo deadline again r h (err e, w) = λ failed. refl

  round-Hides :
      (name : Text) (leo : ℤ) (deadline : ℕ) (again : Replay → Exec Ending) (r : Replay)
      → ((r : Replay) → Loops (again r))
      → Loops (round env cfg tp name leo deadline again r)
  unfolding round
  round-Hides name leo deadline again r h = record { at = λ w. by_test w (eqb_ℤ r.position leo) }
    where
      by_test :
          (w : World) (b : Bool)
          → let x =
              (if b
                then (ok (reached r), w)
                else on_poll env cfg tp name leo deadline again r (getmany env name w)) in
            Unrevealed x.0 → Kept w.db x.1.db
      by_test w true failed = refl
      by_test w false failed =
          on_poll-Hides name leo deadline again r h (getmany env name w) failed
          ∙ (Pieces.getmany-Ends env cfg tp quiet name).at w

  replay-Hides :
      (name : Text) (leo : ℤ) (deadline fuel : ℕ) (r : Replay)
      → Loops (replay env cfg tp name leo deadline fuel r)
  unfolding replay
  replay-Hides name leo deadline zero r = OnResult-of_Related Unrevealed _ (still _ (λ w. refl))
  replay-Hides name leo deadline (suc fuel) r =
      round-Hides name leo deadline (replay env cfg tp name leo deadline fuel) r
        (replay-Hides name leo deadline fuel)

  finish-Hides : (leo : ℤ) (e : Ending) → Hides (finish env cfg tp leo e)
  unfolding finish reveal
  finish-Hides leo stopped = OnResult-of_Related Failed _ (still _ (λ w. refl))
  finish-Hides leo unfinished = OnResult-of_Related Failed _ (still _ (λ w. refl))
  finish-Hides leo (reached r) =
      bind _ _
        (Related-if (OnDb-preorder Kept-preorder) r.reset_occurred _ _
          (Pieces.clamps-Ends env cfg tp quiet leo r.reset_log_start r.replayed_after_reset)
          (still _ (λ w. refl)))
        λ _. bind _ _ (still _ (λ w. refl)) (λ _. execute_in_txn-Hides (owned_insert tp))

  stopped_fine : (leo : ℤ) (w : World) → ¬ Failed (finish env cfg tp leo stopped w).0
  unfolding finish
  stopped_fine leo w p = p

  -- The loop and what follows it: a loop that was stopped has nothing after it that fails.
  replay-finish-Hides :
      (name : Text) (leo : ℤ) (deadline fuel : ℕ) (r : Replay)
      → Hides (replay env cfg tp name leo deadline fuel r >>= finish env cfg tp leo)
  replay-finish-Hides name leo deadline fuel r =
      OnResult-both Failed (OnDb-preorder Kept-preorder) _ _ Unrevealed
        (replay-Hides name leo deadline fuel r) (λ e p. p) after
    where
      after :
          (e : Ending) (w : World)
          → Failed (finish env cfg tp leo e w).0
          → Unrevealed (ok e) × OnDb Kept w (finish env cfg tp leo e w).1
      after stopped w p = absurd (stopped_fine leo w p)
      after unfinished w p = (tt, (finish-Hides leo unfinished).at w p)
      after (reached r) w p = (tt, (finish-Hides leo (reached r)).at w p)

  -- A rehydrate that fails reveals nothing: where it raises anything but a cancellation, the table
  -- `_owned`, and so the set of visible partitions, is what it was.
  pub rehydrate_one-Hides :
      (fuel : ℕ) (name : Text) (deadline : ℕ) (w : World)
      → Failed (rehydrate_one env cfg fuel tp name deadline w).0
      → (rehydrate_one env cfg fuel tp name deadline w).1.db.owned ≡ w.db.owned
  unfolding rehydrate_one
  rehydrate_one-Hides fuel name deadline w failed =
      (bind _ _ (Pieces.read_checkpoint-Ends env cfg tp quiet tp) λ c.
          bind _ _ (Pieces.seed-Ends env cfg tp quiet c) λ _.
            bind _ _ (Pieces.get_consumer-Ends env cfg tp quiet) λ _.
              bind _ _ (still _ (λ w. refl)) λ leo. bind _ _ (still _ (λ w. refl)) λ _.
                bind _ _ (still _ (λ w. refl)) λ _.
                  bind _ _ (Pieces.seek-Ends env cfg tp quiet name c) λ position.
                    replay-finish-Hides name leo deadline fuel (replay_from position)).at
        w failed
