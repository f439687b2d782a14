-- ===== src/Lifecycle/Ready.antt =====
-- _lifecycle.py, `_rehydrate_one`, where SQLite and Kafka serve it and the clock stays in front of the
-- deadline.
use ksqlite.Prelude.{ℕ, suc, ◌≡◌, refl, sym, ap, ◌∙◌, Option, none, some, true, false}
use mathlib.Core.Path.{subst}
use ksqlite.Prelude.Int.{ℤ, pos, ◌+ℤ◌, ◌≤ℤ◌}
use ksqlite.Errors.{Result, ok, err, ok_injective}
use ksqlite.Text.{Text}
use ksqlite.Types.{TopicPartition, ready}
use ksqlite.State.{status_of}
use ksqlite.State.Laws.{status_of-mark_ready}
use ksqlite.Schema.{checkpoint_of, is_owned, owned_insert, execute_statement}
use ksqlite.World.{Env, World, Exec, beginning, at, next}
use ksqlite.World.Total.{Returned, Total, Total-pure, Total-if, Total-call, Total-catch, Total-bind}
use ksqlite.Pool.{checkout, select_checkpoint, execute, run_statement}
use ksqlite.Pool.Work.{IsWork-statement}
use ksqlite.Pool.Written.{CheckedOut, checkout-CheckedOut}
use ksqlite.Pool.Healthy.{
  IsHealthy, checkout-Total, execute-Total, run_statement-Total, transact_returns,
}
use ksqlite.Batches.{Settings, get_consumer, read_checkpoint, reveal, execute_in_txn}
use ksqlite.Batches.Effect.{transact-machine}
use ksqlite.Replay.{Replay, Ending, reached, stopped, unfinished, replay}
use ksqlite.Replay.Ready.{IsAt, IsServing, replay-IsReached}
use ksqlite.Lifecycle.{seed_checkpoint, seek_start, finish, replay_from, rehydrate_one}
use ksqlite.Lifecycle.Shown.{rehydrate_one-Shown}

-- The offset that a replay starts at.
abbrev pub start_of : Option ℤ → ℤ
start_of none = pos 0
start_of (some c) = c +ℤ pos 1

module _ (env : Env) (cfg : Settings) (tp : TopicPartition) (healthy : IsHealthy env) where
  module _ (stored : Option ℤ) where
    abbrev HasStored : World → Type 0
    HasStored w = checkpoint_of tp w.db.checkpoints ≡ stored

    checkout-HasStored : Total HasStored (λ u. HasStored) (checkout env)
    checkout-HasStored = record {
      run = λ w p.
          kept w p (checkout env w) ((checkout-Total env healthy).run w tt)
            (checkout-CheckedOut env w);
    }
      where
        kept :
            (w : World)
            → HasStored w
            → (x : Result (Unit {0}) × World) → Returned (λ u w. Unit) x
            → CheckedOut w x
            → Returned (λ u. HasStored) x
        kept w p (err e, w1) returned out = returned
        kept w p (ok u, w1) returned (k, c, same, le, tidy) =
            ap (λ x. checkpoint_of tp x.db.checkpoints) same ∙ p

    read_checkpoint-Total : Total HasStored (λ c w. c ≡ stored) (read_checkpoint env tp)
    unfolding read_checkpoint select_checkpoint
    read_checkpoint-Total =
        Total-catch _ _ (Total-bind _ _ checkout-HasStored λ u. record { run = λ w p. read w p })
      where
        selects : Total HasStored (λ u. HasStored) (execute env (λ w. ok w))
        selects = execute-Total env healthy (λ w. ok w) (λ w p. (_, refl, p))

        then_gets :
            (x : Result (Unit {0}) × World)
            → Returned (λ u. HasStored) x
            → Returned
                (λ c w. c ≡ stored)
                (next x (λ u w. (ok (checkpoint_of tp w.db.checkpoints), w)))
        then_gets (ok u, w) p = p
        then_gets (err e, w) p = p

        read : (w : World) → HasStored w → Returned (λ c w. c ≡ stored) (select_checkpoint env tp w)
        read w p = then_gets (execute env (λ w. ok w) w) (selects.run w p)

  abbrev Calmly : World → Type 0
  Calmly w = Unit

  seed-Total : (c : Option ℤ) → Total Calmly (λ u. Calmly) (seed_checkpoint tp c)
  seed-Total none = Total-pure tt (λ w p. p)
  seed-Total (some c) = record { run = λ w p. p }

  abbrev IsReady : World → Type 0
  IsReady w = status_of tp w.machine ≡ some ready

  -- The reveal returns, and the status stays.
  reveal-Total : Total IsReady (λ u. IsReady) (reveal env cfg tp)
  unfolding reveal execute_in_txn execute_statement
  reveal-Total = record {
    run = λ w p.
        shown w p (execute_in_txn env cfg (owned_insert tp) w)
          (transact_returns env healthy (run_statement env (owned_insert tp))
            (run_statement-Total env healthy (owned_insert tp) (λ d. (_, refl))) cfg.busy_timeout w)
          (transact-machine env cfg.busy_timeout w (IsWork-statement env (owned_insert tp)));
  }
    where
      shown :
          (w : World)
          → IsReady w
          → (x : Result (Unit {0}) × World) → x.0 ≡ ok tt
          → x.1.machine ≡ w.machine
          → Returned (λ u. IsReady) x
      shown w p (ok u, w1) h same = ap (status_of tp) same ∙ p
      shown w p (err e, w1) h same = cc h

  -- The loop has reached the LEO without a reset.
  abbrev AtEnd : Ending → World → Type 0
  AtEnd (reached r) w = r.reset_occurred ≡ false
  AtEnd _ w = ⊥

  finish-Total :
      (leo : ℤ) (ending : Ending)
      → Total (AtEnd ending) (λ u. IsReady) (finish env cfg tp leo ending)
  unfolding finish
  finish-Total leo stopped = record { run = λ w never. absurd never }
  finish-Total leo unfinished = record { run = λ w never. absurd never }
  finish-Total leo (reached r) =
      Total-bind {Q = λ u. Calmly} _ _ (record { run = λ w quiet. rw quiet tt })
        λ u.
          Total-bind {Q = λ u. IsReady} _ _
            (record { run = λ w p. status_of-mark_ready tp w.machine }) (λ u. reveal-Total)

  module _ (name : Text) (leo : ℤ) (deadline : ℕ) (serving : IsServing env name leo deadline) where
    get_consumer-Total : Total Calmly (λ u. Calmly) (get_consumer env)
    unfolding get_consumer
    get_consumer-Total =
        Total-bind {Q = λ started. Calmly} _ _ (record { run = λ w p. p })
          λ started. Total-if started _ _ (Total-pure tt (λ w p. p)) (
            Total-bind {Q = λ u. Calmly} _ _
              (Total-call env.consumer_start tt serving.starts (λ w p. p))
              (λ u. record { run = λ w p. p }))

    -- The loop starts at the stored checkpoint, with the cursor there.
    abbrev StartsAt : ℤ → World → Type 0
    StartsAt position w = IsAt position w.cursor

    seek_start-Total :
        (c : Option ℤ)
        → Total Calmly
            (λ position w. IsAt position w.cursor × (position ≡ start_of c))
            (seek_start env name c)
    unfolding seek_start
    seek_start-Total none =
        Total-bind {Q = λ u. Calmly} _ _ (record { run = λ w p. p })
          λ u.
            Total-bind {Q = λ u. Calmly} _ _
              (Total-call (λ n. env.seek_to_beginning n name) tt serving.rewinds (λ w p. p))
              λ u.
                Total-bind {Q = λ u w. w.cursor ≡ beginning} _ _ (record { run = λ w p. refl })
                  (λ u. Total-pure (pos 0) (λ w sought. (rw sought refl, refl)))
    seek_start-Total (some c) =
        Total-bind {Q = λ u w. w.cursor ≡ at (c +ℤ pos 1)} _ _ (record { run = λ w p. refl })
          (λ u. Total-pure (c +ℤ pos 1) (λ w sought. (rw sought refl, refl)))

    loop-Total :
        (c : Option ℤ) (n : ℕ) (position : ℤ)
        → start_of c ≤ℤ leo
        → leo ≤ℤ start_of c +ℤ pos n
        → Total
            (λ w. IsAt position w.cursor × (position ≡ start_of c))
            AtEnd
            (replay env cfg tp name leo deadline (suc n) (replay_from position))
    loop-Total c n position le enough = record {
      run = λ w (is_at, start). ended _ (
          replay-IsReached env cfg tp healthy name leo deadline serving n (replay_from position) w
            is_at refl (subst (λ z. z ≤ℤ leo) (sym start) le)
            (subst (λ z. leo ≤ℤ z +ℤ pos n) (sym start) enough));
    }
      where
        ended :
            (x : Result Ending × World)
            → (r : Replay) × (x.0 ≡ ok (reached r)) × (r.reset_occurred ≡ false)
            → Returned AtEnd x
        ended (ok e, w) (r, same, quiet) = subst (λ e. AtEnd e w) (sym (ok_injective same)) quiet
        ended (err e, w) (r, h, quiet) = cc h

    rehydrate_one-Total :
        (stored : Option ℤ) (n : ℕ)
        → start_of stored ≤ℤ leo
        → leo ≤ℤ start_of stored +ℤ pos n
        → Total (HasStored stored) (λ u. IsReady) (rehydrate_one env cfg (suc n) tp name deadline)
    unfolding rehydrate_one
    rehydrate_one-Total stored n le enough = Total-bind _ _ (read_checkpoint-Total stored) λ c.
        known λ same. Total-bind {Q = λ u. Calmly} _ _ (seed-Total c) λ u.
          Total-bind {Q = λ u. Calmly} _ _ get_consumer-Total λ u.
            Total-bind {Q = λ l w. l ≡ leo} _ _
              (Total-call (λ n. env.end_offset n name) leo serving.ends (λ w p. refl))
              λ l. known λ is_leo.
                Total-bind {Q = λ u. Calmly} _ _ (record { run = λ w p. p })
                  λ u.
                    Total-bind {Q = λ u. Calmly} _ _ (record { run = λ w p. p })
                      λ u. Total-bind _ _ (seek_start-Total c) λ position.
                        Total-bind _ _
                          (subst
                            (λ z.
                              Total (λ w. IsAt position w.cursor × (position ≡ start_of c)) AtEnd
                                (replay env cfg tp name z deadline (suc n) (replay_from position)))
                            (sym is_leo)
                            (loop-Total c n position (subst (λ s. start_of s ≤ℤ leo) (sym same) le)
                              (subst (λ s. leo ≤ℤ start_of s +ℤ pos n) (sym same) enough)))
                          (finish-Total l)
      where
        -- A fact about no world can stand in front of a method.
        known :
            {A E : Type 0} {P : A → World → Type 0} {m : Exec A}
            → (E → Total Calmly P m)
            → Total (λ w. E) P m
        known h = record { run = λ w e. (h e).run w tt }

-- Where the pool hands out connections, SQLite executes every statement, Kafka serves the changelog up
-- to the LEO and no further, with records that can be replayed, and the clock stays in front of the
-- deadline: a rehydrate from a checkpoint below the LEO, or from none, whose fuel covers the
-- distance, returns, with the partition READY and in `_owned`.
pub rehydrate_one-Ready :
    (env : Env) (cfg : Settings) (tp : TopicPartition) (name : Text) (leo : ℤ) (deadline n : ℕ)
    (w : World)
    → IsHealthy env
    → IsServing env name leo deadline
    → start_of (checkpoint_of tp w.db.checkpoints) ≤ℤ leo
    → leo ≤ℤ start_of (checkpoint_of tp w.db.checkpoints) +ℤ pos n
    → ((rehydrate_one env cfg (suc n) tp name deadline w).0 ≡ ok tt)
      × (status_of tp (rehydrate_one env cfg (suc n) tp name deadline w).1.machine ≡ some ready)
      × (is_owned tp (rehydrate_one env cfg (suc n) tp name deadline w).1.db.owned ≡ true)
rehydrate_one-Ready env cfg tp name leo deadline n w healthy serving le enough =
    let (returned, is_ready) = parts _ (
      (rehydrate_one-Total env cfg tp healthy name leo deadline serving
          (checkpoint_of tp w.db.checkpoints) n le enough).run
        w refl) in
    (returned, is_ready, (rehydrate_one-Shown env cfg tp (suc n) name deadline w returned).0)
  where
    parts :
        (x : Result (Unit {0}) × World)
        → Returned (λ u w. status_of tp w.machine ≡ some ready) x
        → (x.0 ≡ ok tt) × (status_of tp x.1.machine ≡ some ready)
    parts (ok u, w) p = (refl, p)
    parts (err e, w) p = absurd p
