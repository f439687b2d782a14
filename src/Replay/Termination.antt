-- ===== src/Replay/Termination.antt =====
-- The replay loop ends: at the latest, soon after the budget has run out.
use ksqlite.Prelude.{
  ℕ, zero, suc, ◌+◌, ◌≤◌, ◌<◌, ◌≡◌, ◌≢◌, leb→le, true, false, List, [], ◌∷◌, arith, leb, length,
  if◌then◌else◌, Bool-cases, inl, inr, not-leb→lt,
}
use ksqlite.Prelude.Int.{ℤ, pos, ◌+ℤ◌, eqb_ℤ}
use ksqlite.Errors.{Result, ok, err, offset_out_of_range}
use ksqlite.Text.{Text}
use ksqlite.Types.{TopicPartition}
use ksqlite.World.{
  Env, World, Exec, ConsumerRecord, next, beginning, call, modify, pure, on_machine, ◌>>=◌, ◌>>◌,
}
use ksqlite.Batches.{Settings, batch_work, materialize_batch, last_offset, force_stop}
use ksqlite.State
use ksqlite.Schema.{Db}
use ksqlite.Pool.{transact}
use ksqlite.Pool.Written.{Written, transact-Written}
use ksqlite.Batches.Effect.{batch_effect, batch_work-IsWork}
use ksqlite.Replay.{
  Replay, Ending, stopped, unfinished, stop_or, reset, getmany, polled, after_reset, after_batch,
  after_poll, on_poll, round, replay,
}

materialize_calls :
    (env : Env) (cfg : Settings) (tp : TopicPartition) (c : ConsumerRecord)
    (cs : List ConsumerRecord) (w : World)
    → w.calls ≤ (materialize_batch env cfg tp c cs w).1.calls
unfolding materialize_batch ◌>>=◌
materialize_calls env cfg tp c cs w =
    go (batch_effect env tp (c ∷ cs) (last_offset c cs))
      (transact env cfg.busy_timeout (batch_work env tp (c ∷ cs) (last_offset c cs)) w)
      (transact-Written env cfg.busy_timeout w
        (batch_work-IsWork env tp (c ∷ cs) (last_offset c cs)))
  where
    go :
        (f : Db → Result Db) (x : Result (Unit {0}) × World)
        → Written f w x
        → w.calls ≤ (next x (λ _. on_machine (State.record_applied tp (last_offset c cs)))).1.calls
    go f (ok u, w') (k, c, d, same, le, _) = rw same le
    go f (err e, w') (k, c, d, same, le, _) = rw same le

module _ (env : Env) (cfg : Settings) (tp : TopicPartition) (name : Text) (leo : ℤ) (deadline : ℕ)
    (budget : ℕ) (expires : (n : ℕ) → budget ≤ n → deadline ≤ env.clock n) where
  abbrev Ends : Result Ending × World → Type 0
  Ends x = x.0 ≢ ok unfinished

  forced : (x : Result (Unit {0}) × World) → Ends (next x (λ _ w. (ok stopped, w)))
  forced (ok u, w) h = cc h
  forced (err e, w) h = cc h

  before_deadline : (n : ℕ) → leb deadline (env.clock n) ≡ false → n < budget
  before_deadline n early = elim (Bool-cases (leb budget n)) [
    | inl past ↦ absurd (not-le (expires n (leb→le _ _ past)) (not-leb→lt _ _ early))
    | inr more ↦ not-leb→lt _ _ more
  ]
    where
      not-le : {m k : ℕ} → m ≤ k → k < m → ⊥
      not-le p q = omega (arith, p, q)

  -- Past the budget the loop is stopped; before it, `again` has the calls that it needs.
  stop_or-Ends :
      (again : Exec Ending) (w : World)
      → (w.calls < budget → Ends (again (record w { calls = suc w.calls })))
      → Ends (stop_or env cfg tp deadline again w)
  unfolding stop_or ◌>>=◌
  stop_or-Ends again w h = elim (Bool-cases (leb deadline (env.clock w.calls))) [
    | inl late ↦ rw late (forced (force_stop env cfg tp (record w { calls = suc w.calls })))
    | inr early ↦ rw early (h (before_deadline w.calls early))
  ]

  module _ (again : Replay → Exec Ending) (n : ℕ)
      (later : (r : Replay) (w : World) → n + 2 ≤ w.calls → n + 1 < budget → Ends (again r w))
      (at_leo : (r : Replay) (w : World) → eqb_ℤ r.position leo ≡ true → Ends (again r w)) where
    after_materialize :
        (r : Replay) (x : Result (Unit {0}) × World)
        → n + 1 ≤ x.1.calls
        → Ends (
            next x (λ _.
              if eqb_ℤ r.position leo then again r else stop_or env cfg tp deadline (again r)))
    after_materialize r (err e, w) le = λ h. cc h
    after_materialize r (ok u, w) le = elim (Bool-cases (eqb_ℤ r.position leo)) [
      | inl same ↦ rw same (at_leo r w same)
      | inr other ↦
          rw other
            (stop_or-Ends (again r) w λ lt. later r _ (omega (arith, le)) (omega (arith, le, lt)))
    ]

    abbrev after_records : Replay → ConsumerRecord → List ConsumerRecord → Replay
    after_records r c cs = record r {
      position = last_offset c cs +ℤ pos 1;
      replayed_after_reset = r.replayed_after_reset + length (c ∷ cs);
    }

    after_poll-Ends :
        (r : Replay) (cs : List ConsumerRecord) (w : World)
        → n + 1 ≤ w.calls
        → Ends (after_poll env cfg tp name leo deadline again r cs w)
    unfolding after_poll after_batch ◌>>=◌
    after_poll-Ends r [] w le =
        stop_or-Ends (again r) w λ lt. later r _ (omega (arith, le)) (omega (arith, le, lt))
    after_poll-Ends r (c ∷ cs) w le =
        after_materialize (after_records r c cs) (materialize_batch env cfg tp c cs w)
          (omega (arith, le, materialize_calls env cfg tp c cs w))

    after_seek :
        (r : Replay) (l : ℤ) (x : Result (Unit {0}) × World)
        → n + 1 ≤ x.1.calls
        → Ends (
            next
              (next x (λ _ w. (ok l, record w { cursor = beginning })))
              (after_reset env cfg tp name leo deadline again))
    unfolding after_reset
    after_seek r l (err e, w) le = λ h. cc h
    after_seek r l (ok u, w) le =
        stop_or-Ends _ _ λ lt. later _ _ (omega (arith, le)) (omega (arith, le, lt))

    after_earliest :
        (r : Replay) (x : Result ℤ) (w : World)
        → n + 1 ≤ w.calls
        → Ends (
            next
              (next
                (x, w)
                (λ l. do
                  call (λ k. env.seek_to_beginning k name)
                  modify (λ w. record w { cursor = beginning })
                  pure l))
              (after_reset env cfg tp name leo deadline again))
    unfolding ◌>>=◌
    after_earliest r (err e) w le = λ h. cc h
    after_earliest r (ok l) w le =
        after_seek r l (env.seek_to_beginning w.calls name, record w { calls = suc w.calls })
          (omega (arith, le))

    on_poll-Ends :
        (r : Replay) (x : Result (List ConsumerRecord)) (w : World)
        → n + 1 ≤ w.calls
        → Ends (on_poll env cfg tp name leo deadline again r (x, w))
    unfolding on_poll reset ◌>>=◌
    on_poll-Ends r (ok cs) w le = after_poll-Ends r cs w le
    on_poll-Ends r (err offset_out_of_range) w le =
        after_earliest r (env.beginning_offset w.calls name) (record w { calls = suc w.calls })
          (omega (arith, le))
    on_poll-Ends r (err _) w le = λ h. cc h

    getmany-Ends :
        (r : Replay) (x : Result (List ConsumerRecord)) (w : World)
        → n + 1 ≤ w.calls
        → Ends (on_poll env cfg tp name leo deadline again r (polled x w))
    getmany-Ends r (ok []) w le = on_poll-Ends r _ _ le
    getmany-Ends r (ok (c ∷ cs)) w le = on_poll-Ends r _ _ le
    getmany-Ends r (err e) w le = on_poll-Ends r _ _ le

    round-Ends :
        (r : Replay) (w : World) → n ≤ w.calls → Ends (round env cfg tp name leo deadline again r w)
    unfolding round getmany
    round-Ends r w le = elim (Bool-cases (eqb_ℤ r.position leo)) [
      | inl same ↦ rw same (λ h. cc h)
      | inr other ↦
          rw other (getmany-Ends r (env.getmany w.calls name w.cursor) _ (omega (arith, le)))
    ]

  -- By the number of calls: when the clock has passed the deadline after `budget` calls, the replay
  -- loop ends, reached, stopped or with an exception, if its fuel covers the calls up to there.
  pub replay-Ends :
      (fuel : ℕ) (r : Replay) (w : World)
      → 2 ≤ fuel
      → budget + 1 ≤ w.calls + fuel
      → Ends (replay env cfg tp name leo deadline fuel r w)
  unfolding replay round
  replay-Ends zero r w two enough = omega (arith, two)
  replay-Ends (suc fuel) r w two enough =
      round-Ends (replay env cfg tp name leo deadline fuel) w.calls
        (λ r' w' le lt.
          replay-Ends fuel r' w' (omega (arith, enough, lt)) (omega (arith, enough, le)))
        (λ r' w' same. at_leo fuel r' w' same (omega (arith, two))) r w (omega arith)
    where
      at_leo :
          (fuel : ℕ) (r : Replay) (w : World)
          → eqb_ℤ r.position leo ≡ true
          → 1 ≤ fuel
          → Ends (replay env cfg tp name leo deadline fuel r w)
      at_leo zero r w same one = omega (arith, one)
      at_leo (suc fuel) r w same one = rw same (λ h. cc h)
