-- ===== src/Replay/Lossless.antt =====
-- _lifecycle.py, the replay loop from a position below which nothing is missing.
use ksqlite.Prelude.{
  ℕ, zero, suc, ◌+◌, ◌≡◌, refl, sym, ◌∙◌, ◌⊎◌, inl, inr, true, List, [], ◌∷◌, Bool-cases, length,
}
use mathlib.Core.Path.{subst}
use ksqlite.Prelude.Int.{ℤ, pos, ◌+ℤ◌, ◌≤ℤ◌, eqb_ℤ, eqb_ℤ_iff}
use ksqlite.Errors.{Result, ok, err, offset_out_of_range}
use ksqlite.Text.{Text}
use ksqlite.Types.{TopicPartition}
use ksqlite.State.Laws.{log_end-record_applied}
use ksqlite.World.{Env, World, Exec, ConsumerRecord, beginning, at, ◌>>=◌}
use ksqlite.World.Triple.{
  Leaves, Triple, Triple-pure, Triple-weaken, Triple-if, Triple-call, Triple-bind,
}
use ksqlite.Pool.Written.{Written, transact-Written}
use ksqlite.Batches.{Settings, materialize_batch, last_offset}
use ksqlite.Batches.Effect.{batch_effect, batch_work-IsWork}
use ksqlite.Batches.Covered.{Among, IsHonest, Stored, Covered, Pending, batch-Covered}
use ksqlite.Replay.{
  Replay, Ending, reset, getmany, polled, after_reset, after_batch, after_poll, on_poll, round,
  replay,
}
use ksqlite.Replay.Covered.{Atomic-keeps, LogEnd, Safe, Loop, Over, stop_or-Triple}

module _ (env : Env) (cfg : Settings) (tp : TopicPartition) (holds : ConsumerRecord → Type 0)
    (name : Text) (honest : IsHonest env name holds) (leo : ℤ) (deadline : ℕ) where
  abbrev LoopAt : Replay → World → Type 0
  LoopAt = Loop env cfg tp holds leo

  abbrev OverAt : Ending → World → Type 0
  OverAt = Over env cfg tp holds leo

  abbrev SafeAt : World → Type 0
  SafeAt = Safe env cfg tp holds

  -- What a fetched batch finds: a record up to its end is stored, or in it.
  abbrev Fetched : ConsumerRecord → List ConsumerRecord → World → Type 0
  Fetched c cs w =
      SafeAt w
      × ((x : ConsumerRecord)
          → holds x
          → x.offset ≤ℤ last_offset c cs
          → Stored env w.db x ⊎ Among x (c ∷ cs))
      × (w.cursor ≡ at (last_offset c cs +ℤ pos 1))
      × LogEnd tp leo w

  abbrev Committed : ConsumerRecord → List ConsumerRecord → World → Type 0
  Committed c cs w =
      SafeAt w
      × Pending env tp holds (last_offset c cs +ℤ pos 1) w.db
      × (w.cursor ≡ at (last_offset c cs +ℤ pos 1))
      × LogEnd tp leo w

  committed :
      (c : ConsumerRecord) (cs : List ConsumerRecord) (w : World) (x : Result (Unit {0}) × World)
      → Fetched c cs w
      → Written (batch_effect env tp (c ∷ cs) (last_offset c cs)) w x
      → Leaves (λ u. Committed c cs) SafeAt x
  committed c cs w (ok u, w') (s, all, at_end, leo_is) (k, conn, d, same, le, ran) =
      let (covered, pending) =
        batch-Covered env tp holds (c ∷ cs) (last_offset c cs) w.db d ran all s in
      subst (Committed c cs) (sym same) (covered, pending, at_end, leo_is)
  committed c cs w (err e, w') (s, all, at_end, leo_is) (k, conn, d, same, le, atomic) =
      subst (λ y. Covered env tp holds y.db) (sym same)
        (Atomic-keeps (Covered env tp holds) (batch_effect env tp (c ∷ cs) (last_offset c cs)) w.db
          d (err e) atomic s
          λ d' ran. (batch-Covered env tp holds (c ∷ cs) (last_offset c cs) w.db d' ran all s).0)

  -- What a reset leaves.
  abbrev Rewound : ℤ → World → Type 0
  Rewound l w = SafeAt w × Pending env tp holds l w.db × (w.cursor ≡ beginning) × LogEnd tp leo w

  abbrev rewound : ℤ → Replay
  rewound log_start = record {
    position = log_start;
    reset_occurred = true;
    reset_log_start = log_start;
    replayed_after_reset = 0;
  }

  abbrev behind : Replay → ConsumerRecord → List ConsumerRecord → Replay
  behind r c cs = record r {
    position = last_offset c cs +ℤ pos 1;
    replayed_after_reset = r.replayed_after_reset + length (c ∷ cs);
  }

  materialize_batch-Triple :
      (r : Replay) (c : ConsumerRecord) (cs : List ConsumerRecord)
      → Triple
          (Fetched c cs)
          (λ u. LoopAt (behind r c cs))
          SafeAt
          (materialize_batch env cfg tp c cs)
  unfolding materialize_batch
  materialize_batch-Triple r c cs =
      Triple-bind {Q = λ u. Committed c cs} _ _
        (record {
          run = λ w p. committed c cs w _ p (
              transact-Written env cfg.busy_timeout w
                (batch_work-IsWork env tp (c ∷ cs) (last_offset c cs)));
        })
        λ u. record {
          run = λ w (s, pending, at_end, leo_is). (
            s,
            pending,
            (λ x held le. rw at_end le),
            log_end-record_applied tp (last_offset c cs) w.machine ∙ leo_is,
          );
        }

  module _ (again : Replay → Exec Ending)
      (hagain : (r : Replay) → Triple (LoopAt r) OverAt SafeAt (again r)) where
    after_batch-Triple :
        (r : Replay) (c : ConsumerRecord) (cs : List ConsumerRecord)
        → Triple
            (Fetched c cs)
            OverAt
            SafeAt
            (after_batch env cfg tp name leo deadline again r c cs)
    unfolding after_batch
    after_batch-Triple r c cs = Triple-bind _ _ (materialize_batch-Triple r c cs) λ u.
        Triple-if _ _ _ (hagain (behind r c cs))
          (stop_or-Triple env cfg tp holds leo deadline (behind r c cs) _ (hagain (behind r c cs)))

    -- Behind the reset the position is the start of the log, and below it the log holds nothing.
    reset-Triple : (r : Replay) → Triple (LoopAt r) Rewound SafeAt (reset env name)
    unfolding reset
    reset-Triple r =
        Triple-bind {Q = λ l w. SafeAt w × Pending env tp holds l w.db × LogEnd tp leo w} _ _
          (Triple-call _
            (λ w l e (s, pending, reaches, leo_is).
              (s, (λ x held. inr (honest.starts w.calls l x e held)), leo_is))
            (λ w p. p.0))
          λ l.
            Triple-bind {Q = λ u w. SafeAt w × Pending env tp holds l w.db × LogEnd tp leo w} _ _
              (Triple-call _ (λ w u e p. p) (λ w p. p.0))
              λ u.
                Triple-bind {Q = λ u w. Rewound l w} _ _
                  (record { run = λ w (s, pending, leo_is). (s, pending, refl, leo_is) })
                  (λ u. Triple-pure l (λ w p. p))

    after_oor-Triple :
        (r : Replay)
        → Triple (LoopAt r) OverAt SafeAt (do
          log_start ← reset env name
          after_reset env cfg tp name leo deadline again log_start)
    unfolding after_reset
    after_oor-Triple r = Triple-bind _ _ (reset-Triple r) λ l.
        Triple-weaken
          (λ w (s, pending, at_start, leo_is). (s, pending, (λ x held le. rw at_start tt), leo_is))
          (stop_or-Triple env cfg tp holds leo deadline (rewound l) _ (hagain (rewound l)))

    -- A batch that the broker has fetched from the cursor.
    fetched :
        (r : Replay) (w : World) (c : ConsumerRecord) (cs : List ConsumerRecord)
        → env.getmany w.calls name w.cursor ≡ ok (c ∷ cs)
        → LoopAt r w
        → Fetched c cs (polled (ok (c ∷ cs)) (record w { calls = suc w.calls })).1
    fetched r w c cs e (s, pending, reaches, leo_is) = (
      s,
      (λ x held within. elim (pending x held) [
        | inl stored ↦ inl stored
        | inr behind ↦
            inr (honest.fetches w.calls w.cursor c cs x e held (reaches x held behind) within)
      ]),
      refl,
      leo_is,
    )

    on_poll-Leaves :
        (r : Replay) (w : World) (x : Result (List ConsumerRecord))
        → env.getmany w.calls name w.cursor ≡ x
        → LoopAt r w
        → Leaves OverAt SafeAt (
            on_poll env cfg tp name leo deadline again r
              (polled x (record w { calls = suc w.calls })))
    unfolding on_poll after_poll
    on_poll-Leaves r w (ok []) e p =
        (stop_or-Triple env cfg tp holds leo deadline r _ (hagain r)).run _ p
    on_poll-Leaves r w (ok (c ∷ cs)) e p = (after_batch-Triple r c cs).run _ (fetched r w c cs e p)
    on_poll-Leaves r w (err offset_out_of_range) e p = (after_oor-Triple r).run _ p
    on_poll-Leaves r w (err _) e p = p.0

    round-Triple :
        (r : Replay) → Triple (LoopAt r) OverAt SafeAt (round env cfg tp name leo deadline again r)
    unfolding round getmany
    round-Triple r = record {
      run = λ w p. elim (Bool-cases (eqb_ℤ r.position leo)) [
        | inl same ↦ rw same (
          p.0,
          subst (λ z. Pending env tp holds z w.db) ((eqb_ℤ_iff r.position leo).0 same) p.1,
          p.3,
        )
        | inr other ↦ rw other (on_poll-Leaves r w _ refl p)
      ];
    }

  -- From a position below which nothing is missing, the replay loop ends caught up, or stopped, or
  -- raises; every record up to the checkpoint is stored in each case.
  pub replay-Triple :
      (fuel : ℕ) (r : Replay)
      → Triple (LoopAt r) OverAt SafeAt (replay env cfg tp name leo deadline fuel r)
  unfolding replay
  replay-Triple zero r = record { run = λ w p. p.0 }
  replay-Triple (suc fuel) r =
      round-Triple (replay env cfg tp name leo deadline fuel) (replay-Triple fuel) r
