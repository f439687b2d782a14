-- ===== src/Lifecycle/CaughtUp.antt =====
-- _lifecycle.py, `_rehydrate_one`: which records of the changelog are stored when it ends.
use ksqlite.Prelude.{ℕ, ◌≡◌, refl, sym, ◌∙◌, inl, inr, Option, none, some}
use ksqlite.Prelude.Int.{ℤ, pos, ◌+ℤ◌, le_or_next}
use ksqlite.Errors.{Result, ok, err}
use ksqlite.Text.{Text}
use ksqlite.Types.{TopicPartition, ready}
use ksqlite.State.{Machine, status_of}
use ksqlite.Schema.{Db, checkpoint_of, owned_insert}
use ksqlite.World.{Env, World, ConsumerRecord, beginning, at}
use ksqlite.World.Triple.{
  Leaves, Triple, Triple-pure, Triple-weaken, Triple-if, Triple-call, Triple-bind,
}
use ksqlite.Batches.{Settings, get_consumer, execute_in_txn, reveal}
use ksqlite.Batches.Covered.{IsHonest, Covered, Pending}
use ksqlite.Replay.{Ending, reached, stopped, unfinished}
use ksqlite.Replay.Covered.{
  LogEnd, Safe, Loop, Over, execute_in_txn-Triple, revealed-Covered, revealed-Pending,
}
use ksqlite.Replay.Lossless.{replay-Triple}
use ksqlite.Lifecycle.{seed_checkpoint, seek_start, finish, replay_from, rehydrate_one}
use ksqlite.Lifecycle.Clamped.{
  log_end-mark_ready, log_end-mark_restoring, log_end-record_log_end, Read, Behind, Ahead,
  read_checkpoint-Triple, clamps-Triple,
}

-- If the partition is READY, every record below its cached LEO is stored.
abbrev pub CaughtUp : Env → TopicPartition → (ConsumerRecord → Type 0) → World → Type 0
CaughtUp env tp holds w =
    status_of tp w.machine ≡ some ready
    → (leo : ℤ) × LogEnd tp leo w × Pending env tp holds leo w.db

module _ (env : Env) (cfg : Settings) (tp : TopicPartition) (holds : ConsumerRecord → Type 0) where
  abbrev SafeAt : World → Type 0
  SafeAt = Safe env cfg tp holds

  abbrev SafeDb : Db → Type 0
  SafeDb = Covered env tp holds

  abbrev ReadAt : (Db → Type 0) → (Machine → Type 0) → Option ℤ → World → Type 0
  ReadAt = Read env cfg tp holds

  abbrev BehindAt : ℤ → Db → Type 0
  BehindAt = Behind env cfg tp holds

  abbrev AheadAt : ℤ → Machine → Type 0
  AheadAt = Ahead env cfg tp holds

  finish-Triple :
      (leo : ℤ) (ending : Ending)
      → Triple
          (Over env cfg tp holds leo ending)
          (λ u w. SafeAt w × CaughtUp env tp holds w)
          SafeAt
          (finish env cfg tp leo ending)
  unfolding finish reveal
  finish-Triple leo stopped =
      Triple-pure tt (λ w (safe, partial). (safe, λ shown. cc (partial, shown)))
  finish-Triple leo unfinished = record { run = λ w safe. safe }
  finish-Triple leo (reached r) =
      Triple-bind {Q = λ u w. BehindAt leo w.db × AheadAt leo w.machine} _ _
        (Triple-weaken (λ w (s, pending, at_leo). ((s, pending), at_leo))
          (Triple-if r.reset_occurred _ _
            (clamps-Triple env cfg tp holds leo r.reset_log_start r.replayed_after_reset)
            (Triple-pure tt (λ w p. p))))
        λ u.
          Triple-bind {Q = λ u w. BehindAt leo w.db × AheadAt leo w.machine} _ _
            (record { run = λ w (p, m). (p, log_end-mark_ready tp w.machine ∙ m) })
            λ u. record { run = λ w p. shown _ (Triple.run revealing w p) }
    where
      revealing :
          Triple
            (λ w. BehindAt leo w.db × AheadAt leo w.machine)
            (λ u w. BehindAt leo w.db × AheadAt leo w.machine)
            SafeAt
            (execute_in_txn env cfg (owned_insert tp))
      revealing =
          execute_in_txn-Triple env cfg tp holds (owned_insert tp) (BehindAt leo) (BehindAt leo)
            (AheadAt leo)
            (λ d d' h (covered, pending). (
              revealed-Covered env cfg tp holds d d' h covered,
              revealed-Pending env cfg tp holds leo d d' h pending,
            ))
            (λ d p. p.0) (λ d p. p.0)

      shown :
          (x : Result (Unit {0}) × World)
          → Leaves (λ u w. BehindAt leo w.db × AheadAt leo w.machine) SafeAt x
          → Leaves (λ u w. SafeAt w × CaughtUp env tp holds w) SafeAt x
      shown (ok u, w) ((s, pending), m) = (s, λ shown. (leo, m, pending))
      shown (err e, w) s = s

  pub seed_checkpoint-Triple :
      (c : Option ℤ)
      → Triple
          (ReadAt SafeDb (λ m. Unit) c)
          (λ u w. SafeAt w × (c ≡ checkpoint_of tp w.db.checkpoints))
          SafeAt
          (seed_checkpoint tp c)
  seed_checkpoint-Triple none = Triple-pure tt (λ w (s, m, e). (s, e))
  seed_checkpoint-Triple (some c) = record { run = λ w (s, m, e). (s, e) }

  pub get_consumer-Triple :
      (P : Db → Type 0)
      → ((d : Db) → P d → Covered env tp holds d)
      → Triple (λ w. P w.db) (λ u w. P w.db) SafeAt (get_consumer env)
  unfolding get_consumer
  get_consumer-Triple P safe =
      Triple-bind {Q = λ started w. P w.db} _ _ (record { run = λ w p. p })
        λ started. Triple-if started _ _ (Triple-pure tt (λ w p. p)) (
          Triple-bind {Q = λ u w. P w.db} _ _ (Triple-call _ (λ w u e p. p) (λ w p. safe w.db p))
            (λ u. record { run = λ w p. p }))

  module _ (name : Text) (honest : IsHonest env name holds) (deadline : ℕ) where
    -- The position that the loop starts at has nothing missing below it.
    seek_start-Triple :
        (leo : ℤ) (c : Option ℤ)
        → Triple
            (λ w. (SafeAt w × (c ≡ checkpoint_of tp w.db.checkpoints)) × LogEnd tp leo w)
            (λ position. Loop env cfg tp holds leo (replay_from position))
            SafeAt
            (seek_start env name c)
    unfolding seek_start
    seek_start-Triple leo none =
        Triple-bind {Q = λ u w. SafeAt w × LogEnd tp leo w} _ _
          (record { run = λ w ((s, e), m). (s, m) })
          λ u.
            Triple-bind {Q = λ u w. SafeAt w × LogEnd tp leo w} _ _
              (Triple-call _ (λ w u e p. p) (λ w p. p.0))
              λ u.
                Triple-bind {Q = λ u w. SafeAt w × (w.cursor ≡ beginning) × LogEnd tp leo w} _ _
                  (record { run = λ w (s, m). (s, refl, m) })
                  λ u. Triple-pure (pos 0) λ w (s, rewound, m). (
                    s,
                    (λ x held. inr (honest.nonnegative x held)),
                    (λ x held le. rw rewound tt),
                    m,
                  )
    seek_start-Triple leo (some c) =
        Triple-bind
          {Q = λ u w.
            (SafeAt w × (some c ≡ checkpoint_of tp w.db.checkpoints))
            × (w.cursor ≡ at (c +ℤ pos 1))
            × LogEnd tp leo w}
          _ _ (record { run = λ w (p, m). (p, refl, m) })
          λ u.
            Triple-pure (c +ℤ pos 1)
              λ w ((s, e), sought, m). (s, behind w s e, (λ x held le. rw sought le), m)
      where
        behind :
            (w : World)
            → SafeAt w
            → some c ≡ checkpoint_of tp w.db.checkpoints
            → Pending env tp holds (c +ℤ pos 1) w.db
        behind w s e x held = elim (le_or_next x.offset c) [
          | inl within ↦ inl (s x c held (sym e) within)
          | inr later ↦ inr later
        ]

    pub rehydrate_one-Triple :
        (fuel : ℕ)
        → Triple SafeAt
            (λ u w. SafeAt w × CaughtUp env tp holds w)
            SafeAt
            (rehydrate_one env cfg fuel tp name deadline)
    unfolding rehydrate_one
    rehydrate_one-Triple fuel =
        Triple-bind _ _
          (Triple-weaken (λ w s. (s, tt))
            (read_checkpoint-Triple env cfg tp holds SafeDb (λ m. Unit) (λ d s. s)))
          λ c. Triple-bind _ _ (seed_checkpoint-Triple c) λ u.
            Triple-bind _ _
              (get_consumer-Triple (λ d. SafeDb d × (c ≡ checkpoint_of tp d.checkpoints))
                (λ d p. p.0))
              λ u.
                Triple-bind {Q = λ leo w. SafeAt w × (c ≡ checkpoint_of tp w.db.checkpoints)} _ _
                  (Triple-call _ (λ w leo e p. p) (λ w p. p.0))
                  λ leo.
                    Triple-bind
                      {Q = λ u w.
                        (SafeAt w × (c ≡ checkpoint_of tp w.db.checkpoints)) × LogEnd tp leo w}
                      _ _ (record { run = λ w p. (p, log_end-record_log_end tp leo w.machine) })
                      λ u.
                        Triple-bind
                          {Q = λ u w.
                            (SafeAt w × (c ≡ checkpoint_of tp w.db.checkpoints)) × LogEnd tp leo w}
                          _ _
                          (record {
                            run = λ w (p, m). (p, log_end-mark_restoring tp w.machine ∙ m);
                          })
                          λ u. Triple-bind _ _ (seek_start-Triple leo c) λ position.
                            Triple-bind _ _
                              (replay-Triple env cfg tp holds name honest leo deadline fuel
                                (replay_from position))
                              (finish-Triple leo)

pub rehydrate_one-Covered :
    (env : Env) (cfg : Settings) (fuel : ℕ) (tp : TopicPartition) (name : Text) (deadline : ℕ)
    (holds : ConsumerRecord → Type 0) (w : World)
    → IsHonest env name holds
    → Covered env tp holds w.db
    → Covered env tp holds (rehydrate_one env cfg fuel tp name deadline w).1.db
rehydrate_one-Covered env cfg fuel tp name deadline holds w honest covered =
    either _ ((rehydrate_one-Triple env cfg tp holds name honest deadline fuel).run w covered)
  where
    either :
        (x : Result (Unit {0}) × World)
        → Leaves
            (λ u w'. Covered env tp holds w'.db × CaughtUp env tp holds w')
            (λ w'. Covered env tp holds w'.db)
            x
        → Covered env tp holds x.1.db
    either (ok u, w') p = p.0
    either (err e, w') p = p
