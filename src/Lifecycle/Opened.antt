-- ===== src/Lifecycle/Opened.antt =====
-- _lifecycle.py, `on_partitions_assigned`: what readers find in every partition after it has returned.
use ksqlite.Prelude.{
  ℕ, ◌+◌, ◌≡◌, refl, ◌⊎◌, inl, inr, Bool, true, false, ◌||◌, List, [], ◌∷◌, Bool-cases,
}
use mathlib.Core.Path.{subst}
use ksqlite.Errors.{Result, ok, err}
use ksqlite.Text.{Text}
use ksqlite.Types.{TopicPartition, tp_eq, tp_eq_iff}
use ksqlite.Schema.{is_owned}
use ksqlite.Schema.Frame.{Within}
use ksqlite.World.{Env, World, ConsumerRecord, caught, read_clock, ◌>>=◌}
use ksqlite.World.Triple.{Leaves, Triple, Triple-after, Triple-pure, Triple-if, Triple-bind}
use ksqlite.Batches.{Settings}
use ksqlite.Batches.Covered.{IsHonest, Covered}
use ksqlite.Topics.{changelog_name, as_rehydrate_error}
use ksqlite.Lifecycle.{is_mapped, out_of_time, assign_one, assign_each, on_partitions_assigned}
use ksqlite.Lifecycle.Rules.{Elsewhere, machine_rules}
use ksqlite.Lifecycle.Hooks.{assign_one-Ends}
use ksqlite.Lifecycle.Everywhere.{All, IsName, within, verified-All, still-All, given}
use ksqlite.Lifecycle.Opens.{Opened, unaffected, rehydrate_one-Opened, reveal_partial-Opened}

module _ (env : Env) (cfg : Settings) (holds : TopicPartition → ConsumerRecord → Type 0) where
  abbrev AllAt : World → Type 0
  AllAt = All env cfg holds

  abbrev OpenedAt : TopicPartition → World → Type 0
  OpenedAt q = Opened env q (holds q)

  module _
      (honest : (tp : TopicPartition) (name : Text)
        → IsName env cfg holds tp name
        → IsHonest env name (holds tp)) where
    assign_one-Opened :
        (fuel deadline : ℕ) (first : Bool) (tp : TopicPartition)
        → Triple AllAt
            (λ b w. AllAt w × OpenedAt tp w)
            AllAt
            (assign_one env cfg fuel deadline first tp)
    unfolding assign_one out_of_time
    assign_one-Opened fuel deadline first tp =
        Triple-bind _ _ (verified-All env cfg holds tp) λ name. given env cfg holds λ is_name.
          Triple-bind {Q = λ late. AllAt} _ _
            (Triple-if first _ _ (Triple-pure false (λ w all. all)) (
              Triple-bind {Q = λ now. AllAt} _ _ (still-All env cfg holds _ (λ w. refl))
                (λ now. Triple-pure _ (λ w all. all))))
            λ late.
              Triple-if late _ _
                (Triple-bind _ _ (reveal_partial-Opened env cfg holds tp name)
                  (λ u. Triple-pure first (λ w p. p)))
                (Triple-bind _ _
                  (rehydrate_one-Opened env cfg holds tp name fuel deadline
                    (honest tp name is_name))
                  (λ u. Triple-pure false (λ w p. p)))

    -- The partitions of `IsDone` are opened; after the step, `tp` is as well.
    abbrev Done : (TopicPartition → Type 0) → World → Type 0
    Done IsDone w = AllAt w × ((q : TopicPartition) → IsDone q → OpenedAt q w)

    assign_one-Done :
        (fuel deadline : ℕ) (first : Bool) (tp : TopicPartition) (IsDone : TopicPartition → Type 0)
        → Triple
            (Done IsDone)
            (λ b. Done (λ q. IsDone q ⊎ (tp ≡ q)))
            AllAt
            (assign_one env cfg fuel deadline first tp)
    assign_one-Done fuel deadline first tp IsDone = record {
      run = λ w (all, done).
          after w (assign_one env cfg fuel deadline first tp w)
            ((assign_one-Opened fuel deadline first tp).run w all)
            ((assign_one-Ends env cfg tp (within env cfg holds tp) fuel deadline first).at w)
            ((assign_one-Ends env cfg tp (machine_rules env cfg tp) fuel deadline first).at w) done;
    }
      where
        after :
            (w : World) (x : Result Bool × World)
            → Leaves (λ b w. AllAt w × OpenedAt tp w) AllAt x
            → Within tp w.db x.1.db
            → Elsewhere tp w.machine x.1.machine
            → ((q : TopicPartition) → IsDone q → OpenedAt q w)
            → Leaves (λ b. Done (λ q. IsDone q ⊎ (tp ≡ q))) AllAt x
        after w (err e, w') all inside else done = all
        after w (ok b, w') (all, opened) inside else done = (
          all,
          λ q is_done. elim (Bool-cases (tp_eq tp q)) [
            | inl same ↦ subst (λ t. OpenedAt t w') ((tp_eq_iff tp q).0 same) opened
            | inr other ↦ elim is_done [
              | inl before ↦
                  unaffected env tp q (holds q) w w' (λ e. cc ((tp_eq_iff tp q).1 e, other)) inside
                    else (done q before)
              | inr now ↦ subst (λ t. OpenedAt t w') now opened
            ]
          ],
        )

    assign_each-Done :
        (fuel deadline : ℕ) (first : Bool) (tps : List TopicPartition)
        (IsDone : TopicPartition → Type 0)
        → Triple
            (Done IsDone)
            (λ u. Done (λ q. IsDone q ⊎ (is_owned q tps ≡ true)))
            AllAt
            (assign_each env cfg fuel deadline first tps)
    unfolding assign_each is_owned
    assign_each-Done fuel deadline first [] IsDone = Triple-pure tt (λ w (all, done).
        (all, λ q is_done. elim is_done [ inl before ↦ done q before | inr now ↦ cc now ]))
    assign_each-Done fuel deadline first (tp ∷ tps) IsDone =
        Triple-bind {Q = λ b. Done (λ q. IsDone q ⊎ (tp ≡ q))} _ _
          (record {
            run = λ w p. handled _ ((assign_one-Done fuel deadline first tp IsDone).run w p);
          })
          (λ first'.
            Triple-after (λ u w (all, done). (all, λ q is_done. done q (regroup q is_done)))
              (assign_each-Done fuel deadline first' tps (λ q. IsDone q ⊎ (tp ≡ q))))
      where
        handled :
            (x : Result Bool × World)
            → Leaves (λ b. Done (λ q. IsDone q ⊎ (tp ≡ q))) AllAt x
            → Leaves
                (λ b. Done (λ q. IsDone q ⊎ (tp ≡ q)))
                AllAt
                (caught x (as_rehydrate_error is_mapped))
        handled (ok b, w) p = p
        handled (err e, w) p = p

        regroup :
            (q : TopicPartition)
            → IsDone q ⊎ ((tp_eq tp q || is_owned q tps) ≡ true)
            → (IsDone q ⊎ (tp ≡ q)) ⊎ (is_owned q tps ≡ true)
        regroup q (inl before) = inl (inl before)
        regroup q (inr now) = elim (Bool-cases (tp_eq tp q)) [
          | inl same ↦ inl (inr ((tp_eq_iff tp q).0 same))
          | inr other ↦ inr (rw other at now)
        ]

pub assigned-Opened :
    (env : Env) (cfg : Settings) (fuel : ℕ) (tps : List TopicPartition)
    (holds : TopicPartition → ConsumerRecord → Type 0) (w w' : World) (q : TopicPartition)
    → ((tp : TopicPartition) (name : Text)
        → changelog_name env cfg.topics tp ≡ ok name
        → IsHonest env name (holds tp))
    → ((q : TopicPartition) → Covered env q (holds q) w.db)
    → on_partitions_assigned env cfg fuel tps w ≡ (ok tt, w')
    → is_owned q tps ≡ true
    → Opened env q (holds q) w'
unfolding on_partitions_assigned
assigned-Opened env cfg fuel tps holds w w' q honest all returned assigned =
    (subst (Leaves (λ u. After) (All env cfg holds)) returned (assignment.run w all)).1 q
      (inr assigned)
  where
    After : World → Type 0
    After = Done env cfg holds honest (λ q. ⊥ ⊎ (is_owned q tps ≡ true))

    assignment :
        Triple
          (All env cfg holds)
          (λ u. After)
          (All env cfg holds)
          (do now ← read_clock env; assign_each env cfg fuel (now + cfg.rehydrate_timeout) true tps)
    assignment =
        Triple-bind {Q = λ now. Done env cfg holds honest (λ q. ⊥)} _ _
          (record { run = λ w all. (all, λ q never. absurd never) })
          (λ now. assign_each-Done env cfg holds honest fuel _ true tps (λ q. ⊥))
