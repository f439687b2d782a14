-- ===== src/Lifecycle/Assigned.antt =====
-- _lifecycle.py, `on_partitions_assigned`: the records that are stored, for all partitions at once.
use ksqlite.Prelude.{◌+◌, ℕ, ◌≡◌, refl, Bool, true, false, List, [], ◌∷◌}
use ksqlite.Errors.{Result, ok, err}
use ksqlite.Text.{Text}
use ksqlite.Types.{TopicPartition}
use ksqlite.World.{Env, World, ConsumerRecord, caught, read_clock, ◌>>=◌}
use ksqlite.World.Triple.{Leaves, Triple, Triple-pure, Triple-if, Triple-bind}
use ksqlite.Batches.{Settings}
use ksqlite.Batches.Covered.{IsHonest, Covered}
use ksqlite.Topics.{changelog_name, as_rehydrate_error}
use ksqlite.Lifecycle.{is_mapped, out_of_time, assign_one, assign_each, on_partitions_assigned}
use ksqlite.Lifecycle.Everywhere.{
  AllCovered, All, IsName, rehydrate_one-All, reveal_partial-All, verified-All, still-All, given,
}

module _ (env : Env) (cfg : Settings) (holds : TopicPartition → ConsumerRecord → Type 0) where
  abbrev AllAt : World → Type 0
  AllAt = All env cfg holds

  module _
      (honest : (tp : TopicPartition) (name : Text)
        → IsName env cfg holds tp name
        → IsHonest env name (holds tp)) where
    assign_one-All :
        (fuel deadline : ℕ) (first : Bool) (tp : TopicPartition)
        → Triple AllAt (λ b. AllAt) AllAt (assign_one env cfg fuel deadline first tp)
    unfolding assign_one out_of_time
    assign_one-All fuel deadline first tp = Triple-bind _ _ (verified-All env cfg holds tp) λ name.
        given env cfg holds λ is_name.
          Triple-bind {Q = λ late. AllAt} _ _
            (Triple-if first _ _ (Triple-pure false (λ w all. all)) (
              Triple-bind {Q = λ now. AllAt} _ _ (still-All env cfg holds _ (λ w. refl))
                (λ now. Triple-pure _ (λ w all. all))))
            λ late.
              Triple-if late _ _
                (Triple-bind {Q = λ u. AllAt} _ _ (reveal_partial-All env cfg holds tp name)
                  (λ u. Triple-pure first (λ w all. all)))
                (Triple-bind {Q = λ u. AllAt} _ _
                  (rehydrate_one-All env cfg holds tp name fuel deadline (honest tp name is_name))
                  (λ u. Triple-pure false (λ w all. all)))

    assign_each-All :
        (fuel deadline : ℕ) (first : Bool) (tps : List TopicPartition)
        → Triple AllAt (λ u. AllAt) AllAt (assign_each env cfg fuel deadline first tps)
    unfolding assign_each
    assign_each-All fuel deadline first [] = Triple-pure tt (λ w all. all)
    assign_each-All fuel deadline first (tp ∷ tps) =
        Triple-bind {Q = λ b. AllAt} _ _
          (record { run = λ w all. handled _ ((assign_one-All fuel deadline first tp).run w all) })
          (λ first'. assign_each-All fuel deadline first' tps)
      where
        handled :
            (x : Result Bool × World)
            → Leaves (λ b. AllAt) AllAt x
            → Leaves (λ b. AllAt) AllAt (caught x (as_rehydrate_error is_mapped))
        handled (ok b, w) all = all
        handled (err e, w) all = all

pub assigned-Covered :
    (env : Env) (cfg : Settings) (fuel : ℕ) (tps : List TopicPartition)
    (holds : TopicPartition → ConsumerRecord → Type 0) (w : World) (q : TopicPartition)
    → ((tp : TopicPartition) (name : Text)
        → changelog_name env cfg.topics tp ≡ ok name
        → IsHonest env name (holds tp))
    → ((q : TopicPartition) → Covered env q (holds q) w.db)
    → Covered env q (holds q) (on_partitions_assigned env cfg fuel tps w).1.db
unfolding on_partitions_assigned
assigned-Covered env cfg fuel tps holds w q honest all = either _ (assignment.run w all) q
  where
    assignment :
        Triple
          (All env cfg holds)
          (λ u. All env cfg holds)
          (All env cfg holds)
          (do now ← read_clock env; assign_each env cfg fuel (now + cfg.rehydrate_timeout) true tps)
    assignment =
        Triple-bind {Q = λ now. All env cfg holds} _ _ (still-All env cfg holds _ (λ w. refl))
          (λ now. assign_each-All env cfg holds honest fuel _ true tps)

    either :
        (x : Result (Unit {0}) × World)
        → Leaves (λ u. All env cfg holds) (All env cfg holds) x
        → AllCovered env cfg holds x.1.db
    either (ok u, w) all = all
    either (err e, w) all = all
