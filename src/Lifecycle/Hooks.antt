-- ===== src/Lifecycle/Hooks.antt =====
-- A relation on the database that holds across each statement for the partitions of a hook holds
-- across the whole hook, however that ends.
use ksqlite.Prelude.{Each, ℕ, ◌≡◌, refl, Bool, true, Option, none, some, List, [], ◌∷◌}
use ksqlite.Types.{PartitionStatus, TopicPartition}
use ksqlite.Schema.{owned_delete, Db, Statement, execute_statement}
use ksqlite.Schema.Frame.{IsFor, IsData-IsFor}
use ksqlite.World.{Env, World, Exec, ◌>>=◌}
use ksqlite.World.Related.{
  Related, IsPreorder, OnDb, OnDb-preorder, OnDb-still, Related-bind, Related-if, Related-catch,
}
use ksqlite.Batches.{Settings}
use ksqlite.Batches.Effect.{Through}
use ksqlite.Lifecycle.Verified.{ensure_and_verify-Calm}
use ksqlite.Lifecycle.Pieces.{IsCalm}
use ksqlite.Lifecycle.Rules.{Rules, db_rules}
use ksqlite.Lifecycle.Related.{write-Ends, rehydrate_one-Ends, reveal_partial_unreached-Ends}
use ksqlite.Lifecycle.{
  out_of_time, assign_one, assign_each, on_partitions_assigned, revoke_seen, revoke_one,
  on_partitions_revoked,
}

-- One partition of an assignment, over a relation between worlds.
module _ (env : Env) (cfg : Settings) (tp : TopicPartition) {R : World → World → Type 0}
    (rules : Rules env cfg tp (IsFor tp) R) where
  calm : {A : Type 0} (m : Exec A) → ((w : World) → IsCalm w (m w).1) → Related R m
  calm = rules.calm

  also :
      {A B : Type 0} (m : Exec A) (f : A → Exec B)
      → Related R m
      → ((a : A) → Related R (f a))
      → Related R (m >>= f)
  also m f hm hf = Related-bind rules.order m f hm hf

  pub assign_one-Ends :
      (fuel deadline : ℕ) (first : Bool) → Related R (assign_one env cfg fuel deadline first tp)
  unfolding assign_one out_of_time
  assign_one-Ends fuel deadline first =
      also _ _ (calm _ (λ w. (ensure_and_verify-Calm env cfg.topics tp).at w)) λ name.
        also _ _
          (Related-if rules.order first _ _ (calm _ (λ w. (refl, refl)))
            (also _ _ (calm _ (λ w. (refl, refl))) (λ _. calm _ (λ w. (refl, refl)))))
          λ late.
            Related-if rules.order late _ _
              (also _ _ (reveal_partial_unreached-Ends env cfg tp rules name)
                (λ _. calm _ (λ w. (refl, refl))))
              (also _ _ (rehydrate_one-Ends env cfg tp rules fuel name deadline)
                (λ _. calm _ (λ w. (refl, refl))))

module _ (env : Env) (cfg : Settings) {R : Db → Db → Type 0} (order : IsPreorder R)
    (IsOurs : TopicPartition → Type 0)
    (stmt : (tp : TopicPartition)
      → IsOurs tp
      → (s : Statement) → IsFor tp s
      → Through R (execute_statement env.json s)) where
  abbrev Ends : {A : Type 0} → Exec A → Type 0
  Ends m = Related (OnDb R) m

  still : {A : Type 0} (m : Exec A) → ((w : World) → (m w).1.db ≡ w.db) → Ends m
  still m h = OnDb-still order m h

  bind :
      {A B : Type 0} (m : Exec A) (f : A → Exec B)
      → Ends m
      → ((a : A) → Ends (f a))
      → Ends (m >>= f)
  bind m f hm hf = Related-bind (OnDb-preorder order) m f hm hf

  rules : (tp : TopicPartition) → IsOurs tp → Rules env cfg tp (IsFor tp) (OnDb R)
  rules tp ours = db_rules env cfg tp order (IsData-IsFor tp) (stmt tp ours)

  assign_each-Ends :
      (fuel deadline : ℕ) (first : Bool) (todo : List TopicPartition)
      → Each IsOurs todo
      → Ends (assign_each env cfg fuel deadline first todo)
  unfolding assign_each
  assign_each-Ends fuel deadline first [] h = still _ (λ w. refl)
  assign_each-Ends fuel deadline first (tp ∷ todo) h =
      bind _ _
        (Related-catch (OnDb-preorder order) _ _
          (assign_one-Ends env cfg tp (rules tp h.0) fuel deadline first)
          (λ e. still _ (λ w. refl)))
        (λ first'. assign_each-Ends fuel deadline first' todo h.1)

  pub assigned-Ends :
      (fuel : ℕ) (tps : List TopicPartition)
      → Each IsOurs tps
      → Ends (on_partitions_assigned env cfg fuel tps)
  unfolding on_partitions_assigned
  assigned-Ends fuel tps ours =
      bind _ _ (still _ (λ w. refl)) (λ now. assign_each-Ends fuel _ true tps ours)

  revoke_seen-Ends :
      (tp : TopicPartition) (seen : Option PartitionStatus)
      → IsOurs tp
      → Ends (revoke_seen env cfg tp seen)
  unfolding revoke_seen
  revoke_seen-Ends tp none ours = still _ (λ w. refl)
  revoke_seen-Ends tp (some status) ours =
      bind _ _ (write-Ends env cfg tp (rules tp ours) (owned_delete tp) refl)
        (λ _. still _ (λ w. refl))

  pub revoked-Ends :
      (tps : List TopicPartition) → Each IsOurs tps → Ends (on_partitions_revoked env cfg tps)
  unfolding on_partitions_revoked revoke_one
  revoked-Ends [] ours = still _ (λ w. refl)
  revoked-Ends (tp ∷ tps) (ours, rest) =
      bind _ _ (bind _ _ (still _ (λ w. refl)) (λ seen. revoke_seen-Ends tp seen ours))
        (λ _. revoked-Ends tps rest)
