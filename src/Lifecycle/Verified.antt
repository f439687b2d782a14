-- ===== src/Lifecycle/Verified.antt =====
-- _changelog_topics.py, `ensure_and_verify`, as the rebalance hooks call it: it changes neither the
-- database nor the entries of the partitions.
use ksqlite.Prelude.{refl, ◌∙◌, Bool, Option, none, some, if◌then◌else◌}
use ksqlite.Prelude.Int.{ℤ}
use ksqlite.Text.{Text, text_in}
use ksqlite.Types.{TopicPartition}
use ksqlite.World.{Env, World, Exec, ◌>>=◌}
use ksqlite.World.Related.{Related, IsPreorder, Related-bind, Related-if, Related-catch}
use ksqlite.Topics.{
  TopicsConfig, ensure_and_verify, step_zero, ensure_topic, create, create_missing, verify_policy,
}
use ksqlite.Lifecycle.Pieces.{IsCalm}

IsCalm-preorder : IsPreorder IsCalm
IsCalm-preorder = record {
  same = λ w. (refl, refl);
  then_also = λ a b c (h, k) (h', k'). (h' ∙ h, k' ∙ k);
}

module _ (env : Env) (cfg : TopicsConfig) where
  abbrev Calm : {A : Type 0} → Exec A → Type 0
  Calm m = Related IsCalm m

  still : {A : Type 0} (m : Exec A) → ((w : World) → IsCalm w (m w).1) → Calm m
  still m h = record { at = h }

  bind :
      {A B : Type 0} (m : Exec A) (f : A → Exec B)
      → Calm m
      → ((a : A) → Calm (f a))
      → Calm (m >>= f)
  bind m f hm hf = Related-bind IsCalm-preorder m f hm hf

  choose : {A : Type 0} (b : Bool) (m n : Exec A) → Calm m → Calm n → Calm (if b then m else n)
  choose = Related-if IsCalm-preorder

  create_missing-Calm : (name : Text) (o : Option ℤ) → Calm (create_missing env name o)
  unfolding create_missing create
  create_missing-Calm name none = still _ (λ w. (refl, refl))
  create_missing-Calm name (some r) =
      bind _ _ (still _ (λ w. (refl, refl))) (λ _. still _ (λ w. (refl, refl)))

  ensure_topic-Calm : (name : Text) → Calm (ensure_topic env cfg name)
  unfolding ensure_topic
  ensure_topic-Calm name = bind _ _ (still _ (λ w. (refl, refl))) λ existing.
      choose (text_in name existing) _ _ (still _ (λ w. (refl, refl)))
        (create_missing-Calm name cfg.create_topics_retention_ms)

  verify_policy-Calm : (name : Text) → Calm (verify_policy env name)
  unfolding verify_policy
  verify_policy-Calm name =
      bind _ _ (still _ (λ w. (refl, refl))) (λ _. still _ (λ w. (refl, refl)))

  pub step_zero-Calm : (name : Text) → Calm (step_zero env cfg name)
  unfolding step_zero
  step_zero-Calm name = bind _ _ (ensure_topic-Calm name) λ _.
      choose cfg.verify_changelog_policy _ _
        (bind _ _ (verify_policy-Calm name) (λ _. still _ (λ w. (refl, refl))))
        (still _ (λ w. (refl, refl)))

  pub ensure_and_verify-Calm : (tp : TopicPartition) → Calm (ensure_and_verify env cfg tp)
  unfolding ensure_and_verify
  ensure_and_verify-Calm tp = bind _ _ (still _ (λ w. (refl, refl))) λ name.
      bind _ _ (still _ (λ w. (refl, refl))) λ known.
        choose known _ _ (still _ (λ w. (refl, refl))) (
          bind _ _
            (Related-catch IsCalm-preorder _ _ (step_zero-Calm name)
              (λ e. still _ (λ w. (refl, refl))))
            (λ _. bind _ _ (still _ (λ w. (refl, refl))) (λ _. still _ (λ w. (refl, refl)))))
