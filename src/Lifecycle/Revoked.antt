-- ===== src/Lifecycle/Revoked.antt =====
-- What a revocation has done by its end.
use ksqlite.Prelude.{
  ◌≡◌, ◌≢◌, refl, sym, ◌∙◌, Bool, true, false, Option, none, some, List, [], ◌∷◌, arith,
  if◌then◌else◌, Bool-cases, inl, inr,
}
use mathlib.Core.Path.{subst}
use ksqlite.Errors.{Result, ok, err, ok_injective}
use ksqlite.Types.{TopicPartition, tp_eq, tp_eq_refl, tp_eq_iff, PartitionStatus, standby}
use ksqlite.State.{Machine, status_of, mark_revoked}
use ksqlite.State.Laws.{get-change}
use ksqlite.Schema.{Db, Json, owned_delete, execute_statement, is_owned}
use ksqlite.Schema.Laws.{is_owned-keep}
use ksqlite.World.{Env, World, next, on_machine, ◌>>=◌}
use ksqlite.World.Related.{IsPreorder}
use ksqlite.Pool.{transact, run_statement}
use ksqlite.Pool.Work.{IsWork-statement}
use ksqlite.Pool.Written.{Written, transact-Written}
use ksqlite.Batches.{Settings, execute_in_txn}
use ksqlite.Batches.Effect.{transact-OnDb, transact-machine}
use ksqlite.Lifecycle.{revoke_seen, revoke_one, on_partitions_revoked}

-- The data and the checkpoints are kept, and nothing that was hidden is shown.
abbrev pub Hiding : Db → Db → Type 0
Hiding d d' =
    (d'.records ≡ d.records)
    × (d'.checkpoints ≡ d.checkpoints)
    × ((q : TopicPartition) → is_owned q d.owned ≡ false → is_owned q d'.owned ≡ false)

Hiding-preorder : IsPreorder Hiding
Hiding-preorder = record {
  same = λ d. (refl, refl, λ q h. h);
  then_also = λ a b c (p, q, r) (p2, q2, r2). (p2 ∙ p, q2 ∙ q, λ t h. r2 t (r t h));
}

deleted-Hiding :
    (json : Json) (tp : TopicPartition) (d d' : Db)
    → execute_statement json (owned_delete tp) d ≡ ok d'
    → Hiding d d' × (is_owned tp d'.owned ≡ false)
unfolding execute_statement
deleted-Hiding json tp d d' h =
    subst (λ x. Hiding d x × (is_owned tp x.owned ≡ false)) (ok_injective h)
      (
        (refl, refl, λ q hidden. is_owned-keep tp q d.owned ∙ unless (tp_eq tp q) hidden),
        is_owned-keep tp tp d.owned ∙ rw (tp_eq_refl tp) refl,
      )
  where
    unless : (b : Bool) {c : Bool} → c ≡ false → (if b then false else c) ≡ false
    unless true e = refl
    unless false e = e

-- A partition that was seen stays so.
abbrev StillSeen : Machine → Machine → Type 0
StillSeen m m' = (q : TopicPartition) → status_of q m ≢ none → status_of q m' ≢ none

status_of-mark_revoked : (tp : TopicPartition) (m : Machine) → StillSeen m (mark_revoked tp m)
unfolding status_of mark_revoked
status_of-mark_revoked tp m q seen gone =
    seen (ground (arith, gone, get-change tp q (λ e. record e { status = standby }) m))

-- The end of the whole revocation.
abbrev pub Revoked : List TopicPartition → World → Result (Unit {0}) × World → Type 0
Revoked tps w (r, w') =
    Hiding w.db w'.db
    × (r ≡ ok tt
        → (q : TopicPartition) → is_owned q tps ≡ true
        → status_of q w.machine ≢ none
        → is_owned q w'.db.owned ≡ false)

module _ (env : Env) (cfg : Settings) where
  -- The end of a revocation of one partition.
  abbrev One : TopicPartition → World → Result (Unit {0}) × World → Type 0
  One tp w (r, w') =
      Hiding w.db w'.db
      × StillSeen w.machine w'.machine
      × (r ≡ ok tt → status_of tp w.machine ≢ none → is_owned tp w'.db.owned ≡ false)

  written-Hiding :
      (tp : TopicPartition) (w : World)
      → Hiding w.db (execute_in_txn env cfg (owned_delete tp) w).1.db
  unfolding execute_in_txn
  written-Hiding tp w =
      (transact-OnDb Hiding-preorder env cfg.busy_timeout
          (record { step = λ d d' h. (deleted-Hiding env.json tp d d' h).0 })
          (IsWork-statement env (owned_delete tp))).at
        w

  written-machine :
      (tp : TopicPartition) (w : World)
      → (execute_in_txn env cfg (owned_delete tp) w).1.machine ≡ w.machine
  unfolding execute_in_txn
  written-machine tp w =
      transact-machine env cfg.busy_timeout w (IsWork-statement env (owned_delete tp))

  written-gone :
      (tp : TopicPartition) (w : World)
      → (execute_in_txn env cfg (owned_delete tp) w).0 ≡ ok tt
      → is_owned tp (execute_in_txn env cfg (owned_delete tp) w).1.db.owned ≡ false
  unfolding execute_in_txn
  written-gone tp w h =
      go (transact env cfg.busy_timeout (run_statement env (owned_delete tp)) w)
        (transact-Written env cfg.busy_timeout w (IsWork-statement env (owned_delete tp))) h
    where
      go :
          (x : Result (Unit {0}) × World)
          → Written (execute_statement env.json (owned_delete tp)) w x
          → x.0 ≡ ok tt
          → is_owned tp x.1.db.owned ≡ false
      go (ok u, w1) (k, c, d, same, le, ran) h = rw same (deleted-Hiding env.json tp w.db d ran).1
      go (err e, w1) written h = cc h

  after_write :
      (tp : TopicPartition) (w : World) (x : Result (Unit {0}) × World)
      → Hiding w.db x.1.db
      → x.1.machine ≡ w.machine
      → (x.0 ≡ ok tt → is_owned tp x.1.db.owned ≡ false)
      → One tp w (next x (λ _. on_machine (mark_revoked tp)))
  after_write tp w (ok u, w1) hides same gone =
      (hides, rw (sym same) (status_of-mark_revoked tp w1.machine), λ h seen. gone refl)
  after_write tp w (err e, w1) hides same gone = (hides, rw same (λ q h. h), λ h seen. cc h)

  seen-One :
      (tp : TopicPartition) (w : World) (o : Option PartitionStatus)
      → status_of tp w.machine ≡ o
      → One tp w (revoke_seen env cfg tp o w)
  unfolding revoke_seen ◌>>=◌
  seen-One tp w none e = ((refl, refl, λ q h. h), (λ q h. h), λ h seen. absurd (seen e))
  seen-One tp w (some s) e =
      after_write tp w (execute_in_txn env cfg (owned_delete tp) w) (written-Hiding tp w)
        (written-machine tp w) (written-gone tp w)

  revoke_one-One : (tp : TopicPartition) (w : World) → One tp w (revoke_one env cfg tp w)
  unfolding revoke_one ◌>>=◌
  revoke_one-One tp w = seen-One tp w (status_of tp w.machine) refl

  rest-Revoked :
      (tp : TopicPartition) (tps : List TopicPartition) (w : World) (x : Result (Unit {0}) × World)
      → One tp w x
      → ((w1 : World) → Revoked tps w1 (on_partitions_revoked env cfg tps w1))
      → Revoked (tp ∷ tps) w (next x (λ _. on_partitions_revoked env cfg tps))
  unfolding is_owned
  rest-Revoked tp tps w (err e, w1) (hides, still, gone) ih = (hides, λ h. cc h)
  rest-Revoked tp tps w (ok u, w1) (hides, still, gone) ih =
      let (hides2, gone2) = ih w1 in
      (
        Hiding-preorder.then_also w.db w1.db _ hides hides2,
        λ h q listed seen. elim (Bool-cases (tp_eq tp q)) [
          | inl same ↦ hides2.2 q (
              subst (λ t. status_of t w.machine ≢ none → is_owned t w1.db.owned ≡ false)
                ((tp_eq_iff tp q).0 same) (gone refl) seen)
          | inr other ↦ gone2 h q (rw other at listed) (still q seen)
        ],
      )

  -- A revocation keeps every row and every checkpoint and shows no partition that was hidden, however
  -- it ends; where it returns, every revoked partition that the process has seen is hidden.
  pub on_partitions_revoked-Revoked :
      (tps : List TopicPartition) (w : World) → Revoked tps w (on_partitions_revoked env cfg tps w)
  unfolding on_partitions_revoked ◌>>=◌ is_owned
  on_partitions_revoked-Revoked [] w = ((refl, refl, λ q h. h), λ h q listed. cc listed)
  on_partitions_revoked-Revoked (tp ∷ tps) w =
      rest-Revoked tp tps w (revoke_one env cfg tp w) (revoke_one-One tp w)
        (on_partitions_revoked-Revoked tps)
