-- ===== src/Lifecycle/Shown.antt =====
-- A rehydrate that returns has made its partition visible.
use ksqlite.Prelude.{
  ℕ, zero, suc, ◌≡◌, ◌∙◌, Bool, true, false, Option, some, List, [], ◌∷◌, ◌⊎◌, inl, inr,
  if◌then◌else◌, Bool-cases, leb,
}
use mathlib.Core.Path.{subst}
use ksqlite.Prelude.Int.{ℤ, eqb_ℤ}
use ksqlite.Errors.{Result, ok, err, ok_injective, offset_out_of_range}
use ksqlite.Text.{Text}
use ksqlite.Types.{TopicPartition, tp_eq_refl, PartitionStatus, ready, ready_partial}
use ksqlite.State.{status_of, mark_ready}
use ksqlite.State.Laws.{status_of-mark_ready, status_of-mark_ready_partial}
use ksqlite.Schema.{Db, Json, owned_insert, execute_statement, is_owned}
use ksqlite.Schema.Laws.{is_owned-append}
use ksqlite.World.{Env, World, Exec, ConsumerRecord, pure, on_machine, ◌>>=◌, ◌>>◌}
use ksqlite.World.Returns.{Returns, Returns-if, Returns-bind, Returns-after}
use ksqlite.Pool.{transact, run_statement}
use ksqlite.Pool.Work.{IsWork-statement}
use ksqlite.Pool.Written.{Written, transact-Written}
use ksqlite.Batches.{Settings, execute_in_txn, reveal, force_stop}
use ksqlite.Replay.{
  Replay, Ending, reached, stopped, unfinished, stop_or, reset, getmany, after_reset, after_batch,
  after_poll, on_poll, round, replay,
}
use ksqlite.Lifecycle.{finish, rehydrate_one, replay_from}

inserted-owned :
    (json : Json) (tp : TopicPartition) (d d' : Db)
    → execute_statement json (owned_insert tp) d ≡ ok d'
    → is_owned tp d'.owned ≡ true
unfolding execute_statement
inserted-owned json tp d d' h =
    subst (λ x. is_owned tp x.owned ≡ true) (ok_injective h)
      (elim (Bool-cases (is_owned tp d.owned)) [
        | inl there ↦ rw there there
        | inr missing ↦ rw missing (is_owned-append tp tp d.owned ∙ rw missing (tp_eq_refl tp))
      ])

-- The statuses of a partition that is open to readers.
abbrev pub IsReadable : Option PartitionStatus → Type 0
IsReadable s = (s ≡ some ready) ⊎ (s ≡ some ready_partial)

abbrev pub Shown : TopicPartition → World → Type 0
Shown tp w = (is_owned tp w.db.owned ≡ true) × IsReadable (status_of tp w.machine)

module _ (env : Env) (cfg : Settings) (tp : TopicPartition) where
  shown :
      (w : World) (x : Result (Unit {0}) × World)
      → Written (execute_statement env.json (owned_insert tp)) w x
      → IsReadable (status_of tp w.machine)
      → x.0 ≡ ok tt
      → Shown tp x.1
  shown w (err e, w1) written s h = cc h
  shown w (ok u, w1) (k, c, d, same, le, ran) s h =
      rw same (inserted-owned env.json tp w.db d ran, s)

  pub reveal-Shown :
      (w : World)
      → IsReadable (status_of tp w.machine)
      → (reveal env cfg tp w).0 ≡ ok tt
      → Shown tp (reveal env cfg tp w).1
  unfolding reveal execute_in_txn
  reveal-Shown w s h =
      shown w (transact env cfg.busy_timeout (run_statement env (owned_insert tp)) w)
        (transact-Written env cfg.busy_timeout w (IsWork-statement env (owned_insert tp))) s h

  force_stop-Shown :
      (w : World) → (force_stop env cfg tp w).0 ≡ ok tt → Shown tp (force_stop env cfg tp w).1
  unfolding force_stop ◌>>=◌
  force_stop-Shown w h = reveal-Shown _ (inr (status_of-mark_ready_partial tp w.machine)) h

  -- Where the loop was stopped, the partition is shown already.
  abbrev Ended : Ending → World → Type 0
  Ended stopped w = Shown tp w
  Ended _ w = Unit

  stop_or-Returns :
      (deadline : ℕ) (m : Exec Ending)
      → Returns Ended m
      → Returns Ended (stop_or env cfg tp deadline m)
  unfolding stop_or
  stop_or-Returns deadline m hm =
      Returns-bind _ _ λ now. Returns-if (leb deadline now) _ _ forced hm
    where
      forced : Returns Ended (do force_stop env cfg tp; pure stopped)
      forced =
          Returns-after {Q = λ u w. Shown tp w} _ _ (record { at = λ w u h. force_stop-Shown w h })
            (λ u w s b h. subst (λ e. Ended e w) (ok_injective h) s)

  module _ (name : Text) (leo : ℤ) (deadline : ℕ) (again : Replay → Exec Ending)
      (hagain : (r : Replay) → Returns Ended (again r)) where
    after_poll-Returns :
        (r : Replay) (cs : List ConsumerRecord)
        → Returns Ended (after_poll env cfg tp name leo deadline again r cs)
    unfolding after_poll after_batch
    after_poll-Returns r [] = stop_or-Returns deadline _ (hagain r)
    after_poll-Returns r (c ∷ cs) =
        Returns-bind _ _ λ u. Returns-if _ _ _ (hagain _) (stop_or-Returns deadline _ (hagain _))

    after_oor-Returns :
        (r : Replay)
        → Returns Ended (do
          log_start ← reset env name
          after_reset env cfg tp name leo deadline again log_start)
    unfolding after_reset
    after_oor-Returns r = Returns-bind _ _ λ l. stop_or-Returns deadline _ (hagain _)

    on_poll-Returns :
        (r : Replay) (x : Result (List ConsumerRecord)) (w : World) (e : Ending)
        → (on_poll env cfg tp name leo deadline again r (x, w)).0 ≡ ok e
        → Ended e (on_poll env cfg tp name leo deadline again r (x, w)).1
    unfolding on_poll
    on_poll-Returns r (ok cs) w e h = (after_poll-Returns r cs).at w e h
    on_poll-Returns r (err offset_out_of_range) w e h = (after_oor-Returns r).at w e h
    on_poll-Returns r (err x) w e h = cc h

    round-Returns : (r : Replay) → Returns Ended (round env cfg tp name leo deadline again r)
    unfolding round getmany
    round-Returns r = record { at = λ w e h. go (eqb_ℤ r.position leo) w e h }
      where
        go :
            (b : Bool) (w : World) (e : Ending)
            → (if b
                then (ok (reached r), w)
                else on_poll env cfg tp name leo deadline again r (getmany env name w)).0
              ≡ ok e
            → Ended e
                (if b
                  then (ok (reached r), w)
                  else on_poll env cfg tp name leo deadline again r (getmany env name w)).1
        go true w e h = subst (λ e. Ended e w) (ok_injective h) tt
        go false w e h = on_poll-Returns r (getmany env name w).0 (getmany env name w).1 e h

  replay-Returns :
      (name : Text) (leo : ℤ) (deadline fuel : ℕ) (r : Replay)
      → Returns Ended (replay env cfg tp name leo deadline fuel r)
  unfolding replay
  replay-Returns name leo deadline zero r = record {
    at = λ w e h. subst (λ e. Ended e w) (ok_injective h) tt;
  }
  replay-Returns name leo deadline (suc fuel) r =
      round-Returns name leo deadline _ (replay-Returns name leo deadline fuel) r

  mark_ready-Shown :
      (w : World) (u : Unit {0})
      → ((do on_machine (mark_ready tp); reveal env cfg tp) w).0 ≡ ok u
      → Shown tp ((do on_machine (mark_ready tp); reveal env cfg tp) w).1
  unfolding ◌>>=◌
  mark_ready-Shown w u h =
      reveal-Shown (record w { machine = mark_ready tp w.machine })
        (inl (status_of-mark_ready tp w.machine)) h

  finish-Shown :
      (leo : ℤ) (e : Ending) (w : World)
      → Ended e w
      → (u : Unit {0}) → (finish env cfg tp leo e w).0 ≡ ok u
      → Shown tp (finish env cfg tp leo e w).1
  unfolding finish
  finish-Shown leo stopped w s u h = s
  finish-Shown leo unfinished w s u h = cc h
  finish-Shown leo (reached r) w s u h = (Returns-bind _ _ (λ _. marked)).at w u h
    where
      marked : Returns (λ u w. Shown tp w) (do on_machine (mark_ready tp); reveal env cfg tp)
      marked = record { at = mark_ready-Shown }

  -- A rehydrate that returns leaves its partition visible, and READY or READY_PARTIAL.
  pub rehydrate_one-Shown :
      (fuel : ℕ) (name : Text) (deadline : ℕ) (w : World)
      → (rehydrate_one env cfg fuel tp name deadline w).0 ≡ ok tt
      → Shown tp (rehydrate_one env cfg fuel tp name deadline w).1
  unfolding rehydrate_one
  rehydrate_one-Shown fuel name deadline w h =
      (Returns-bind {P = λ u w. Shown tp w} _ _ λ checkpoint. Returns-bind _ _ λ _.
          Returns-bind _ _ λ _. Returns-bind _ _ λ leo. Returns-bind _ _ λ _. Returns-bind _ _ λ _.
            Returns-bind _ _ λ position.
              Returns-after _ _ (replay-Returns name leo deadline fuel (replay_from position))
                (λ e w s u h. finish-Shown leo e w s u h)).at
        w tt h
