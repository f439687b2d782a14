-- ===== src/Lifecycle/Clamped.antt =====
-- _lifecycle.py, `_apply_post_reset_clamps` and `_read_checkpoint`, over the records that are stored.
use ksqlite.Prelude.{
  ℕ, suc, ◌≡◌, refl, sym, ap, ◌∙◌, ◌⊎◌, inl, inr, Bool, true, false, Option, none, some,
  if◌then◌else◌, ◌&&◌, ◌==◌, &&-eq-true,
}
use mathlib.Core.Path.{subst}
use ksqlite.Prelude.Int.{ℤ, pos, ◌+ℤ◌, ◌-ℤ◌, ◌≤ℤ◌, eqb_ℤ, eqb_ℤ_iff, int_laws}
use ksqlite.Errors.{Result, ok, err, storage_error, ok_injective}
use ksqlite.Types.{TopicPartition, tp_eq_refl, ready, restoring}
use ksqlite.State
use ksqlite.State.{Machine, entry, mark_ready, mark_restoring, record_clamped, record_log_end}
use ksqlite.State.Laws.{entry-change_self}
use ksqlite.Schema.{Db, Checkpoints, checkpoint_of, checkpoint_clamp, upsert, execute_statement}
use ksqlite.Schema.Laws.{merge_into, checkpoint_of-upsert}
use ksqlite.World.{
  Env, World, ConsumerRecord, Outcome, done, busy, failure, cancel, caught, next, pure, raise, gets,
  on_machine, ◌>>=◌, ◌>>◌,
}
use ksqlite.World.Triple.{Leaves, Triple, Triple-pure, Triple-weaken, Triple-bind}
use ksqlite.Pool.{checkout, select_checkpoint, execute, by_outcome}
use ksqlite.Pool.Written.{CheckedOut, checkout-CheckedOut}
use ksqlite.Batches.{Settings, read_checkpoint, is_sqlite_error, execute_in_txn}
use ksqlite.Batches.Covered.{Stored, Covered, Pending}
use ksqlite.Replay.Covered.{Safe, execute_in_txn-Triple}
use ksqlite.Lifecycle.{is_above, clamp_target, apply_post_reset_clamps}

pub log_end-mark_ready :
    (tp : TopicPartition) (m : Machine)
    → (entry tp (mark_ready tp m)).log_end_offset ≡ (entry tp m).log_end_offset
unfolding mark_ready
log_end-mark_ready tp m =
    ap (λ e. e.log_end_offset) (entry-change_self tp (λ e. record e { status = ready }) m)

pub log_end-mark_restoring :
    (tp : TopicPartition) (m : Machine)
    → (entry tp (mark_restoring tp m)).log_end_offset ≡ (entry tp m).log_end_offset
unfolding mark_restoring
log_end-mark_restoring tp m =
    ap (λ e. e.log_end_offset) (entry-change_self tp (λ e. record e { status = restoring }) m)

pub log_end-record_clamped :
    (tp : TopicPartition) (o : ℤ) (m : Machine)
    → (entry tp (record_clamped tp o m)).log_end_offset ≡ (entry tp m).log_end_offset
unfolding record_clamped
log_end-record_clamped tp o m =
    ap (λ e. e.log_end_offset)
      (entry-change_self tp (λ e. record e { checkpoint_offset = some o }) m)

pub log_end-record_log_end :
    (tp : TopicPartition) (leo : ℤ) (m : Machine)
    → (entry tp (record_log_end tp leo m)).log_end_offset ≡ some leo
unfolding record_log_end
log_end-record_log_end tp leo m =
    ap (λ e. e.log_end_offset)
      (entry-change_self tp (λ e. record e { log_end_offset = some leo }) m)

-- Both clamps write LEO - 1.
clamp_target_last :
    (stored : Option ℤ) (leo log_start : ℤ) (replayed : ℕ) (target : ℤ)
    → clamp_target stored leo log_start replayed ≡ some target
    → target ≡ leo -ℤ pos 1
unfolding clamp_target
clamp_target_last stored leo log_start replayed target h =
    by_tests (is_above leo stored) (replayed == 0 && eqb_ℤ log_start leo) h refl
  where
    same : {a b : ℤ} → some a ≡ some b → a ≡ b
    same e = cc e

    by_tests :
        (above trimmed : Bool)
        → (if above
            then some (leo -ℤ pos 1)
            else if trimmed
            then some (log_start -ℤ pos 1)
            else none)
          ≡ some target
        → (replayed == 0 && eqb_ℤ log_start leo) ≡ trimmed
        → target ≡ leo -ℤ pos 1
    by_tests true trimmed h e = sym (same h)
    by_tests false true h e =
        sym (same h) ∙ ap (λ z. z -ℤ pos 1) ((eqb_ℤ_iff log_start leo).0 (&&-eq-true _ _ e).1)
    by_tests false false h e = cc h

some_injective : {a b : ℤ} → some a ≡ some b → a ≡ b
some_injective e = cc e

before_end : (leo o : ℤ) → o ≤ℤ leo -ℤ pos 1 → o +ℤ pos 1 ≤ℤ leo
before_end leo o h = omega (int_laws, h)

-- A clamp sets the checkpoint, also to a lower one.
checkpoint_of-clamp :
    (tp : TopicPartition) (o : ℤ) (cs : Checkpoints)
    → checkpoint_of tp (upsert (λ old new. new) tp o cs) ≡ some o
checkpoint_of-clamp tp o cs =
    checkpoint_of-upsert (λ old new. new) tp tp o cs
    ∙ rw (tp_eq_refl tp) (ap some (replaced (checkpoint_of tp cs)))
  where
    replaced : (c : Option ℤ) → merge_into (λ old new. new) c o ≡ o
    replaced none = refl
    replaced (some p) = refl

module _ (env : Env) (cfg : Settings) (tp : TopicPartition) (holds : ConsumerRecord → Type 0) where
  abbrev pub SafeAt : World → Type 0
  SafeAt = Safe env cfg tp holds

  abbrev pub SafeDb : Db → Type 0
  SafeDb = Covered env tp holds

  -- A reading of the checkpoint: nothing of the data changes.
  abbrev pub Read : (Db → Type 0) → (Machine → Type 0) → Option ℤ → World → Type 0
  Read P M o w = P w.db × M w.machine × (o ≡ checkpoint_of tp w.db.checkpoints)

  module _ (P : Db → Type 0) (M : Machine → Type 0)
      (safe : (d : Db) → P d → Covered env tp holds d) where
    selected :
        (o : Outcome) (w : World)
        → P w.db × M w.machine
        → Leaves
            (Read P M)
            SafeAt
            (next (by_outcome o (λ w. ok w) w) (λ _ w. (ok (checkpoint_of tp w.db.checkpoints), w)))
    selected done w (p, m) = (p, m, refl)
    selected busy w (p, m) = safe w.db p
    selected failure w (p, m) = safe w.db p
    selected (cancel true) w (p, m) = safe w.db p
    selected (cancel false) w (p, m) = safe w.db p

    pub read_checkpoint-Triple :
        Triple (λ w. P w.db × M w.machine) (Read P M) SafeAt (read_checkpoint env tp)
    unfolding read_checkpoint select_checkpoint execute ◌>>=◌
    read_checkpoint-Triple = record {
      run = λ w p. mapped _ (after_checkout w (checkout env w) p (checkout-CheckedOut env w));
    }
      where
        mapped :
            (x : Result (Option ℤ) × World)
            → Leaves (Read P M) SafeAt x
            → Leaves
                (Read P M)
                SafeAt
                (caught x (λ e. raise (if is_sqlite_error e then storage_error else e)))
        mapped (ok o, w) p = p
        mapped (err e, w) p = p

        after_checkout :
            (w : World) (x : Result (Unit {0}) × World)
            → P w.db × M w.machine
            → CheckedOut w x
            → Leaves (Read P M) SafeAt (
                next x
                  (λ _. do execute env (λ w. ok w); gets (λ w. checkpoint_of tp w.db.checkpoints)))
        after_checkout w (ok u, w1) (p, m) (k, c, same, le, clean) =
            selected (env.statement w1.calls) (record w1 { calls = suc w1.calls })
              (subst (λ y. P y.db) (sym same) p, subst (λ y. M y.machine) (sym same) m)
        after_checkout w (err e, w1) (p, m) (k, c, same, le, clean) =
            subst (λ y. Covered env tp holds y.db) (sym same) (safe w.db p)

  -- What the loop has stored at its end, and what a clamp writes over.
  abbrev pub Behind : ℤ → Db → Type 0
  Behind leo d = Covered env tp holds d × Pending env tp holds leo d

  abbrev pub Ahead : ℤ → Machine → Type 0
  Ahead leo m = (entry tp m).log_end_offset ≡ some leo

  clamped :
      (leo target : ℤ) (d d' : Db)
      → target ≡ leo -ℤ pos 1
      → execute_statement env.json (checkpoint_clamp tp target) d ≡ ok d'
      → Behind leo d
      → Behind leo d'
  unfolding execute_statement
  clamped leo target d d' last h (covered, pending) = subst (Behind leo) (ok_injective h) (
    λ x c held at_c le.
        below x held
          (before_end leo x.offset (
            subst (λ v. x.offset ≤ℤ v)
              (some_injective (sym at_c ∙ checkpoint_of-clamp tp target d.checkpoints) ∙ last) le))
          (pending x held),
    pending,
  )
    where
      below :
          (x : ConsumerRecord)
          → holds x
          → x.offset +ℤ pos 1 ≤ℤ leo
          → Stored env d x ⊎ (leo ≤ℤ x.offset)
          → Stored env d x
      below x held under (inl stored) = stored
      below x held under (inr behind) = absurd (omega (int_laws, under, behind))

  clamp-Triple :
      (leo : ℤ) (t : Option ℤ)
      → ((target : ℤ) → t ≡ some target → target ≡ leo -ℤ pos 1)
      → Triple
          (λ w. Behind leo w.db × Ahead leo w.machine)
          (λ u w. Behind leo w.db × Ahead leo w.machine)
          SafeAt
          (elim t [
            | none ↦ pure tt
            | some target ↦ do
              execute_in_txn env cfg (checkpoint_clamp tp target)
              on_machine (State.record_clamped tp target)
          ])
  clamp-Triple leo none last = Triple-pure tt (λ w p. p)
  clamp-Triple leo (some target) last =
      Triple-bind _ _
        (execute_in_txn-Triple env cfg tp holds (checkpoint_clamp tp target) (Behind leo)
          (Behind leo) (Ahead leo) (λ d d'. clamped leo target d d' (last target refl)) (λ d p. p.0)
          (λ d p. p.0))
        λ u. record { run = λ w (p, m). (p, log_end-record_clamped tp target w.machine ∙ m) }

  pub clamps-Triple :
      (leo log_start : ℤ) (replayed : ℕ)
      → Triple
          (λ w. Behind leo w.db × Ahead leo w.machine)
          (λ u w. Behind leo w.db × Ahead leo w.machine)
          SafeAt
          (apply_post_reset_clamps env cfg tp leo log_start replayed)
  unfolding apply_post_reset_clamps
  clamps-Triple leo log_start replayed =
      Triple-bind _ _ (read_checkpoint-Triple (Behind leo) (Ahead leo) (λ d p. p.0)) λ stored.
        Triple-weaken (λ w p. (p.0, p.1))
          (clamp-Triple leo _ (λ target. clamp_target_last stored leo log_start replayed target))
