-- ===== src/Lifecycle/Opens.antt =====
-- _lifecycle.py, `_rehydrate_one` and `_reveal_partial_unreached`: what readers find in their partition.
use ksqlite.Prelude.{ℕ, ◌≡◌, ◌≢◌, refl, sym, ap, ◌∙◌, inl, inr, Option, none, some}
use ksqlite.Errors.{Result, ok, err}
use ksqlite.Text.{Text}
use ksqlite.Types.{TopicPartition, ready_partial}
use ksqlite.State.{Entry, new_entry, Machine, get, entry, status_of, mark_ready_partial}
use ksqlite.State.Laws.{status_of-mark_ready_partial}
use ksqlite.Schema.{owned_insert}
use ksqlite.Schema.Frame.{Within}
use ksqlite.Schema.Ids.{Within-Grows}
use ksqlite.World.{Env, World, ConsumerRecord, on_machine, ◌>>=◌, ◌>>◌}
use ksqlite.World.Returns.{Returns, Returns-bind}
use ksqlite.World.Triple.{Leaves, Triple}
use ksqlite.Pool.Work.{IsWork-statement}
use ksqlite.Batches.{Settings, reveal, execute_in_txn}
use ksqlite.Batches.Effect.{transact-machine}
use ksqlite.Batches.Covered.{IsHonest, Covered, Stored-Grows}
use ksqlite.Lifecycle.{rehydrate_one, reveal_partial_unreached}
use ksqlite.Lifecycle.Rules.{Elsewhere}
use ksqlite.Lifecycle.Shown.{Shown, reveal-Shown, rehydrate_one-Shown}
use ksqlite.Lifecycle.CaughtUp.{CaughtUp, rehydrate_one-Triple}
use ksqlite.Lifecycle.Everywhere.{All, rehydrate_one-All, reveal_partial-All}

-- The partition is open to readers, and if it is READY, all below its cached LEO is stored.
abbrev pub Opened : Env → TopicPartition → (ConsumerRecord → Type 0) → World → Type 0
Opened env tp holds w = Shown tp w × CaughtUp env tp holds w

status_of-get :
    (q : TopicPartition) (m m' : Machine)
    → get q m' ≡ get q m
    → (status_of q m' ≡ status_of q m) × ((entry q m').log_end_offset ≡ (entry q m).log_end_offset)
unfolding status_of
status_of-get q m m' same = (rw (status_of, same) refl, ap (λ o. (entry_of o).log_end_offset) same)
  where
    entry_of : Option Entry → Entry
    entry_of none = new_entry
    entry_of (some e) = e

-- Another partition's step leaves an opened one open.
pub unaffected :
    (env : Env) (tp q : TopicPartition) (holds : ConsumerRecord → Type 0) (w w' : World)
    → tp ≢ q
    → Within tp w.db w'.db
    → Elsewhere tp w.machine w'.machine
    → Opened env q holds w
    → Opened env q holds w'
unaffected env tp q holds w w' other inside else ((owned, readable), caught_up) =
    let (status, log_end) = status_of-get q w.machine w'.machine (else q other) in
    (
      (
        inside.owned q (λ e. other (sym e)) ∙ owned,
        elim readable [ inl r ↦ inl (status ∙ r) | inr r ↦ inr (status ∙ r) ],
      ),
      λ is_ready.
          let (leo, cached, pending) = caught_up (sym status ∙ is_ready) in
          (
            leo,
            log_end ∙ cached,
            λ x held. elim (pending x held) [
              | inl stored ↦
                  inl (Stored-Grows env w.db w'.db x (Within-Grows w.db w'.db inside) stored)
              | inr behind ↦ inr behind
            ],
          ),
    )

module _ (env : Env) (cfg : Settings) (holds : TopicPartition → ConsumerRecord → Type 0) where
  abbrev AllAt : World → Type 0
  AllAt = All env cfg holds

  abbrev OpenedAt : TopicPartition → World → Type 0
  OpenedAt q = Opened env q (holds q)

  -- What a method leaves, and what it makes true where it returns.
  both :
      {A : Type 0} (Q : World → Type 0) (x : Result A × World)
      → Leaves (λ a. AllAt) AllAt x
      → ((a : A) → x.0 ≡ ok a → Q x.1)
      → Leaves (λ a w. AllAt w × Q w) AllAt x
  both Q (ok a, w) all q = (all, q a refl)
  both Q (err e, w) all q = all

  -- Where a method with a postcondition has returned, the postcondition holds.
  at_return :
      (P F : World → Type 0) (x : Result (Unit {0}) × World)
      → Leaves (λ u. P) F x
      → (u : Unit {0}) → x.0 ≡ ok u
      → P x.1
  at_return P F (ok a, w) p u e = p
  at_return P F (err e, w) p u h = cc h

  pub rehydrate_one-Opened :
      (tp : TopicPartition) (name : Text) (fuel deadline : ℕ)
      → IsHonest env name (holds tp)
      → Triple AllAt
          (λ u w. AllAt w × OpenedAt tp w)
          AllAt
          (rehydrate_one env cfg fuel tp name deadline)
  rehydrate_one-Opened tp name fuel deadline honest = record {
    run = λ w all.
        both (OpenedAt tp) (rehydrate_one env cfg fuel tp name deadline w)
          ((rehydrate_one-All env cfg holds tp name fuel deadline honest).run w all)
          (λ u e. (
            rehydrate_one-Shown env cfg tp fuel name deadline w e,
            (at_return (λ w. Covered env tp (holds tp) w.db × CaughtUp env tp (holds tp) w)
                (λ w. Covered env tp (holds tp) w.db)
                (rehydrate_one env cfg fuel tp name deadline w)
                ((rehydrate_one-Triple env cfg tp (holds tp) name honest deadline fuel).run w
                  (all tp))
                u e).1,
          ));
  }

  -- The last steps for a partition that the deadline left out.
  reveal-Opened :
      (tp : TopicPartition) (w : World)
      → status_of tp w.machine ≡ some ready_partial
      → (reveal env cfg tp w).0 ≡ ok tt
      → OpenedAt tp (reveal env cfg tp w).1
  unfolding reveal execute_in_txn
  reveal-Opened tp w partial h = (
    reveal-Shown env cfg tp w (inr partial) h,
    λ is_ready. cc (
      is_ready,
      partial,
      ap (λ m. status_of tp m)
          (transact-machine env cfg.busy_timeout w (IsWork-statement env (owned_insert tp))),
    ),
  )

  partial-Opened :
      (tp : TopicPartition)
      → Returns (λ u w. OpenedAt tp w) (do on_machine (mark_ready_partial tp); reveal env cfg tp)
  unfolding ◌>>=◌
  partial-Opened tp = record {
    at = λ w u h.
        reveal-Opened tp (record w { machine = mark_ready_partial tp w.machine })
          (status_of-mark_ready_partial tp w.machine) h;
  }

  pub reveal_partial-Opened :
      (tp : TopicPartition) (name : Text)
      → Triple AllAt
          (λ u w. AllAt w × OpenedAt tp w)
          AllAt
          (reveal_partial_unreached env cfg tp name)
  unfolding reveal_partial_unreached
  reveal_partial-Opened tp name = record {
    run = λ w all.
        both (OpenedAt tp) (reveal_partial_unreached env cfg tp name w)
          ((reveal_partial-All env cfg holds tp name).run w all) (λ u. opens.at w u);
  }
    where
      opens : Returns (λ u w. OpenedAt tp w) (reveal_partial_unreached env cfg tp name)
      opens = Returns-bind _ _ λ u.
          Returns-bind _ _ λ leo.
            Returns-bind _ _ λ u. Returns-bind _ _ λ c. Returns-bind _ _ λ u. partial-Opened tp
