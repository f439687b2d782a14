-- ===== src/Store/Start/Rollback.antt =====
-- _store.py, `start`: what is constructed and what is closed.
use ksqlite.Prelude.{ℕ, suc, ◌≡◌, refl, ap, ◌∙◌, List, [], ◌∷◌, ◌++◌, map, inl, inr}
use mathlib.Core.List.{reverse}
use ksqlite.Errors.{Exn, Result, ok, err, lifecycle_error, ◌>>◌, Result-cases}
use ksqlite.Text.{Text}
use ksqlite.Schema.Migrate.{Boot, Sqlite, check_sqlite_version}
use ksqlite.Schema.Migrate.Safe.{KeepsRows, migrate-Safe}
use ksqlite.Store.{Config, validate_config}
use ksqlite.Store.Run.{Store, RunState, new, running, stopping, closed, start_enter, start_exit}
use ksqlite.Store.Start.{
  Part, pool, producer, admin, Event, constructed, closing, Parts, Locals, Opening, as_start_error,
  open_admin, open_producer, open_schema, after_schema, open_parts, rollback_steps, suppressed,
  roll_back, ended, open_or_roll_back, Started, start, settled,
}

-- The events of a failed start: some parts were constructed, then the closing of each was attempted,
-- the last one first; and of one that succeeded.
abbrev pub IsUndone : {K : Type 0} → Started K → Type 0
IsUndone (ok u, es, s) = es ≡ constructed pool ∷ constructed producer ∷ constructed admin ∷ []
IsUndone (err e, es, s) =
    (opened : List Part) × (es
      ≡ map (λ p. constructed p) opened ++ map (λ p. closing p) (reverse opened))

-- The variables hold what was constructed.
abbrev IsInStep : Locals → List Event → Type 0
IsInStep l es =
    (opened : List Part) × (es ≡ map (λ p. constructed p) opened)
    × (rollback_steps l ≡ reverse opened)

roll_back-closing :
    (close : Part → Result (Unit {0})) (ps : List Part)
    → roll_back close ps ≡ map (λ p. closing p) ps
unfolding roll_back
roll_back-closing close [] = refl
roll_back-closing close (p ∷ ps) =
    forgotten (close p) (closing p ∷ roll_back close ps)
    ∙ ap (λ es. closing p ∷ es) (roll_back-closing close ps)
  where
    forgotten : (r : Result (Unit {0})) (es : List Event) → suppressed r es ≡ es
    forgotten (ok u) es = refl
    forgotten (err e) es = refl

module _ {K : Type 0} (parts : Parts) (sqlite : Sqlite K) (config : Config) where
  -- How the block ends, for the rollback: with all three parts, or with the variables in step.
  abbrev all_three : List Event
  all_three = constructed pool ∷ constructed producer ∷ constructed admin ∷ []

  abbrev IsOpening : Boot K → Opening K → Type 0
  IsOpening s o =
      IsInStep o.locals o.events × (o.result ≡ ok tt → o.events ≡ all_three) × KeepsRows s o.boot

  open_admin-IsOpening :
      (s0 s : Boot K)
      → KeepsRows s0 s
      → IsOpening s0
          (open_admin parts sqlite config (constructed pool ∷ constructed producer ∷ []) s)
  open_admin-IsOpening s0 s same = elim (Result-cases (parts.construct admin)) [
    | inl (e, bad) ↦ rw (bad, open_admin) (((pool ∷ producer ∷ []), refl, refl), (λ h. cc h), same)
    | inr (u, good) ↦
        rw (good, open_admin) (((pool ∷ producer ∷ admin ∷ []), refl, refl), (λ h. refl), same)
  ]

  open_producer-IsOpening :
      (s0 s : Boot K)
      → KeepsRows s0 s
      → IsOpening s0 (open_producer parts sqlite config (constructed pool ∷ []) s)
  open_producer-IsOpening s0 s same = elim (Result-cases (parts.construct producer)) [
    | inl (e, bad) ↦ rw (bad, open_producer) (((pool ∷ []), refl, refl), (λ h. cc h), same)
    | inr (u, good) ↦
        rw (good, open_producer)
          (elim (Result-cases (as_start_error (parts.begin producer))) [
            | inl (e, late) ↦
                rw (late, open_producer) (((pool ∷ producer ∷ []), refl, refl), (λ h. cc h), same)
            | inr (u, begun) ↦ rw (begun, open_producer) (open_admin-IsOpening s0 s same)
          ])
  ]

  after_schema-IsOpening :
      (s0 : Boot K) (x : Result (Unit {0}) × Boot K)
      → KeepsRows s0 x.1
      → IsOpening s0 (after_schema parts sqlite config (constructed pool ∷ []) x)
  after_schema-IsOpening s0 (err e, s) same = (((pool ∷ []), refl, refl), (λ h. cc h), same)
  after_schema-IsOpening s0 (ok u, s) same = open_producer-IsOpening s0 s same

  open_schema-KeepsRows : (s : Boot K) → KeepsRows s (open_schema parts sqlite config s).1
  open_schema-KeepsRows s = elim (Result-cases parts.connect) [
    | inl (e, bad) ↦ rw bad (refl, refl)
    | inr (u, good) ↦ rw good ((migrate-Safe sqlite config.generated_columns config.indexes).at s).0
  ]

  open_parts-IsOpening : (s : Boot K) → IsOpening s (open_parts parts sqlite config s)
  unfolding open_parts
  open_parts-IsOpening s = elim (Result-cases (parts.construct pool)) [
    | inl (e, bad) ↦ rw (bad, open_parts) (([], refl, refl), (λ h. cc h), (refl, refl))
    | inr (u, good) ↦
        rw (good, open_parts)
          (after_schema-IsOpening s (open_schema parts sqlite config s) (open_schema-KeepsRows s))
  ]

  ended-IsUndone :
      (s : Boot K) (o : Opening K)
      → IsOpening s o
      → IsUndone (ended parts o) × KeepsRows s (ended parts o).2
  ended-IsUndone s o ((opened, in_order, steps), returned, same) = elim (Result-cases o.result) [
    | inl (e, bad) ↦
        rw (bad, ended)
          (
            (
              opened,
              λ j.
                  in_order j
                  ++ (ap (roll_back parts.close) steps
                        ∙ roll_back-closing parts.close (reverse opened))
                      j,
            ),
            same,
          )
    | inr (u, good) ↦ rw (good, ended) (returned good, same)
  ]

-- How `start` ends: the run state, what was opened and closed, and the rows of the file.
abbrev pub Ran : {K : Type 0} → RunState → RunState → Started K → Type 0
Ran before after (ok u, es, s) = (before ≡ new) × (after ≡ running)
Ran before after (err e, es, s) = after ≡ before

abbrev pub IsStarted : {K : Type 0} → Store → Boot K → Store × Started K → Type 0
IsStarted store s y = Ran store.run_state y.0.run_state y.1 × IsUndone y.1 × KeepsRows s y.1.2

module _ {K : Type 0} (parts : Parts) (sqlite : Sqlite K) (format : Text → Text → ℕ → Result Text)
    (version : ℕ × ℕ) (config : Config) (s : Boot K) where
  settled-IsStarted :
      (store entered : Store) (x : Started K)
      → store.run_state ≡ new
      → entered.run_state ≡ store.run_state
      → IsUndone x × KeepsRows s x.2
      → IsStarted store s (settled entered x)
  unfolding start_exit
  settled-IsStarted store entered (ok u, es, t) is_new same (undone, rows) =
      ((is_new, refl), undone, rows)
  settled-IsStarted store entered (err e, es, t) is_new same (undone, rows) = (same, undone, rows)

  refused-IsStarted :
      (store : Store) (e : Exn)
      → start_enter store ≡ err e
      → IsStarted store s (start parts sqlite format version config store s)
  unfolding start
  refused-IsStarted store e refused = rw (refused, start) (refl, ([], refl), (refl, refl))

  entered-IsStarted :
      (store entered : Store)
      → start_enter store ≡ ok entered
      → store.run_state ≡ new
      → entered.run_state ≡ store.run_state
      → IsStarted store s (start parts sqlite format version config store s)
  unfolding start start_exit open_or_roll_back
  entered-IsStarted store entered let_in is_new same =
      elim (Result-cases (validate_config format config >> check_sqlite_version version)) [
        | inl (e, bad) ↦ rw (let_in, bad, start) (same, ([], refl), (refl, refl))
        | inr (u, good) ↦
            rw (let_in, good, start)
              (settled-IsStarted store entered (open_or_roll_back parts sqlite config s) is_new same
                (ended-IsUndone parts sqlite config s (open_parts parts sqlite config s)
                  (open_parts-IsOpening parts sqlite config s)))
      ]

-- A `start` that returns has found a new store, has made it running and has constructed the pool, the
-- producer and the admin client, and closed none; one that raises leaves the run state, and has
-- attempted to close each part that it had constructed, once, in the reverse order, whatever the
-- closers raise. In both cases the rows and the checkpoints in the file are what they were.
pub start-IsStarted :
    {K : Type 0} (parts : Parts) (sqlite : Sqlite K) (format : Text → Text → ℕ → Result Text)
    (version : ℕ × ℕ) (config : Config) (store : Store) (s : Boot K)
    → IsStarted store s (start parts sqlite format version config store s)
unfolding start_enter
start-IsStarted parts sqlite format version config store s = by_state store.run_state refl
  where
    at_state : RunState → Result Store
    at_state new = ok (record store { starting = suc store.starting })
    at_state _ = err lifecycle_error

    by_state :
        (r : RunState)
        → store.run_state ≡ r
        → IsStarted store s (start parts sqlite format version config store s)
    by_state new e =
        entered-IsStarted parts sqlite format version config s store
          (record store { starting = suc store.starting }) (ap at_state e) e refl
    by_state running e =
        refused-IsStarted parts sqlite format version config s store lifecycle_error
          (rw (e, start_enter) refl)
    by_state stopping e =
        refused-IsStarted parts sqlite format version config s store lifecycle_error
          (rw (e, start_enter) refl)
    by_state closed e =
        refused-IsStarted parts sqlite format version config s store lifecycle_error
          (rw (e, start_enter) refl)
