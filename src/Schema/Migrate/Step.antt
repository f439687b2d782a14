-- ===== src/Schema/Migrate/Step.antt =====
-- _schema.py: one statement of `migrate` that goes through.
use ksqlite.Prelude.{◌≡◌, refl, sym, ap, ◌∙◌, true, false, Option, none, some}
use ksqlite.Errors.{Result, ok, err, ok_injective}
use ksqlite.Text.{Text}
use ksqlite.World.{Outcome, done, busy, failure, cancel}
use ksqlite.Schema.Migrate.{
  Boot, Task, ◌>>=◌, next, Sqlite, Ddl, emitted, execute, execute_migration_ddl, fetch, fetched,
  remapped, by_outcome, altered, counted,
}

-- A block that returned: its first part did, and then the rest.
pub parts_of-returned :
    {K A B : Type 0} (m : Task K A) (f : A → Task K B) (s : Boot K) (b : B) (t : Boot K)
    → (m >>= f) s ≡ (ok b, t)
    → (a : A) × (s1 : Boot K) × (m s ≡ (ok a, s1)) × (f a s1 ≡ (ok b, t))
unfolding ◌>>=◌
parts_of-returned {K} {A} {B} m f s b t h = parts (m s) refl h
  where
    parts :
        (x : Result A × Boot K)
        → m s ≡ x
        → next x f ≡ (ok b, t)
        → (a : A) × (s1 : Boot K) × (m s ≡ (ok a, s1)) × (f a s1 ≡ (ok b, t))
    parts (ok a, s1) e h = (a, s1, e, h)
    parts (err x, s1) e h = cc h

-- The state that a returned value comes with, and the value.
pub state_of :
    {K A : Type 0} {a b : A} {s t : Boot K}
    → ◌≡◌ {A = Result A × Boot K} (ok a, s) (ok b, t)
    → s ≡ t
state_of e = ap (λ x. x.1) e

pub value_of :
    {K A : Type 0} {a b : A} {s t : Boot K}
    → ◌≡◌ {A = Result A × Boot K} (ok a, s) (ok b, t)
    → a ≡ b
value_of e = ok_injective (ap (λ x. x.0) e)

module _ {K : Type 0} (sqlite : Sqlite K) where
  -- The statement is executed and the rows stay.
  abbrev pub Ran : Ddl → Boot K → Boot K → Type 0
  Ran d s t = (sqlite.execute_ddl d s.catalog ≡ some t.catalog) × (t.db ≡ s.db)

  settled_ddl :
      (d : Ddl) (s t : Boot K) (o : Outcome) (k : Option K)
      → sqlite.execute_ddl d s.catalog ≡ k
      → by_outcome sqlite o (altered sqlite k (counted sqlite s)) (counted sqlite s) ≡ (ok tt, t)
      → Ran d s t
  settled_ddl d s t done none e h = cc h
  settled_ddl d s t done (some k) e h =
      (e ∙ ap (λ x. some x.catalog) (state_of h), ap (λ x. x.db) (sym (state_of h)))
  settled_ddl d s t busy k e h = cc h
  settled_ddl d s t failure k e h = cc h
  settled_ddl d s t (cancel true) k e h = cc h
  settled_ddl d s t (cancel false) k e h = cc h

  pub execute-Ran : (d : Ddl) (s t : Boot K) → execute sqlite d s ≡ (ok tt, t) → Ran d s t
  unfolding execute
  execute-Ran d s t h =
      settled_ddl d s t (sqlite.outcome s.calls) (sqlite.execute_ddl d s.catalog) refl h

  pub execute_migration_ddl-Ran :
      (text : Text) (s t : Boot K)
      → execute_migration_ddl sqlite text s ≡ (ok tt, t)
      → Ran (emitted text) s t
  unfolding execute_migration_ddl
  execute_migration_ddl-Ran text s t h = by_result (execute sqlite (emitted text) s) refl h
    where
      by_result :
          (x : Result (Unit {0}) × Boot K)
          → execute sqlite (emitted text) s ≡ x
          → remapped sqlite x ≡ (ok tt, t)
          → Ran (emitted text) s t
      by_result (ok u, s1) e h = execute-Ran (emitted text) s t (e ∙ h)
      by_result (err x, s1) e h = cc h

  -- A read gives what is in the catalog and changes nothing.
  abbrev pub Idle : Boot K → Boot K → Type 0
  Idle s t = (t.catalog ≡ s.catalog) × (t.db ≡ s.db)

  pub fetch-returned :
      {A : Type 0} (f : K → A) (a : A) (s t : Boot K)
      → fetch sqlite f s ≡ (ok a, t)
      → (f s.catalog ≡ a) × Idle s t
  unfolding fetch
  fetch-returned {A} f a s t h = by_end (sqlite.outcome s.calls) h
    where
      by_end :
          (o : Outcome)
          → fetched sqlite o (f s.catalog) (counted sqlite s) ≡ (ok a, t)
          → (f s.catalog ≡ a) × Idle s t
      by_end done h =
          (value_of h, (ap (λ x. x.catalog) (sym (state_of h)), ap (λ x. x.db) (sym (state_of h))))
      by_end busy h = cc h
      by_end failure h = cc h
      by_end (cancel b) h = cc h
