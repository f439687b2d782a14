-- ===== src/Schema/Migrate/Pieces.antt =====
-- _schema.py: the parts of `migrate` that return, and what is in the catalog behind them.
use ksqlite.Prelude.{
  Each, ◌≡◌, refl, sym, ap, ◌∙◌, Bool, true, false, Option, none, some, List, [], ◌∷◌, ◌==◌, not,
  inl, inr, if◌then◌else◌,
}
use mathlib.Core.Path.{subst}
use ksqlite.Errors.{ok, err, config_error}
use ksqlite.Text.{Text, text_in, contains}
use ksqlite.Types.{GeneratedColumn, Index}
use ksqlite.Sql.{render_column_clause, emit_add_column, emit_create_index}
use ksqlite.World.{Outcome, done, busy, failure, cancel}
use ksqlite.Schema.Migrate.{
  Boot, Sqlite, Ddl, execute_migration_ddl, delete_all_owned, Shape, shape_eq, declared_shape,
  IndexEntry, index_entry, key_columns, existing_index_shape, shape_of, check_column_drift, checked,
  reconcile_columns, reconcile_index, reconcile_indexes, create_base, asserted, counted, by_outcome,
}
use ksqlite.Schema.Migrate.Step.{
  parts_of-returned, state_of, value_of, execute-Ran, execute_migration_ddl-Ran, Idle,
  fetch-returned,
}
use ksqlite.Schema.Migrate.Documented.{
  IsBase, shape_from, index_shape, Present, HasColumn, IsSettled, IsSpelled, Keeps, IsDocumented,
}

module _ {K : Type 0} (sqlite : Sqlite K) (IsColumn : GeneratedColumn → Type 0)
    (IsIndex : Index → Type 0) (documented : IsDocumented sqlite IsColumn IsIndex) where
  abbrev Kept : K → K → Type 0
  Kept = Keeps sqlite IsColumn IsIndex

  abbrev SameColumns : K → K → Type 0
  SameColumns k k' = sqlite.table_xinfo k' ≡ sqlite.table_xinfo k

  pub same : (k : K) → Kept k k
  same k = record {
    objects = λ d b p. p;
    table = λ p. p;
    columns = λ c b p. p;
    indexes = λ i b p. p;
    taken = λ i b p. p;
  }

  pub then_also : {a b c : K} → Kept a b → Kept b c → Kept a c
  then_also p q = record {
    objects = λ d b h. q.objects d b (p.objects d b h);
    table = λ h. q.table (p.table h);
    columns = λ c b h. q.columns c b (p.columns c b h);
    indexes = λ i b h. q.indexes i b (p.indexes i b h);
    taken = λ i b h. q.taken i b (p.taken i b h);
  }

  Kept-IsSettled :
      {a b : K} (i : Index) → IsIndex i → Kept a b → IsSettled sqlite a i → IsSettled sqlite b i
  Kept-IsSettled i is kept (inl there) = inl (kept.indexes i is there)
  Kept-IsSettled i is kept (inr taken) = inr (kept.taken i is taken)

  -- The base schema.
  pub create_base-Present :
      (ds : List Ddl) (s t : Boot K)
      → Each IsBase ds
      → create_base sqlite ds s ≡ (ok tt, t)
      → Each (Present sqlite t.catalog) ds × Kept s.catalog t.catalog × (t.db ≡ s.db)
  unfolding create_base
  create_base-Present [] s t base h = (
    tt,
    subst (Kept s.catalog) (ap (λ x. x.catalog) (state_of h)) (same s.catalog),
    ap (λ x. x.db) (sym (state_of h)),
  )
  create_base-Present (d ∷ ds) s t (is_base, base) h =
      let (u, s1, first, rest) = parts_of-returned _ _ s tt t h in
      let (ran, rows) = execute-Ran sqlite d s s1 first in
      let (there, kept, rows2) = create_base-Present ds s1 t base rest in
      (
        (kept.objects d is_base (documented.creates d s.catalog s1.catalog is_base ran), there),
        then_also (documented.keeps d s.catalog s1.catalog (inl is_base) ran) kept,
        rows2 ∙ rows,
      )

  -- A column that was there, with its clause in the text that was read; or one that is added.
  pub column-HasColumn :
      (k0 : K) (stored : Text) (c : GeneratedColumn) (s t : Boot K) (there : Bool)
      → sqlite.schema_sql k0 ≡ some stored
      → Kept k0 s.catalog
      → IsColumn c
      → text_in c.name (sqlite.table_xinfo k0) ≡ there
      → (if there
            then checked sqlite (check_column_drift c stored)
            else execute_migration_ddl sqlite (emit_add_column c))
          s
        ≡ (ok tt, t)
      → HasColumn sqlite t.catalog c × Kept s.catalog t.catalog × (t.db ≡ s.db)
  unfolding check_column_drift
  column-HasColumn k0 stored c s t true at_k0 kept is_column named h =
      by_clause (contains stored (render_column_clause c)) refl h
    where
      by_clause :
          (b : Bool)
          → contains stored (render_column_clause c) ≡ b
          → checked sqlite (if b then ok tt else err config_error) s ≡ (ok tt, t)
          → HasColumn sqlite t.catalog c × Kept s.catalog t.catalog × (t.db ≡ s.db)
      by_clause true e h =
          subst (λ t. HasColumn sqlite t.catalog c × Kept s.catalog t.catalog × (t.db ≡ s.db))
            (state_of h)
            (kept.columns c is_column (named, (stored, at_k0, e)), same s.catalog, refl)
      by_clause false e h = cc h
  column-HasColumn k0 stored c s t false at_k0 kept is_column named h =
      let (ran, rows) = execute_migration_ddl-Ran sqlite (emit_add_column c) s t h in
      (
        documented.adds c s.catalog t.catalog is_column ran,
        documented.keeps _ s.catalog t.catalog (inr (inl (c, is_column, refl))) ran,
        rows,
      )

  pub reconcile_columns-HasColumn :
      (k0 : K) (stored : Text) (cs : List GeneratedColumn) (s t : Boot K)
      → sqlite.schema_sql k0 ≡ some stored
      → Kept k0 s.catalog
      → Each IsColumn cs
      → reconcile_columns sqlite (sqlite.table_xinfo k0) stored cs s ≡ (ok tt, t)
      → Each (HasColumn sqlite t.catalog) cs × Kept s.catalog t.catalog × (t.db ≡ s.db)
  unfolding reconcile_columns
  reconcile_columns-HasColumn k0 stored [] s t at_k0 kept all h = (
    tt,
    subst (Kept s.catalog) (ap (λ x. x.catalog) (state_of h)) (same s.catalog),
    ap (λ x. x.db) (sym (state_of h)),
  )
  reconcile_columns-HasColumn k0 stored (c ∷ cs) s t at_k0 kept (is_column, all) h =
      let (u, s1, first, rest) = parts_of-returned _ _ s tt t h in
      let (there, kept1, rows) =
        column-HasColumn k0 stored c s s1 _ at_k0 kept is_column refl first in
      let (others, kept2, rows2) =
        reconcile_columns-HasColumn k0 stored cs s1 t at_k0 (then_also kept kept1) all rest in
      ((kept2.columns c is_column there, others), then_also kept1 kept2, rows2 ∙ rows)

  pub shape_of-returned :
      (name : Text) (entry : Option IndexEntry) (shape : Option Shape) (s s1 t : Boot K)
      → s1.catalog ≡ s.catalog
      → shape_of sqlite name entry s1 ≡ (ok shape, t)
      → (shape_from sqlite s.catalog name entry ≡ shape) × Idle sqlite s1 t
  shape_of-returned name none shape s s1 t at_s h =
      (value_of h, (ap (λ x. x.catalog) (sym (state_of h)), ap (λ x. x.db) (sym (state_of h))))
  shape_of-returned name (some entry) shape s s1 t at_s h =
      let (xinfo, s2, first, rest) = parts_of-returned _ _ s1 shape t h in
      let (read, still) = fetch-returned sqlite (sqlite.index_xinfo name) xinfo s1 s2 first in
      (
        ap (λ x. some (key_columns x, not (entry.unique == 0)))
              (ap (sqlite.index_xinfo name) (sym at_s) ∙ read)
            ∙ value_of rest,
        (
          ap (λ x. x.catalog) (sym (state_of rest)) ∙ still.0,
          ap (λ x. x.db) (sym (state_of rest)) ∙ still.1,
        ),
      )

  -- The shape that is read is the one of the catalog.
  pub existing_index_shape-returned :
      (name : Text) (shape : Option Shape) (s t : Boot K)
      → existing_index_shape sqlite name s ≡ (ok shape, t)
      → (index_shape sqlite s.catalog name ≡ shape) × Idle sqlite s t
  unfolding existing_index_shape
  existing_index_shape-returned name shape s t h =
      let (rows, s1, first, rest) = parts_of-returned _ _ s shape t h in
      let (read, still) = fetch-returned sqlite sqlite.index_list rows s s1 first in
      let (from, still2) =
        shape_of-returned name (index_entry name rows) shape s s1 t still.0 rest in
      (
        ap (λ rs. shape_from sqlite s.catalog name (index_entry name rs)) read ∙ from,
        (still2.0 ∙ still.0, still2.1 ∙ still.1),
      )

  pub index-IsSettled :
      (i : Index) (shape : Option Shape) (s t : Boot K)
      → IsIndex i
      → index_shape sqlite s.catalog i.name ≡ shape
      → reconcile_index sqlite i shape s ≡ (ok tt, t)
      → (IsSpelled sqlite t.catalog i → IsSettled sqlite t.catalog i)
        × SameColumns s.catalog t.catalog
        × Kept s.catalog t.catalog
        × (t.db ≡ s.db)
  unfolding reconcile_index
  index-IsSettled i none s t is_index read h =
      let (ran, rows) = execute_migration_ddl-Ran sqlite (emit_create_index i) s t h in
      (
        λ spelled. documented.makes i s.catalog t.catalog is_index spelled read ran,
        documented.leaves_columns i s.catalog t.catalog is_index ran,
        documented.keeps _ s.catalog t.catalog (inr (inr (i, is_index, refl))) ran,
        rows,
      )
  index-IsSettled i (some shape) s t is_index read h =
      by_shape (shape_eq shape (declared_shape i)) refl h
    where
      by_shape :
          (b : Bool)
          → shape_eq shape (declared_shape i) ≡ b
          → checked sqlite (if b then ok tt else err config_error) s ≡ (ok tt, t)
          → (IsSpelled sqlite t.catalog i → IsSettled sqlite t.catalog i)
            × SameColumns s.catalog t.catalog
            × Kept s.catalog t.catalog
            × (t.db ≡ s.db)
      by_shape true e h =
          subst
            (λ t.
              (IsSpelled sqlite t.catalog i → IsSettled sqlite t.catalog i)
              × SameColumns s.catalog t.catalog
              × Kept s.catalog t.catalog
              × (t.db ≡ s.db))
            (state_of h) ((λ spelled. inl (shape, read, e)), refl, same s.catalog, refl)
      by_shape false e h = cc h

  pub reconcile_indexes-IsSettled :
      (listed : List Index) (s t : Boot K)
      → Each IsIndex listed
      → Each (IsSpelled sqlite t.catalog) listed
      → reconcile_indexes sqlite listed s ≡ (ok tt, t)
      → Each (IsSettled sqlite t.catalog) listed
        × SameColumns s.catalog t.catalog
        × Kept s.catalog t.catalog
        × (t.db ≡ s.db)
  unfolding reconcile_indexes
  reconcile_indexes-IsSettled [] s t all spelled h = (
    tt,
    ap (λ x. sqlite.table_xinfo x.catalog) (sym (state_of h)),
    subst (Kept s.catalog) (ap (λ x. x.catalog) (state_of h)) (same s.catalog),
    ap (λ x. x.db) (sym (state_of h)),
  )
  reconcile_indexes-IsSettled (i ∷ is) s t (is_index, all) (spelled, all_spelled) h =
      let (shape, s1, looked, more) = parts_of-returned _ _ s tt t h in
      let (read, still) = existing_index_shape-returned i.name shape s s1 looked in
      let (u, s2, made, rest) = parts_of-returned _ _ s1 tt t more in
      let (there, columns1, kept1, rows) =
        index-IsSettled i shape s1 s2 is_index
          (ap (λ k. index_shape sqlite k i.name) still.0 ∙ read) made in
      let (others, columns2, kept2, rows2) =
        reconcile_indexes-IsSettled is s2 t all all_spelled rest in
      (
        (
          Kept-IsSettled i is_index kept2
              (there (subst (λ xs. Each (λ c. text_in c xs ≡ true) i.columns) columns2 spelled)),
          others,
        ),
        columns2 ∙ columns1 ∙ ap sqlite.table_xinfo still.0,
        subst (λ k. Kept k t.catalog) still.0 (then_also kept1 kept2),
        rows2 ∙ rows ∙ still.1,
      )

  pub deleted :
      (s t : Boot K)
      → delete_all_owned sqlite s ≡ (ok tt, t)
      → (t.catalog ≡ s.catalog) × (t.db ≡ record s.db { owned = [] })
  unfolding delete_all_owned
  deleted s t h = by_end (sqlite.outcome s.calls) h
    where
      by_end :
          (o : Outcome)
          → by_outcome sqlite o
              (ok (record (counted sqlite s) { db = record s.db { owned = [] } }))
              (counted sqlite s)
            ≡ (ok tt, t)
          → (t.catalog ≡ s.catalog) × (t.db ≡ record s.db { owned = [] })
      by_end done h = (ap (λ x. x.catalog) (sym (state_of h)), ap (λ x. x.db) (sym (state_of h)))
      by_end busy h = cc h
      by_end failure h = cc h
      by_end (cancel true) h = cc h
      by_end (cancel false) h = cc h

  pub asserted-returned :
      (row : Option Text) (stored : Text) (s t : Boot K)
      → asserted sqlite row s ≡ (ok stored, t)
      → (row ≡ some stored) × (s ≡ t)
  asserted-returned none stored s t h = cc h
  asserted-returned (some r) stored s t h = (ap some (value_of h), state_of h)
