-- ===== src/Examples/Startup.antt =====
-- The theorems on the opening and the closing of a store, at concrete inputs: one generated column and
-- one index, on a catalog that knows no others.
use ksqlite.Prelude.{
  Each, ℕ, ◌≡◌, refl, sym, ap, ◌∙◌, Bool, true, false, Option, none, some, [], ◌∷◌, ◌++◌, inl, inr,
  arith, ◌<◌, ◌⊎◌, if◌then◌else◌,
}
use mathlib.Core.Path.{subst}
use ksqlite.Prelude.Int.{pos}
use ksqlite.Errors.{Result, ok, err, kafka_error, cancelled}
use ksqlite.Text.{Text, codes, text_eq, text_in, contains, starts_with}
use ksqlite.Types.{GeneratedColumn, Index}
use ksqlite.Sql.{
  render_column_clause, emit_add_column, emit_create_index, escape_string_literal, double_quotes,
  join_columns,
}
use ksqlite.World.{done}
use ksqlite.Schema.Migrate.{
  Boot, Sqlite, Ddl, create_records, create_checkpoint, create_owned, create_records_tp,
  create_records_key, create_view, emitted, shape_eq, by_seqno, index_entry, migrate, ◌>>=◌,
  execute, delete_all_owned, fetch, reconcile_columns, reconcile_indexes,
}
use ksqlite.Schema.Migrate.Migrated.{IsMigrated, migrate-IsMigrated}
use ksqlite.Schema.Migrate.Again.{migrate_again}
use ksqlite.Store.{Config}
use ksqlite.Store.Run.{Store, fresh, stopping, closed, Steps, appended, append_exit}
use ksqlite.Store.Start.{Parts, producer, admin, start}
use ksqlite.Store.Start.Rollback.{IsStarted, start-IsStarted}
use ksqlite.Store.Stop.{
  CloseStep, consumer_stop, admin_close, close_steps, close_all, ends, IsFirst, close_all-IsFirst,
}
use ksqlite.Store.Drain.{remaining, step-Nearer, stop_drains}
use ksqlite.Pool.Open.{Driver, IsOpened, open_connection, open_connection-IsOpened}
use ksqlite.Schema.Migrate.Documented.{
  IsBase, Present, HasColumn, HasIndex, IsTaken, IsSpelled, IsDdl, Keeps, IsDocumented,
}

abbrev column : GeneratedColumn
column = record { name = codes "c"; json_path = codes "$.c"; sql_type = codes "INT" }

abbrev index : Index
index = record { name = codes "i"; columns = codes "c" ∷ []; unique = false }

-- Whether the column and the index are there; the base schema always is.
record Catalog : Type 0 where
  has_column : Bool
  has_index : Bool

abbrev added : Catalog → Option Catalog
added k = if k.has_column then none else some (record k { has_column = true })

abbrev ddl_text : Text → Catalog → Option Catalog
ddl_text t k =
    if text_eq t (emit_add_column column)
    then added k
    else if text_eq t (emit_create_index index)
    then some (record k { has_index = true })
    else none

abbrev ddl : Ddl → Catalog → Option Catalog
ddl (emitted t) k = ddl_text t k
ddl _ k = some k

abbrev table_text : Bool → Text
table_text b =
    codes "CREATE TABLE _records (payload TEXT"
    ++ ((if b then codes ", " ++ render_column_clause column else []) ++ codes ")")

abbrev catalog_sqlite : Sqlite Catalog
catalog_sqlite = record {
  outcome = λ n. done;
  execute_ddl = ddl;
  table_xinfo = λ k. codes "payload" ∷ (if k.has_column then codes "c" ∷ [] else []);
  schema_sql = λ k. some (table_text k.has_column);
  index_list = λ k. if k.has_index then record { name = codes "i"; unique = 0 } ∷ [] else [];
  index_xinfo = λ name k. record { seqno = 0; name = some (codes "c"); key = 1 } ∷ [];
}

abbrev IsColumn : GeneratedColumn → Type 0
IsColumn c = c ≡ column

abbrev IsIndex : Index → Type 0
IsIndex i = i ≡ index

base-Present : (d : Ddl) (k : Catalog) → IsBase d → Present catalog_sqlite k d
base-Present create_records k b = refl
base-Present create_checkpoint k b = refl
base-Present create_owned k b = refl
base-Present create_records_tp k b = refl
base-Present create_records_key k b = refl
base-Present create_view k b = refl
base-Present (emitted t) k b = absurd b

with_column :
    (b : Bool) → HasColumn catalog_sqlite (record { has_column = true; has_index = b }) column
unfolding text_in text_eq contains starts_with render_column_clause escape_string_literal
    double_quotes
with_column b = (refl, (table_text true, refl, refl))

with_index :
    (b : Bool) → HasIndex catalog_sqlite (record { has_column = b; has_index = true }) index
unfolding text_eq index_entry shape_eq by_seqno
with_index b = (_, refl, refl)

same_catalog : {k k' : Catalog} → some k ≡ some k' → k ≡ k'
same_catalog e = cc e

added-HasColumn :
    (b i : Bool) (k' : Catalog)
    → added (record { has_column = b; has_index = i }) ≡ some k'
    → HasColumn catalog_sqlite k' column
added-HasColumn true i k' h = cc h
added-HasColumn false i k' h =
    subst (λ k. HasColumn catalog_sqlite k column) (same_catalog h) (with_column i)

add_ddl : (k : Catalog) → ddl_text (emit_add_column column) k ≡ added k
unfolding text_eq emit_add_column render_column_clause escape_string_literal double_quotes
add_ddl k = refl

index_ddl :
    (k : Catalog) → ddl_text (emit_create_index index) k ≡ some (record k { has_index = true })
unfolding text_eq emit_add_column emit_create_index join_columns render_column_clause
    escape_string_literal double_quotes
index_ddl k = refl

-- The name of the index is not taken.
untaken :
    (a b : Bool)
    → IsTaken catalog_sqlite (record { has_column = a; has_index = b }) index
    → {A : Type 0} → A
unfolding index_entry
untaken a true (absent, there) = cc (sym (with_index a).1 ∙ absent)
untaken a false (absent, there) =
    cc (ap Catalog.has_index (same_catalog (sym (index_ddl _) ∙ there)))

abbrev Kept : Catalog → Catalog → Type 0
Kept = Keeps catalog_sqlite IsColumn IsIndex

column-kept :
    (a b a' b' : Bool)
    → (a ≡ true → a' ≡ true)
    → HasColumn catalog_sqlite (record { has_column = a; has_index = b }) column
    → HasColumn catalog_sqlite (record { has_column = a'; has_index = b' }) column
unfolding text_in text_eq
column-kept a b true b' columns h = with_column b'
column-kept true b false b' columns h = cc (columns refl)
column-kept false b false b' columns h = cc h.0

index-kept :
    (a b a' b' : Bool)
    → (b ≡ true → b' ≡ true)
    → HasIndex catalog_sqlite (record { has_column = a; has_index = b }) index
    → HasIndex catalog_sqlite (record { has_column = a'; has_index = b' }) index
unfolding index_entry
index-kept a b a' true indexes h = with_index a'
index-kept a true a' false indexes h = cc (indexes refl)
index-kept a false a' false indexes h = cc h.1

-- Nothing is lost from one catalog to one that has as much.
kept :
    (a b a' b' : Bool)
    → (a ≡ true → a' ≡ true)
    → (b ≡ true → b' ≡ true)
    → Kept (record { has_column = a; has_index = b }) (record { has_column = a'; has_index = b' })
kept a b a' b' columns indexes = record {
  objects = λ d base h. base-Present d (record { has_column = a'; has_index = b' }) base;
  table = λ h. (table_text a', refl);
  columns = λ c is h.
      subst (HasColumn catalog_sqlite (record { has_column = a'; has_index = b' })) (sym is) (
        column-kept a b a' b' columns
          (subst (HasColumn catalog_sqlite (record { has_column = a; has_index = b })) is h));
  indexes = λ i is h.
      subst (HasIndex catalog_sqlite (record { has_column = a'; has_index = b' })) (sym is) (
        index-kept a b a' b' indexes
          (subst (HasIndex catalog_sqlite (record { has_column = a; has_index = b })) is h));
  taken = λ i is h.
      untaken a b (subst (IsTaken catalog_sqlite (record { has_column = a; has_index = b })) is h);
}

added-Kept :
    (b i : Bool) (k' : Catalog)
    → added (record { has_column = b; has_index = i }) ≡ some k'
    → Kept (record { has_column = b; has_index = i }) k'
added-Kept true i k' h = cc h
added-Kept false i k' h =
    subst (Kept (record { has_column = false; has_index = i })) (same_catalog h)
      (kept false i true i (λ e. refl) (λ e. e))

ddl-Kept :
    (d : Ddl) (k k' : Catalog)
    → IsDdl catalog_sqlite IsColumn IsIndex d
    → ddl d k ≡ some k'
    → Kept k k'
ddl-Kept d k k' (inl base) h =
    subst (Kept k) (same_catalog (sym (base-Present d k base) ∙ h))
      (kept k.has_column k.has_index k.has_column k.has_index (λ e. e) (λ e. e))
ddl-Kept d k k' (inr (inl (c, is, e))) h = added-Kept k.has_column k.has_index k' (
    sym (add_ddl k)
    ∙ ap (λ c. ddl (emitted (emit_add_column c)) k) (sym is)
    ∙ ap (λ d. ddl d k) (sym e)
    ∙ h)
ddl-Kept d k k' (inr (inr (i, is, e))) h =
    subst (Kept k)
      (same_catalog (
        sym (index_ddl k)
        ∙ ap (λ i. ddl (emitted (emit_create_index i)) k) (sym is)
        ∙ ap (λ d. ddl d k) (sym e)
        ∙ h))
      (kept k.has_column k.has_index k.has_column true (λ e. e) (λ e. refl))

catalog-IsDocumented : IsDocumented catalog_sqlite IsColumn IsIndex
catalog-IsDocumented = record {
  creates = λ d k k' base h. base-Present d k' base;
  adds = λ c k k' is h. subst (HasColumn catalog_sqlite k') (sym is) (
      added-HasColumn k.has_column k.has_index k'
        (sym (add_ddl k) ∙ ap (λ c. ddl (emitted (emit_add_column c)) k) (sym is) ∙ h));
  makes = λ i k k' is spelled absent h. inl (
      subst (HasIndex catalog_sqlite k') (sym is) (
        subst (λ k. HasIndex catalog_sqlite k index)
          (same_catalog
            (sym (index_ddl k) ∙ ap (λ i. ddl (emitted (emit_create_index i)) k) (sym is) ∙ h))
          (with_index k.has_column)));
  leaves_columns = λ i k k' is h. ap catalog_sqlite.table_xinfo (
      sym (
        same_catalog
          (sym (index_ddl k) ∙ ap (λ i. ddl (emitted (emit_create_index i)) k) (sym is) ∙ h)));
  keeps = ddl-Kept;
}

abbrev boot : Boot Catalog
boot = record {
  catalog = record { has_column = false; has_index = false };
  db = record {
    records = [];
    checkpoints = [];
    owned = record { topic = codes "t"; partition = 0 } ∷ [];
  };
  calls = 0;
}

abbrev booted : Boot Catalog
booted = (migrate catalog_sqlite (column ∷ []) (index ∷ []) boot).1

booted_lem : migrate catalog_sqlite (column ∷ []) (index ∷ []) boot ≡ (ok tt, booted)
unfolding migrate ◌>>=◌ execute delete_all_owned fetch reconcile_columns text_in text_eq
    emit_add_column reconcile_indexes index_entry emit_create_index
booted_lem = refl

booted-IsSpelled : Each (IsSpelled catalog_sqlite booted.catalog) (index ∷ [])
unfolding migrate ◌>>=◌ execute delete_all_owned fetch reconcile_columns text_in text_eq
    emit_add_column reconcile_indexes index_entry emit_create_index
booted-IsSpelled = ((refl, tt), tt)

migrate-IsMigrated_example :
    IsMigrated catalog_sqlite (column ∷ []) (index ∷ []) booted.catalog
    × (booted.db ≡ record boot.db { owned = [] })
migrate-IsMigrated_example =
    migrate-IsMigrated catalog_sqlite IsColumn IsIndex (column ∷ []) (index ∷ []) boot booted
      catalog-IsDocumented (refl, tt) (refl, tt) booted-IsSpelled booted_lem

migrate_again_example :
    (n : ℕ) × (migrate catalog_sqlite (column ∷ []) (index ∷ []) booted
      ≡ (ok tt, record booted { calls = n }))
migrate_again_example =
    migrate_again catalog_sqlite IsColumn IsIndex (column ∷ []) (index ∷ []) boot booted
      catalog-IsDocumented (refl, tt) (refl, tt) booted-IsSpelled (λ n. refl) booted_lem

-- The admin client does not start, and the producer does not stop.
abbrev parts : Parts
parts = record {
  construct = λ p. ok tt;
  begin = λ p. elim p [ admin ↦ err kafka_error | _ ↦ ok tt ];
  close = λ p. elim p [ producer ↦ err kafka_error | _ ↦ ok tt ];
  connect = ok tt;
}

abbrev config : Config
config = record {
  template = codes "{source_topic}.{partition}";
  pool_size = pos 1;
  busy_timeout = pos 5000;
  rehydrate_timeout = pos 30000;
  producer_config = [];
  generated_columns = column ∷ [];
  indexes = index ∷ [];
}

start-IsStarted_example :
    IsStarted fresh boot
      (start parts catalog_sqlite (λ template topic n. ok topic) (3, 45) config fresh boot)
start-IsStarted_example =
    start-IsStarted parts catalog_sqlite (λ template topic n. ok topic) (3, 45) config fresh boot

-- The consumer and the admin client do not stop.
abbrev calls : CloseStep → Result (Unit {0})
calls step = elim step [ consumer_stop ↦ err cancelled | admin_close ↦ err kafka_error | _ ↦ ok tt ]

close_all-IsFirst_example :
    ((close_all calls true).0 ≡ close_steps)
    × IsFirst (ends calls true) close_steps (close_all calls true).1
close_all-IsFirst_example = close_all-IsFirst calls true

abbrev driver : Driver
driver = record {
  connect = ok tt;
  set_busy_timeout = ok tt;
  journal_mode = ok (some (codes "memory"));
  close = err cancelled;
  lower = λ t. t;
}

open_connection-IsOpened_example : IsOpened driver (open_connection driver)
open_connection-IsOpened_example = open_connection-IsOpened driver

-- A store that waits for one append.
abbrev draining : Store
draining = record {
  run_state = stopping;
  in_flight = 1;
  drained = false;
  starting = 0;
  waiting = 1;
}

step-Nearer_example :
    (remaining (append_exit draining) < remaining draining)
    × (((append_exit draining).run_state ≡ stopping) ⊎ ((append_exit draining).run_state ≡ closed))
step-Nearer_example =
    step-Nearer draining (append_exit draining) (refl, omega arith, refl) refl
      (appended (omega arith))

stop_drains_example : (t : Store) × Steps draining t × (t.run_state ≡ closed) × (t.in_flight ≡ 0)
stop_drains_example = stop_drains draining (refl, omega arith, refl) refl (omega arith)
