-- ===== src/Schema/Migrate/Documented.antt =====
-- What SQLite documents of the statements that a migration executes, and what the catalog then holds.
use ksqlite.Prelude.{Each, ◌≡◌, ◌⊎◌, true, Option, none, some, ◌==◌, not}
use ksqlite.Text.{Text, text_in, contains}
use ksqlite.Types.{GeneratedColumn, Index}
use ksqlite.Sql.{render_column_clause, emit_add_column, emit_create_index}
use ksqlite.Schema.Migrate.{
  Sqlite, Ddl, emitted, Shape, shape_eq, declared_shape, IndexEntry, index_entry, key_columns,
}

abbrev pub IsBase : Ddl → Type 0
IsBase (emitted t) = ⊥
IsBase _ = Unit

module _ {K : Type 0} (sqlite : Sqlite K) where
  -- The shape that the PRAGMAs give for an index.
  abbrev pub shape_from : K → Text → Option IndexEntry → Option Shape
  shape_from k name none = none
  shape_from k name (some entry) =
      some (key_columns (sqlite.index_xinfo name k), not (entry.unique == 0))

  abbrev pub index_shape : K → Text → Option Shape
  index_shape k name = shape_from k name (index_entry name (sqlite.index_list k))

  -- The object is there: its CREATE … IF NOT EXISTS changes nothing.
  abbrev pub Present : K → Ddl → Type 0
  Present k d = sqlite.execute_ddl d k ≡ some k

  -- The table is in sqlite_schema.
  abbrev pub HasTable : K → Type 0
  HasTable k = (t : Text) × (sqlite.schema_sql k ≡ some t)

  -- The table has the column, and its text has the clause.
  abbrev pub HasColumn : K → GeneratedColumn → Type 0
  HasColumn k c =
      (text_in c.name (sqlite.table_xinfo k) ≡ true)
      × ((t : Text) × (sqlite.schema_sql k ≡ some t) × (contains t (render_column_clause c) ≡ true))

  abbrev pub HasIndex : K → Index → Type 0
  HasIndex k i =
      (s : Shape) × (index_shape k i.name ≡ some s) × (shape_eq s (declared_shape i) ≡ true)

  -- No index of the table has this very name, and yet CREATE INDEX IF NOT EXISTS does nothing: the
  -- name, in another case or not, is that of another index of the file.
  abbrev pub IsTaken : K → Index → Type 0
  IsTaken k i = (index_shape k i.name ≡ none) × Present k (emitted (emit_create_index i))

  abbrev pub IsSettled : K → Index → Type 0
  IsSettled k i = HasIndex k i ⊎ IsTaken k i

  -- The index is of columns that the table has, in their spelling; `validate_index` asks it of the base
  -- columns and the declared ones.
  abbrev pub IsSpelled : K → Index → Type 0
  IsSpelled k i = Each (λ c. text_in c (sqlite.table_xinfo k) ≡ true) i.columns

module _ {K : Type 0} (sqlite : Sqlite K) (IsColumn : GeneratedColumn → Type 0)
    (IsIndex : Index → Type 0) where
  -- The DDL of a migration with these columns and indexes.
  abbrev pub IsDdl : Ddl → Type 0
  IsDdl d =
      IsBase d
      ⊎ ((c : GeneratedColumn) × IsColumn c × (d ≡ emitted (emit_add_column c)))
      ⊎ ((i : Index) × IsIndex i × (d ≡ emitted (emit_create_index i)))

  -- What is there stays.
  pub record Keeps (k k' : K) : Type 0 where
    pub objects : (d : Ddl) → IsBase d → Present sqlite k d → Present sqlite k' d
    pub table : HasTable sqlite k → HasTable sqlite k'
    pub columns : (c : GeneratedColumn) → IsColumn c → HasColumn sqlite k c → HasColumn sqlite k' c
    pub indexes : (i : Index) → IsIndex i → HasIndex sqlite k i → HasIndex sqlite k' i
    pub taken : (i : Index) → IsIndex i → IsTaken sqlite k i → IsTaken sqlite k' i

-- SQLite's part, for these columns and indexes: CREATE … IF NOT EXISTS does nothing when it is
-- repeated; ADD COLUMN adds the column and puts its clause into the text of the table; CREATE INDEX
-- IF NOT EXISTS, of columns in their spelling, makes the index as it is declared, or does nothing
-- where its name is taken, and adds no column; none of them takes away what is there.
pub record IsDocumented {K : Type 0} (sqlite : Sqlite K) (IsColumn : GeneratedColumn → Type 0)
    (IsIndex : Index → Type 0) : Type 0 where
  pub creates :
      (d : Ddl) (k k' : K) → IsBase d → sqlite.execute_ddl d k ≡ some k' → Present sqlite k' d
  pub adds :
      (c : GeneratedColumn) (k k' : K)
      → IsColumn c
      → sqlite.execute_ddl (emitted (emit_add_column c)) k ≡ some k'
      → HasColumn sqlite k' c
  pub makes :
      (i : Index) (k k' : K)
      → IsIndex i
      → IsSpelled sqlite k' i
      → index_shape sqlite k i.name ≡ none
      → sqlite.execute_ddl (emitted (emit_create_index i)) k ≡ some k'
      → IsSettled sqlite k' i
  pub leaves_columns :
      (i : Index) (k k' : K)
      → IsIndex i
      → sqlite.execute_ddl (emitted (emit_create_index i)) k ≡ some k'
      → sqlite.table_xinfo k' ≡ sqlite.table_xinfo k
  pub keeps :
      (d : Ddl) (k k' : K)
      → IsDdl sqlite IsColumn IsIndex d
      → sqlite.execute_ddl d k ≡ some k'
      → Keeps sqlite IsColumn IsIndex k k'
