-- ===== src/Schema.antt =====
-- _schema.py, the shared DML: the three tables and what each statement does to them. `json(...)`,
-- a function of SQLite, is a parameter; `none` stands for its "malformed JSON" error. A failure
-- from outside a statement (busy, I/O, a host-declared unique index) is the connection's matter.
pub mod Laws
pub mod Frame
pub mod View
pub mod Ids
pub mod Keys
pub mod Migrate
use ksqlite.Prelude.{
  Bool, Option, none, some, List, [], ◌∷◌, ◌++◌, if◌then◌else◌, not, any_of, keep,
}
use ksqlite.Prelude.Int.{ℤ, max_ℤ}
use ksqlite.Errors.{Result, ok, err, sqlite_failure}
use ksqlite.Text.{Text, text_eq}
use ksqlite.Types.{TopicPartition, tp_eq}

-- A row of `_records`; the columns `source_topic` and `source_partition` are `source`.
pub record Row : Type 0 where
  pub message_id : Text
  pub source : TopicPartition
  pub changelog_offset : ℤ
  pub entity_key : Text
  pub payload : Text

abbrev pub Checkpoints : Type 0
Checkpoints = List (TopicPartition × ℤ)

pub record Db : Type 0 where
  pub records : List Row
  pub checkpoints : Checkpoints
  pub owned : List TopicPartition

-- `UNIQUE (message_id)`
unfoldable pub has_id : Text → List Row → Bool
has_id id rows = any_of (λ r. text_eq r.message_id id) rows

-- SELECT_CHECKPOINT_SQL
unfoldable pub checkpoint_of : TopicPartition → Checkpoints → Option ℤ
checkpoint_of tp [] = none
checkpoint_of tp ((q, o) ∷ cs) = if tp_eq q tp then some o else checkpoint_of tp cs

-- An insert that, where the key is there, puts `merge old new` in its place.
unfoldable pub upsert : (ℤ → ℤ → ℤ) → TopicPartition → ℤ → Checkpoints → Checkpoints
upsert merge tp o [] = (tp, o) ∷ []
upsert merge tp o ((q, p) ∷ cs) =
    if tp_eq q tp then (q, merge p o) ∷ cs else (q, p) ∷ upsert merge tp o cs

unfoldable pub is_owned : TopicPartition → List TopicPartition → Bool
is_owned tp owned = any_of (λ q. tp_eq q tp) owned

abbrev pub Json : Type 0
Json = Text → Option Text

pub data Statement : Type 0 where
  insert_record : Row → Statement
  checkpoint_upsert checkpoint_clamp : TopicPartition → ℤ → Statement
  owned_insert owned_delete : TopicPartition → Statement
  owned_delete_all : Statement

-- INSERT_RECORD_SQL, once `json(:payload)` is computed.
unfoldable pub insert_row : Row → Db → Db
unfolding has_id
insert_row r db =
    if has_id r.message_id db.records then db else record db { records = db.records ++ r ∷ [] }

unfoldable pub execute_statement : Json → Statement → Db → Result Db
unfolding insert_row upsert is_owned
execute_statement json (insert_record r) db = elim (json r.payload) [
  | none ↦ err sqlite_failure
  | some payload ↦ ok (insert_row (record r { payload = payload }) db)
]
execute_statement json (checkpoint_upsert tp o) db =
    ok (record db { checkpoints = upsert max_ℤ tp o db.checkpoints })
execute_statement json (checkpoint_clamp tp o) db =
    ok (record db { checkpoints = upsert (λ old new. new) tp o db.checkpoints })
execute_statement json (owned_insert tp) db =
    ok (if is_owned tp db.owned then db else record db { owned = db.owned ++ tp ∷ [] })
execute_statement json (owned_delete tp) db =
    ok (record db { owned = keep (λ q. not (tp_eq q tp)) db.owned })
execute_statement json owned_delete_all db = ok (record db { owned = [] })

-- The view `records`: `_records` joined with `_owned`.
unfoldable pub visible : Db → List Row
unfolding is_owned
visible db = keep (λ r. is_owned r.source db.owned) db.records
