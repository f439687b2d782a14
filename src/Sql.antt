-- ===== src/Sql.antt =====
-- _sql.py: validation of identifiers, JSON paths and names, escaping, and the DDL texts.
pub mod Literal
use ksqlite.Prelude.{
  ℕ, ◌+◌, Bool, true, false, not, ◌&&◌, ◌||◌, List, [], ◌∷◌, ◌++◌, ltb, leb, ◌==◌, if◌then◌else◌,
  length, any_of, all_of,
}
use ksqlite.Errors.{Result, ok, err, config_error, key_error, index_error, value_error, ◌>>=◌, ◌>>◌}
use ksqlite.Text.{Text, codes, text_in, starts_with, contains}
use ksqlite.Types.{GeneratedColumn, Index}

-- `[A-Za-z_]` and `[A-Za-z0-9_]`
abbrev pub is_letter : ℕ → Bool
is_letter c = leb b'A' c && leb c b'Z' || leb b'a' c && leb c b'z'

abbrev pub is_digit : ℕ → Bool
is_digit c = leb b'0' c && leb c b'9'

abbrev pub is_head : ℕ → Bool
is_head c = is_letter c || c == b'_'

abbrev pub is_word : ℕ → Bool
is_word c = is_head c || is_digit c

-- `_IDENTIFIER_RE.fullmatch(name)`
unfoldable pub is_identifier : Text → Bool
is_identifier [] = false
is_identifier (c ∷ s) = is_head c && all_of is_word s

abbrev pub system_columns : List Text
system_columns =
    codes "message_id"
    ∷ codes "source_topic"
    ∷ codes "source_partition"
    ∷ codes "changelog_offset"
    ∷ codes "entity_key"
    ∷ codes "payload"
    ∷ []

-- `if not ok: raise ConfigError(...)`
abbrev pub require : Bool → Result (Unit {0})
require true = ok tt
require false = err config_error

unfoldable pub validate_identifier : Text → Result (Unit {0})
unfolding is_identifier
validate_identifier name = require (is_identifier name)

-- `value.replace("'", "''")`
unfoldable pub double_quotes : Text → Text
double_quotes [] = []
double_quotes (c ∷ s) = if c == 39 then 39 ∷ 39 ∷ double_quotes s else c ∷ double_quotes s

unfoldable pub escape_string_literal : Text → Text
unfolding double_quotes
escape_string_literal value = 39 ∷ (double_quotes value ++ 39 ∷ [])

-- Control characters, by `ord(ch) < 0x20 or ch == "\x7f"`.
abbrev pub is_control : ℕ → Bool
is_control c = ltb c 0x20 || c == 0x7F

unfoldable pub validate_json_path : Text → Result (Unit {0})
unfolding starts_with
validate_json_path path = do
  require (starts_with path (codes "$.") && not (leb (length path) 2))
  require (not (any_of is_control path))

unfoldable pub validate_changelog_template :
    (Text → Text → ℕ → Result Text) → Text → Result (Unit {0})
unfolding contains
validate_changelog_template format template = do
  require (contains template (codes "{source_topic}") && contains template (codes "{partition}"))
  elim (format template (codes "probe") 0) [
    | ok _ ↦ ok tt
    | err key_error ↦ err config_error
    | err index_error ↦ err config_error
    | err value_error ↦ err config_error
    | err other ↦ err other
  ]

-- `[A-Za-z0-9._-]`
abbrev pub is_topic_char : ℕ → Bool
is_topic_char c = is_letter c || is_digit c || c == b'.' || c == b'_' || c == b'-'

abbrev pub kafka_topic_name_max : ℕ
kafka_topic_name_max = 249

-- `_TOPIC_NAME_RE.fullmatch(name)`
unfoldable pub is_topic_text : Text → Bool
is_topic_text [] = false
is_topic_text (c ∷ s) = is_topic_char c && all_of is_topic_char s

unfoldable pub validate_topic_name : Text → Result (Unit {0})
unfolding is_topic_text
validate_topic_name name =
    if text_in name (codes "." ∷ codes ".." ∷ [])
      || ltb kafka_topic_name_max (length name)
      || not (is_topic_text name)
    then err config_error
    else ok tt

unfoldable pub render_column_clause : GeneratedColumn → Text
unfolding escape_string_literal
render_column_clause column =
    column.name
    ++ codes " "
    ++ column.sql_type
    ++ codes " GENERATED ALWAYS AS (payload->>"
    ++ escape_string_literal column.json_path
    ++ codes ") VIRTUAL"

unfoldable pub emit_add_column : GeneratedColumn → Text
unfolding render_column_clause
emit_add_column column = codes "ALTER TABLE _records ADD COLUMN " ++ render_column_clause column

-- `", ".join(columns)`
unfoldable pub join_columns : List Text → Text
join_columns [] = []
join_columns (c ∷ []) = c
join_columns (c ∷ d ∷ cs) = c ++ (codes ", " ++ join_columns (d ∷ cs))

unfoldable pub emit_create_index : Index → Text
unfolding join_columns
emit_create_index index =
    codes "CREATE "
    ++ (if index.unique then codes "UNIQUE " else [])
    ++ codes "INDEX IF NOT EXISTS "
    ++ index.name
    ++ codes " ON _records ("
    ++ join_columns index.columns
    ++ codes ")"

unfoldable pub validate_generated_column : GeneratedColumn → Result (Unit {0})
unfolding validate_identifier validate_json_path text_in
validate_generated_column column = do
  validate_identifier column.name
  require (not (text_in column.name system_columns))
  validate_json_path column.json_path
  require (is_identifier column.sql_type)

-- The columns that an index may name.
abbrev pub is_known_column : List Text → Text → Bool
is_known_column generated c = text_in c system_columns || text_in c generated

unfoldable pub validate_index : Index → List Text → Result (Unit {0})
unfolding validate_identifier text_in
validate_index index generated = do
  validate_identifier index.name
  require (all_of (is_known_column generated) index.columns)
