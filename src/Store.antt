-- ===== src/Store.antt =====
-- _store.py, class KSQLite: the configuration that `start` validates, and the keyword arguments of
-- the Kafka clients. A dict is an association list in the order of its keys.
pub mod Kwargs
pub mod Run
pub mod Start
pub mod Stop
pub mod Drain
use ksqlite.Prelude.{
  ℕ, Bool, true, false, not, ◌&&◌, ◌||◌, Option, none, some, List, [], ◌∷◌, map, if◌then◌else◌,
}
use ksqlite.Prelude.Int.{ℤ, pos, ltb_ℤ, eqb_ℤ}
use ksqlite.Errors.{Result, ok, ◌>>=◌, ◌>>◌}
use ksqlite.Text.{Text, codes, text_eq, text_in, starts_with}
use ksqlite.Types.{GeneratedColumn, Index}
use ksqlite.Sql.{require, validate_changelog_template, validate_generated_column, validate_index}

-- The values of the clients' keyword arguments; `other` is an object that equals none of these.
pub data Value : Type 0 where
  null other : Value
  bool : Bool → Value
  int : ℤ → Value
  string : Text → Value

abbrev pub Kwargs : Type 0
Kwargs = List (Text × Value)

-- `d.get(key)`, with `none` for a key that is missing.
unfoldable pub find : Text → Kwargs → Option Value
find key [] = none
find key ((k, v) ∷ d) = if text_eq k key then some v else find key d

-- `d[key] = value`
unfoldable pub put : Text → Value → Kwargs → Kwargs
put key value [] = (key, value) ∷ []
put key value ((k, v) ∷ d) = if text_eq k key then (k, value) ∷ d else (k, v) ∷ put key value d

-- `d.update(e)`
unfoldable pub update : Kwargs → Kwargs → Kwargs
unfolding put
update d [] = d
update d ((k, v) ∷ e) = update (put k v d) e

-- _PINNED_CONSUMER_KEYS
abbrev pub pinned_consumer_keys : Kwargs
pinned_consumer_keys =
    (codes "group_id", null)
    ∷ (codes "enable_auto_commit", bool false)
    ∷ (codes "auto_offset_reset", string (codes "none"))
    ∷ []

unfoldable pub merged_consumer_kwargs : Value → Kwargs → Kwargs
unfolding update
merged_consumer_kwargs bootstrap_servers consumer_config =
    update (update ((codes "bootstrap_servers", bootstrap_servers) ∷ []) consumer_config)
      pinned_consumer_keys

unfoldable pub merged_producer_kwargs : Value → Kwargs → Kwargs
unfolding update
merged_producer_kwargs bootstrap_servers producer_config =
    update ((codes "bootstrap_servers", bootstrap_servers) ∷ (codes "acks", int (pos 1)) ∷ [])
      producer_config

-- `is_security`
unfoldable pub is_security : Text → Bool
unfolding text_in starts_with
is_security key =
    text_in key (codes "security_protocol" ∷ codes "ssl_context" ∷ [])
    || starts_with key (codes "sasl_")

-- `accepted` holds the parameters of the admin client's constructor.
unfoldable pub admin_subset : List Text → Kwargs → Kwargs → Kwargs
unfolding is_security put
admin_subset accepted subset [] = subset
admin_subset accepted subset ((k, v) ∷ config) =
    admin_subset accepted (if is_security k && text_in k accepted then put k v subset else subset)
      config

unfoldable pub admin_security_kwargs : List Text → Value → Kwargs → Kwargs
unfolding admin_subset
admin_security_kwargs accepted bootstrap_servers consumer_config =
    admin_subset accepted ((codes "bootstrap_servers", bootstrap_servers) ∷ []) consumer_config

-- The parameters of the constructor that `_validate_config` reads; times in milliseconds.
pub record Config : Type 0 where
  pub template : Text
  pub pool_size : ℤ
  pub busy_timeout : ℤ
  pub rehydrate_timeout : ℤ
  pub producer_config : Kwargs
  pub generated_columns : List GeneratedColumn
  pub indexes : List Index

-- `acks in (0, "0")`, where False equals 0.
abbrev pub is_zero : Value → Bool
is_zero (int n) = eqb_ℤ n (pos 0)
is_zero (string s) = text_eq s (codes "0")
is_zero (bool b) = not b
is_zero _ = false

-- `self._producer_config.get("acks", 1)` is not 0.
unfoldable pub acks_required : Kwargs → Bool
unfolding find text_eq
acks_required config = elim (find (codes "acks") config) [ none ↦ true | some v ↦ not (is_zero v) ]

unfoldable pub validate_columns : List GeneratedColumn → Result (Unit {0})
unfolding validate_generated_column
validate_columns [] = ok tt
validate_columns (c ∷ cs) = validate_generated_column c >> validate_columns cs

unfoldable pub validate_indexes : List Text → List Index → Result (Unit {0})
unfolding validate_index
validate_indexes declared [] = ok tt
validate_indexes declared (i ∷ is) = validate_index i declared >> validate_indexes declared is

-- `_validate_config`; `format` is `str.format`.
unfoldable pub validate_config : (Text → Text → ℕ → Result Text) → Config → Result (Unit {0})
unfolding validate_changelog_template acks_required validate_columns validate_indexes
validate_config format config = do
  validate_changelog_template format config.template
  require (not (ltb_ℤ config.pool_size (pos 1)))
  require (ltb_ℤ (pos 0) config.busy_timeout)
  require (ltb_ℤ (pos 0) config.rehydrate_timeout)
  require (acks_required config.producer_config)
  validate_columns config.generated_columns
  validate_indexes (map (λ c. c.name) config.generated_columns) config.indexes
