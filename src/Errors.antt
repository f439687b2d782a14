-- ===== src/Errors.antt =====
-- errors.py: the exceptions that a call can end with, and the result of a call that may raise.
-- Messages and chained causes are left out: no caller branches on them.

use ksqlite.Prelude.{◌≡◌, refl, ◌⊎◌, inl, inr}

pub data Exn : Type 0 where
  -- the classes of errors.py
  ksqlite_error config_error sqlite_version_error schema_migration_error : Exn
  changelog_produce_error topic_not_found_error rehydrate_error : Exn
  hydration_error lifecycle_error storage_error : Exn
  -- what the libraries below raise: `sqlite3.OperationalError` for SQLITE_BUSY, any other
  -- `sqlite3.Error`, aiokafka's `KafkaError` and its subclass `OffsetOutOfRangeError`
  sqlite_busy sqlite_failure kafka_error offset_out_of_range : Exn
  -- Python's own
  value_error type_error key_error index_error attribute_error assertion_error cancelled : Exn
  -- no exception: a loop whose fuel ran out is still running
  still_running : Exn

-- A value that was returned, or an exception that was raised.
pub data Result {ℓ} (Value : Type ℓ) : Type ℓ where
  ok : Value → Result Value
  err : Exn → Result Value

pub ok_injective {ℓ} : {A : Type ℓ} {a b : A} → ok a ≡ ok b → a ≡ b
ok_injective h = cc

-- An exception ends the block that it is raised in.
infixl 5 ◌>>◌ ◌>>=◌
module _ {ℓ κ} {B : Type κ} where
  abbrev pub ◌>>=◌ : {A : Type ℓ} (r : Result A) (go_on : A → Result B) → Result B
  ◌>>=◌ (err e) go_on = err e
  ◌>>=◌ (ok value) go_on = go_on value

abbrev pub ◌>>◌ {κ} : {B : Type κ} (check : Result (Unit {0})) (rest : Result B) → Result B
check >> rest = check >>= λ done. rest

-- A block that returned: its first part did, and so did the rest.
pub parts_of-ok {ℓ κ} :
    {A : Type ℓ} {B : Type κ} {b : B} (first : Result A) (rest : A → Result B)
    → (first >>= rest) ≡ ok b
    → (a : A) × (first ≡ ok a) × (rest a ≡ ok b)
parts_of-ok (err e) rest h = cc h
parts_of-ok (ok a) rest h = (a, refl, h)

pub Result-cases {ℓ} :
    {A : Type ℓ} (r : Result A) → ((e : Exn) × (r ≡ err e)) ⊎ ((a : A) × (r ≡ ok a))
Result-cases (ok a) = inr (a, refl)
Result-cases (err e) = inl (e, refl)
