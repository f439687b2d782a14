-- ===== src/World.antt =====
-- What the services act on, and what answers them. Every call that leaves the process (SQLite, the
-- pool, Kafka, the clock) is numbered, and an `Env` says how call number n goes: theorems hold for
-- every `Env`, so for every order of failures, cancellations and times. A time is a number of
-- milliseconds; the code's floats are read so.
pub mod Only
pub mod Related
pub mod Failure
pub mod Returns
pub mod Triple
pub mod Total
use ksqlite.Prelude.{ℕ, suc, Bool, Option, List}
use ksqlite.Prelude.Int.{ℤ}
use ksqlite.Errors.{Exn, Result, ok, err}
use ksqlite.Text.{Text}
use ksqlite.Text.Utf8.{Bytes}
use ksqlite.Types.{TopicPartition}
use ksqlite.State
use ksqlite.State.{Machine}
use ksqlite.Wire.{Parsers, Headers}
use ksqlite.Schema.{Db, Json}

-- A pooled connection: the state that its open transaction sees, if it has one.
pub record Conn : Type 0 where
  pub pending : Option Db
  pub query_only : Bool
  pub row_factory : Bool

-- How a statement goes: it runs, SQLite refuses it, or the task is cancelled while it waits, which
-- may be after the worker thread has run it.
pub data Outcome : Type 0 where
  done busy failure : Outcome
  cancel : Bool → Outcome

-- How a checkout goes: the pool hands out a connection in any state, or refuses, or the opening of
-- a new connection raises.
pub data Checkout : Type 0 where
  handed : Conn → Checkout
  pool_closed acquire_timeout : Checkout
  open_failed : Exn → Checkout

-- aiokafka's ConsumerRecord
pub record ConsumerRecord : Type 0 where
  pub offset : ℤ
  pub key : Option Bytes
  pub value : Option Bytes
  pub headers : Headers

-- Where the rehydrate consumer fetches from next.
pub data Cursor : Type 0 where
  beginning : Cursor
  at : ℤ → Cursor

-- The error codes of the admin API that the code tells apart.
pub data ErrorCode : Type 0 where
  no_error topic_already_exists unauthorized other_error : ErrorCode

-- One entry of a describe_configs response: its error code and its configuration entries.
pub record Resource : Type 0 where
  pub error_code : ErrorCode
  pub entries : List (Text × Text)

pub record Env : Type 0 where
  pub parsers : Parsers
  pub json : Json
  pub clock : ℕ → ℕ
  -- whether the task is cancelled while it sleeps
  pub sleep : ℕ → ℕ → Bool
  pub checkout : ℕ → Checkout
  pub statement : ℕ → Outcome
  -- the consumer's and the producer's calls, by the changelog's name
  pub consumer_start : ℕ → Result (Unit {0})
  pub end_offset : ℕ → Text → Result ℤ
  pub beginning_offset : ℕ → Text → Result ℤ
  pub seek_to_beginning : ℕ → Text → Result (Unit {0})
  pub getmany : ℕ → Text → Cursor → Result (List ConsumerRecord)
  pub send_and_wait : ℕ → Text → Option Bytes → Option Bytes → Headers → Result ℤ
  pub new_message_id : ℕ → Text
  -- the admin client's calls, and `template.format(source_topic=..., partition=...)`
  pub list_topics : ℕ → Result (List Text)
  pub create_topics : ℕ → Text → ℤ → Result (List ErrorCode)
  pub describe_configs : ℕ → Text → Result (List Resource)
  pub format : Text → Text → ℕ → Result Text

pub record World : Type 0 where
  -- the database file: what is committed
  pub db : Db
  -- the connection that the running call has checked out
  pub conn : Conn
  pub machine : Machine
  -- ChangelogTopics._checked
  pub checked : List TopicPartition
  -- PartitionLifecycle._consumer is set
  pub consumer : Bool
  pub assigned : Option Text
  pub cursor : Cursor
  -- calls made so far
  pub calls : ℕ

-- A method: what was written before a raise stays written.
abbrev pub Exec : Type 0 → Type 0
Exec A = World → Result A × World

module _ {A : Type 0} where
  abbrev pub pure : A → Exec A
  pure a w = (ok a, w)

  abbrev pub raise : Exn → Exec A
  raise e w = (err e, w)

  abbrev pub gets : (World → A) → Exec A
  gets f w = (ok (f w), w)

  abbrev pub lift : Result A → Exec A
  lift r w = (r, w)

  -- one numbered call
  abbrev pub call : (ℕ → Result A) → Exec A
  call f w = (f w.calls, record w { calls = suc w.calls })

  -- `except`, as a function of the exception that was raised
  abbrev pub caught : Result A × World → (Exn → Exec A) → Result A × World
  caught (ok a, w) handler = (ok a, w)
  caught (err e, w) handler = handler e w

  abbrev pub catch : Exec A → (Exn → Exec A) → Exec A
  catch m handler w = caught (m w) handler

abbrev pub next : {A B : Type 0} → Result A × World → (A → Exec B) → Result B × World
next (ok a, w) f = f a w
next (err e, w) f = (err e, w)

infixl 5 ◌>>=◌ ◌>>◌
unfoldable pub ◌>>=◌ : {A B : Type 0} → Exec A → (A → Exec B) → Exec B
◌>>=◌ m f w = next (m w) f

abbrev pub ◌>>◌ : {A B : Type 0} → Exec A → Exec B → Exec B
m >> k = m >>= λ _. k

abbrev pub modify : (World → World) → Exec (Unit {0})
modify f w = (ok tt, f w)

abbrev pub on_machine : (Machine → Machine) → Exec (Unit {0})
on_machine f w = (ok tt, record w { machine = f w.machine })

abbrev pub read_clock : Env → Exec ℕ
read_clock env = call (λ n. ok (env.clock n))
