-- ===== src/Store/Start.antt =====
-- _store.py: `start`, the block that opens the parts and its rollback.
pub mod Rollback
use ksqlite.Prelude.{ℕ, Bool, true, false, List, [], ◌∷◌, ◌++◌, if◌then◌else◌}
use ksqlite.Errors.{
  Result, ok, err, ◌>>◌, ksqlite_error, storage_error, sqlite_busy, sqlite_failure, cancelled,
}
use ksqlite.Text.{Text}
use ksqlite.Schema.Migrate.{Boot, Sqlite, migrate, check_sqlite_version}
use ksqlite.Store.{Config, validate_config}
use ksqlite.Store.Run.{Store, start_enter, start_exit}

-- What `start` opens.
pub data Part : Type 0 where
  pool producer admin : Part

-- A part is constructed; its closing is attempted.
pub data Event : Type 0 where
  constructed closing : Part → Event

-- What the parts answer; no call is made twice in one `start`.
pub record Parts : Type 0 where
  pub construct : Part → Result (Unit {0})
  -- `start()` of a client
  pub begin : Part → Result (Unit {0})
  pub close : Part → Result (Unit {0})
  -- `pool.connection()`
  pub connect : Result (Unit {0})

-- The local variables: which parts are not None.
pub record Locals : Type 0 where
  pub has_pool : Bool
  pub has_producer : Bool
  pub has_admin : Bool

abbrev pub nothing_open : Locals
nothing_open = record { has_pool = false; has_producer = false; has_admin = false }

-- The block under the outer `try`: how it ends, the variables, what was done, and the file.
pub record Opening (K : Type 0) : Type 0 where
  pub result : Result (Unit {0})
  pub locals : Locals
  pub events : List Event
  pub boot : Boot K

-- `except Exception`: a cancellation is none.
abbrev pub as_start_error : Result (Unit {0}) → Result (Unit {0})
as_start_error (ok u) = ok u
as_start_error (err cancelled) = err cancelled
as_start_error (err e) = err ksqlite_error

-- `except sqlite3.Error`
abbrev pub as_open_error : Result (Unit {0}) → Result (Unit {0})
as_open_error (err sqlite_busy) = err storage_error
as_open_error (err sqlite_failure) = err storage_error
as_open_error r = r

module _ {K : Type 0} (parts : Parts) (sqlite : Sqlite K) (config : Config) where
  -- The admin client; the other two are there.
  abbrev pub open_admin : List Event → Boot K → Opening K
  open_admin done s = elim (parts.construct admin) [
    | err e ↦ record {
      result = err e;
      locals = record { has_pool = true; has_producer = true; has_admin = false };
      events = done;
      boot = s;
    }
    | ok u ↦ record {
      result = as_start_error (parts.begin admin);
      locals = record { has_pool = true; has_producer = true; has_admin = true };
      events = done ++ constructed admin ∷ [];
      boot = s;
    }
  ]

  abbrev pub open_producer : List Event → Boot K → Opening K
  open_producer done s = elim (parts.construct producer) [
    | err e ↦ record {
      result = err e;
      locals = record { has_pool = true; has_producer = false; has_admin = false };
      events = done;
      boot = s;
    }
    | ok u ↦ elim (as_start_error (parts.begin producer)) [
      | err e ↦ record {
        result = err e;
        locals = record { has_pool = true; has_producer = true; has_admin = false };
        events = done ++ constructed producer ∷ [];
        boot = s;
      }
      | ok u ↦ open_admin (done ++ constructed producer ∷ []) s
    ]
  ]

  -- `async with pool.connection() as conn: await _schema.migrate(...)`
  abbrev pub open_schema : Boot K → Result (Unit {0}) × Boot K
  open_schema s = elim parts.connect [
    | err e ↦ (as_open_error (err e), s)
    | ok u ↦
        let x = migrate sqlite config.generated_columns config.indexes s in (as_open_error x.0, x.1)
  ]

  abbrev pub after_schema : List Event → Result (Unit {0}) × Boot K → Opening K
  after_schema done (err e, s) = record {
    result = err e;
    locals = record { has_pool = true; has_producer = false; has_admin = false };
    events = done;
    boot = s;
  }
  after_schema done (ok u, s) = open_producer done s

  unfoldable pub open_parts : Boot K → Opening K
  open_parts s = elim (parts.construct pool) [
    | err e ↦ record { result = err e; locals = nothing_open; events = []; boot = s }
    | ok u ↦ after_schema (constructed pool ∷ []) (open_schema s)
  ]

-- `rollback_steps`, by the variables that are not None.
abbrev pub rollback_steps : Locals → List Part
rollback_steps l =
    (if l.has_admin then admin ∷ [] else [])
    ++ ((if l.has_producer then producer ∷ [] else []) ++ (if l.has_pool then pool ∷ [] else []))

-- `try: await closer() except BaseException: log`
abbrev pub suppressed : Result (Unit {0}) → List Event → List Event
suppressed (ok u) es = es
suppressed (err e) es = es

-- The closers, one after the other; what one of them raises is logged and forgotten.
unfoldable pub roll_back : (Part → Result (Unit {0})) → List Part → List Event
roll_back close [] = []
roll_back close (p ∷ ps) = suppressed (close p) (closing p ∷ roll_back close ps)

-- The outer `try` with its handler.
abbrev pub ended : {K : Type 0} → Parts → Opening K → Result (Unit {0}) × List Event × Boot K
ended parts o = elim o.result [
  | ok u ↦ (ok tt, o.events, o.boot)
  | err e ↦ (err e, o.events ++ roll_back parts.close (rollback_steps o.locals), o.boot)
]

unfoldable pub open_or_roll_back :
    {K : Type 0} → Parts → Sqlite K → Config → Boot K → Result (Unit {0}) × List Event × Boot K
unfolding open_parts roll_back
open_or_roll_back parts sqlite config s = ended parts (open_parts parts sqlite config s)

-- `start`: the guard, the configuration, the version of SQLite, then the opening.
abbrev pub Started : Type 0 → Type 0
Started K = Result (Unit {0}) × List Event × Boot K

abbrev pub settled : {K : Type 0} → Store → Started K → Store × Started K
settled store (ok u, es, s) = (start_exit true store, (ok tt, es, s))
settled store (err e, es, s) = (start_exit false store, (err e, es, s))

unfoldable pub start :
    {K : Type 0}
    → Parts
    → Sqlite K
    → (Text → Text → ℕ → Result Text)
    → ℕ × ℕ
    → Config
    → Store
    → Boot K
    → Store × Started K
unfolding open_or_roll_back
start parts sqlite format version config store s = elim (start_enter store) [
  | err e ↦ (store, (err e, [], s))
  | ok entered ↦ elim (validate_config format config >> check_sqlite_version version) [
    | err e ↦ (start_exit false entered, (err e, [], s))
    | ok u ↦ settled entered (open_or_roll_back parts sqlite config s)
  ]
]
