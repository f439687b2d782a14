-- ===== src/Lib.antt =====
-- ksqlite keeps a SQLite view of the Kafka changelogs of the partitions that a host owns. An append
-- produces a record to the partition's changelog and then writes it to the database; an assignment
-- replays the changelog from the stored checkpoint and makes the partition visible; a revocation
-- hides it. The files model src/ksqlite:
--
-- Errors       errors.py: the exceptions, as one enum, and results
-- Types        types.py
-- State        _state.py, class PartitionStateMachine; State/Laws; State/View: what it lists
-- Text         Python's str and, in Text/Utf8, its UTF-8 codec
-- Wire         _wire.py: `classify`, `encode` (here encode_record); Wire/Roundtrip
-- Sql          _sql.py, function by function; Sql/Literal: SQLite's reading of a literal
-- Schema       _schema.py: the tables, the view and the statements; Schema/Laws, Schema/Frame,
--              Schema/Ids, Schema/Keys, Schema/View; Schema/Migrate: `migrate` and the version
--              check, with its children Step, Documented, Pieces, Migrated, Again and Safe
-- World        what the services act on and what answers them; World/Only, World/Related,
--              World/Failure, World/Returns, World/Triple and World/Total: rules for the exceptions,
--              the relations, the failures, the returns and the pre- and postconditions of a method
-- Pool         _pool.py: checkout hygiene and TransactionRunner; Pool/Work, Pool/Transaction,
--              Pool/Written, Pool/Errors, Pool/Healthy; Pool/Open: `open_connection`
-- Topics       _topics.py, class ChangelogTopics; Topics/Cache, Topics/Names
-- Batches      _lifecycle.py: the single reads and writes and one fetched batch; Batches/Effect,
--              Batches/Covered (the records that are stored), Batches/Again, Batches/Rows,
--              Batches/Converge
-- Replay       _lifecycle.py: the loop of `_rehydrate_one`; Replay/Termination, Replay/Covered,
--              Replay/Lossless, Replay/Ready
-- Lifecycle    _lifecycle.py: `_rehydrate_one`, the clamps, the rebalance hooks; Lifecycle/Rules,
--              Lifecycle/Pieces, Lifecycle/Related, Lifecycle/Verified, Lifecycle/Hooks,
--              Lifecycle/Hidden, Lifecycle/Shown, Lifecycle/Frame, Lifecycle/Revoked,
--              Lifecycle/Clamped, Lifecycle/CaughtUp, Lifecycle/Everywhere,
--              Lifecycle/Assigned, Lifecycle/Opens, Lifecycle/Opened,
--              Lifecycle/Ready
-- Write        _write.py, class Appender; Write/Effect, Write/Replayed, Write/Equal,
--              Write/Covered
-- Read         _read.py, class QueryRunner; Read/Readonly
-- Store        _store.py: configuration and keyword arguments; Store/Kwargs, Store/Run (the run
--              state), Store/Drain, Store/Start (`start`), Store/Start/Rollback, Store/Stop (the
--              close steps of `stop`, and `aclose` of _lifecycle.py)
-- History      _store.py: the public methods behind their guard, in any sequence; History/Covered
-- Examples     the theorems at concrete inputs; Examples/Startup: those on start and stop,
--              Examples/Lossless: those on the records that are stored, Examples/Replays: those on
--              repeated replays and on maps, Examples/Ready: that on a rehydrate that is served,
--              Examples/Durable: those on histories
--
-- A method is a function of type `Exec`, from a world to a result and a world: what it wrote
-- before a raise stays written. The world holds the committed database, the connection in hand
-- with the state that its open transaction sees, the memory of the process, and the number of
-- calls made so far. Whatever leaves the process is a field of the record `Env`, asked by the
-- number of the call: how a statement goes (it runs, SQLite is busy, it fails, the task is
-- cancelled before or after it runs), which connection the pool hands out and in which state, what
-- the broker answers, what time it is. A theorem that asks nothing of the `Env` holds for every
-- order of failures, cancellations and times. `json()` of SQLite, `uuid.UUID`, `json.loads`, `json.dumps`
-- and `str.format` are parameters too.
--
-- The retry of a transaction runs on fuel, three, the bound on its attempts. The replay loop runs
-- on fuel that its caller gives; Replay/Termination says how much is enough. UTF-8 decoding runs
-- on the number of bytes.
--
-- Times are numbers of milliseconds. A rollback is taken to go through, a refused COMMIT commits
-- nothing, and a SELECT is a statement as any other. The SQL that a host hands to a query is one
-- statement (`Sql`): what it reads, what it makes of the tables, if query_only lets it, and what it
-- makes of the connection are parameters. Log lines and the values that serve only them are left
-- out, and so are the release of a connection to the pool (the next checkout may hand out a
-- connection in any state) and the stop of a consumer whose start failed.
--
-- `start` works on the file alone (`Boot`): the rows and the catalog of its schema. What SQLite
-- makes of a DDL text and what its PRAGMAs answer are the record `Sqlite`, on any type of catalogs;
-- what it documents of them is the hypothesis `IsDocumented`, with a small catalog in
-- Examples/Startup. SQLite's names ignore the case of letters, so the name of a declared index may
-- be taken where no index of the table has it (`IsTaken`): CREATE INDEX IF NOT EXISTS then does
-- nothing.
--
-- What the changelog holds while a rehydrate runs is a predicate on records, and `IsHonest` says
-- that Kafka serves it: a fetch skips no record, the log starts at or in front of the first one.
--
-- A history is a sequence of calls that each run to their end before the next; an append leaves no
-- gap where every other record of its changelog up to its own is stored (`LeavesNoGap`), which an
-- append behind a failed local write does not, and what Kafka has acknowledged is in the changelog
-- (`KeepsAcknowledged`). The interleaving of calls is modelled for the run state alone (Store/Run);
-- two calls of `start` can overlap there, and the theorems on it are of runs in which none do
-- (`AllAlone`), or of the states that such runs reach (`IsSoundStore`).
--
-- Not modelled: message ids (_ids.py), the exports (__init__.py), the protocols of types.py, and
-- the wiring of the services in `start` (_store.py). The log lines of a migration, and the orphans
-- that only they name, are left out. aiokafka, aiosqlite, aiosqlitepool and SQLite are not under
-- the repository.
pub mod Prelude
pub mod Errors
pub mod Text
pub mod Types
pub mod State
pub mod Wire
pub mod Schema
pub mod World
pub mod Pool
pub mod Sql
pub mod Topics
pub mod Batches
pub mod Replay
pub mod Lifecycle
pub mod Write
pub mod Read
pub mod Store
pub mod History
mod Examples
