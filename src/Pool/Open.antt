-- ===== src/Pool/Open.antt =====
-- _pool.py: `open_connection`, and the close of a connection that cannot be used.
use ksqlite.Prelude.{
  ℕ, ◌≡◌, refl, ◌⊎◌, inl, inr, Bool, true, false, Option, none, some, if◌then◌else◌,
}
use ksqlite.Errors.{Exn, Result, ok, err, storage_error}
use ksqlite.Text.{Text, codes, text_eq, text_eq_iff}

-- What aiosqlite answers while a connection is opened; `lower` is `str.lower`.
pub record Driver : Type 0 where
  pub connect : Result (Unit {0})
  -- PRAGMA busy_timeout
  pub set_busy_timeout : Result (Unit {0})
  -- PRAGMA journal_mode=WAL: the mode that results
  pub journal_mode : Result (Option Text)
  pub close : Result (Unit {0})
  pub lower : Text → Text

-- `mode != "wal"`
abbrev pub is_wal : Driver → Option Text → Bool
is_wal driver none = false
is_wal driver (some mode) = text_eq (driver.lower mode) (codes "wal")

-- The block under `try`.
abbrev pub with_mode : Driver → Result (Option Text) → Result (Unit {0})
with_mode driver (err e) = err e
with_mode driver (ok mode) = if is_wal driver mode then ok tt else err storage_error

abbrev pub configured : Driver → Result (Unit {0}) → Result (Unit {0})
configured driver (err e) = err e
configured driver (ok u) = with_mode driver driver.journal_mode

-- How many times the connection is closed, and what the call ends with; an exception of the close
-- itself takes the place of the first one.
abbrev pub closed_by : Result (Unit {0}) → Exn → ℕ × Result (Unit {0})
closed_by (ok u) e = (1, err e)
closed_by (err f) e = (1, err f)

abbrev pub handled : Driver → Result (Unit {0}) → ℕ × Result (Unit {0})
handled driver (ok u) = (0, ok tt)
handled driver (err e) = closed_by driver.close e

abbrev pub connected : Driver → Result (Unit {0}) → ℕ × Result (Unit {0})
connected driver (err e) = (0, err e)
connected driver (ok u) = handled driver (configured driver driver.set_busy_timeout)

unfoldable pub open_connection : Driver → ℕ × Result (Unit {0})
open_connection driver = connected driver driver.connect

-- The mode is WAL, whatever the case of its letters.
abbrev pub IsWal : Driver → Type 0
IsWal driver =
    (mode : Text) × (driver.journal_mode ≡ ok (some mode)) × (driver.lower mode ≡ codes "wal")

-- A connection that is handed out is in WAL mode, has its busy timeout and is not closed; one that
-- is not handed out is closed once, or was never opened.
abbrev pub IsOpened : Driver → ℕ × Result (Unit {0}) → Type 0
IsOpened driver (n, ok u) =
    (n ≡ 0) × (driver.connect ≡ ok tt) × (driver.set_busy_timeout ≡ ok tt) × IsWal driver
IsOpened driver (n, err e) =
    ((n ≡ 0) × (driver.connect ≡ err e)) ⊎ ((n ≡ 1) × (driver.connect ≡ ok tt))

module _ (driver : Driver) where
  closed-IsOpened :
      (e : Exn) (r : Result (Unit {0})) → driver.connect ≡ ok tt → IsOpened driver (closed_by r e)
  closed-IsOpened e (ok u) c = inr (refl, c)
  closed-IsOpened e (err f) c = inr (refl, c)

  mode-IsOpened :
      (m : Option Text) (b : Bool)
      → driver.connect ≡ ok tt
      → driver.set_busy_timeout ≡ ok tt
      → driver.journal_mode ≡ ok m
      → is_wal driver m ≡ b
      → IsOpened driver (handled driver (if b then ok tt else err storage_error))
  mode-IsOpened m false c t j e = closed-IsOpened storage_error driver.close c
  mode-IsOpened none true c t j e = cc e
  mode-IsOpened (some mode) true c t j e =
      (refl, c, t, (mode, j, (text_eq_iff (driver.lower mode) (codes "wal")).0 e))

  journal-IsOpened :
      (r : Result (Option Text))
      → driver.connect ≡ ok tt
      → driver.set_busy_timeout ≡ ok tt
      → driver.journal_mode ≡ r
      → IsOpened driver (handled driver (with_mode driver r))
  journal-IsOpened (err e) c t j = closed-IsOpened e driver.close c
  journal-IsOpened (ok m) c t j = mode-IsOpened m (is_wal driver m) c t j refl

  configured-IsOpened :
      (r : Result (Unit {0}))
      → driver.connect ≡ ok tt
      → driver.set_busy_timeout ≡ r
      → IsOpened driver (handled driver (configured driver r))
  configured-IsOpened (err e) c t = closed-IsOpened e driver.close c
  configured-IsOpened (ok u) c t = journal-IsOpened driver.journal_mode c t refl

  connected-IsOpened :
      (r : Result (Unit {0})) → driver.connect ≡ r → IsOpened driver (connected driver r)
  connected-IsOpened (err e) c = inl (refl, c)
  connected-IsOpened (ok u) c = configured-IsOpened driver.set_busy_timeout c refl

-- A connection is handed out only in WAL mode, with its busy timeout set and open; a failure behind
-- `connect`, a mode that is not WAL among them, closes it once, whatever the close ends with.
pub open_connection-IsOpened : (driver : Driver) → IsOpened driver (open_connection driver)
unfolding open_connection
open_connection-IsOpened driver = connected-IsOpened driver driver.connect refl
