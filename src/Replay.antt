-- ===== src/Replay.antt =====
-- _lifecycle.py: the replay loop of `_rehydrate_one`, on fuel. Its proof of termination is in
-- Replay/Termination.antt.
pub mod Termination
pub mod Covered
pub mod Lossless
pub mod Ready
use ksqlite.Prelude.{ℕ, zero, suc, ◌+◌, Bool, true, List, [], ◌∷◌, leb, if◌then◌else◌, length}
use ksqlite.Prelude.Int.{ℤ, pos, ◌+ℤ◌, eqb_ℤ}
use ksqlite.Errors.{Result, ok, err, offset_out_of_range}
use ksqlite.Text.{Text}
use ksqlite.Types.{TopicPartition}
use ksqlite.State
use ksqlite.World.{
  Env, World, Exec, ConsumerRecord, beginning, at, pure, call, modify, read_clock, ◌>>=◌, ◌>>◌,
}
use ksqlite.Batches.{Settings, force_stop, last_offset, materialize_batch}

-- The variables of the replay loop.
pub record Replay : Type 0 where
  pub position : ℤ
  pub reset_occurred : Bool
  pub reset_log_start : ℤ
  pub replayed_after_reset : ℕ

-- How the loop ends: at the LEO, or by a forced stop, after which `_rehydrate_one` returns.
pub data Ending : Type 0 where
  reached : Replay → Ending
  stopped : Ending
  -- no end of the loop: its fuel ran out
  unfinished : Ending

-- `if self._clock() >= deadline: force_stop; return`, else go on.
unfoldable pub stop_or : Env → Settings → TopicPartition → ℕ → Exec Ending → Exec Ending
stop_or env cfg tp deadline go_on = do
  now ← read_clock env
  if leb deadline now then (do force_stop env cfg tp; pure stopped) else go_on

-- The handler of OffsetOutOfRangeError: back to the earliest offset.
unfoldable pub reset : Env → Text → Exec ℤ
reset env name = do
  log_start ← call (λ n. env.beginning_offset n name)
  call (λ n. env.seek_to_beginning n name)
  modify (λ w. record w { cursor = beginning })
  pure log_start

-- `consumer.getmany(...)`, which leaves the consumer behind the records that it returns.
abbrev pub polled : Result (List ConsumerRecord) → World → Result (List ConsumerRecord) × World
polled (ok []) w = (ok [], w)
polled (ok (r ∷ rs)) w = (ok (r ∷ rs), record w { cursor = at (last_offset r rs +ℤ pos 1) })
polled (err e) w = (err e, w)

unfoldable pub getmany : Env → Text → Exec (List ConsumerRecord)
getmany env name w = polled (env.getmany w.calls name w.cursor) (record w { calls = suc w.calls })

-- One round of the replay loop, `again` for the next.
module _ (env : Env) (cfg : Settings) (tp : TopicPartition) (name : Text) (leo : ℤ)
    (deadline : ℕ) where
  unfoldable pub after_reset : (Replay → Exec Ending) → ℤ → Exec Ending
  after_reset again log_start = stop_or env cfg tp deadline (
      again (record {
        position = log_start;
        reset_occurred = true;
        reset_log_start = log_start;
        replayed_after_reset = 0;
      }))

  unfoldable pub after_batch :
      (Replay → Exec Ending) → Replay → ConsumerRecord → List ConsumerRecord → Exec Ending
  after_batch again r c cs = do
    materialize_batch env cfg tp c cs
    let r' : Replay = record r {
      position = last_offset c cs +ℤ pos 1;
      replayed_after_reset = r.replayed_after_reset + length (c ∷ cs);
    }
    if eqb_ℤ r'.position leo then again r' else stop_or env cfg tp deadline (again r')

  -- What a round does with the answer of `getmany`.
  unfoldable pub after_poll : (Replay → Exec Ending) → Replay → List ConsumerRecord → Exec Ending
  unfolding after_batch
  after_poll again r [] = stop_or env cfg tp deadline (again r)
  after_poll again r (c ∷ cs) = after_batch again r c cs

  -- `try: getmany(...) except OffsetOutOfRangeError: ...`
  unfoldable pub on_poll :
      (Replay → Exec Ending) → Replay → Result (List ConsumerRecord) × World → Result Ending × World
  unfolding after_poll after_reset reset
  on_poll again r (ok records, w) = after_poll again r records w
  on_poll again r (err offset_out_of_range, w) =
      (do log_start ← reset env name; after_reset again log_start) w
  on_poll again r (err e, w) = (err e, w)

  unfoldable pub round : (Replay → Exec Ending) → Replay → Exec Ending
  unfolding on_poll getmany
  round again r w =
      if eqb_ℤ r.position leo then (ok (reached r), w) else on_poll again r (getmany env name w)

-- The loop `while position != leo`, on fuel.
unfoldable pub replay : Env → Settings → TopicPartition → Text → ℤ → ℕ → ℕ → Replay → Exec Ending
unfolding round
replay env cfg tp name leo deadline zero r = pure unfinished
replay env cfg tp name leo deadline (suc fuel) r =
    round env cfg tp name leo deadline (replay env cfg tp name leo deadline fuel) r
