-- ===== src/Examples/Ready.antt =====
-- The theorem on a rehydrate that is served, at a concrete input: a changelog of one record.
use ksqlite.Prelude.{◌≡◌, refl, some, [], arith, true}
use ksqlite.Prelude.Int.{pos, ◌+ℤ◌, int_laws}
use ksqlite.Errors.{ok}
use ksqlite.Text.{codes, text_eq}
use ksqlite.Text.Utf8.{decode, decode_replace}
use ksqlite.Types.{ready}
use ksqlite.State.{status_of}
use ksqlite.Wire.{classify}
use ksqlite.Schema.{checkpoint_of, is_owned}
use ksqlite.World.{Env}
use ksqlite.Pool.Healthy.{IsHealthy}
use ksqlite.Replay.Ready.{IsReplayable, IsServing}
use ksqlite.Lifecycle.{rehydrate_one}
use ksqlite.Lifecycle.Ready.{rehydrate_one-Ready}
use ksqlite.Examples.{tp, name, first_record, env, cfg, world, dirty_conn}

-- The clock stands still.
abbrev served_env : Env
served_env = record env { clock = λ n. 0 }

served_env-IsHealthy : IsHealthy served_env
served_env-IsHealthy = record {
  executed = λ n. refl;
  connection = λ n. dirty_conn;
  hands_out = λ n. refl;
}

first_record-IsReplayable : IsReplayable served_env first_record
unfolding classify text_eq decode decode_replace
first_record-IsReplayable = (codes "{}", refl)

served_env-IsServing : IsServing served_env name (pos 1) 7
unfolding ◌+ℤ◌
served_env-IsServing = record {
  in_time = λ n. refl;
  starts = λ n. refl;
  ends = λ n. refl;
  rewinds = λ n. refl;
  fetches = λ n p cursor is_at below. (
    first_record,
    [],
    refl,
    omega (int_laws, below),
    omega arith,
    (first_record-IsReplayable, tt),
  );
}

rehydrate_one-Ready_example :
    ((rehydrate_one served_env cfg 2 tp name 7 world).0 ≡ ok tt)
    × (status_of tp (rehydrate_one served_env cfg 2 tp name 7 world).1.machine ≡ some ready)
    × (is_owned tp (rehydrate_one served_env cfg 2 tp name 7 world).1.db.owned ≡ true)
unfolding checkpoint_of ◌+ℤ◌
rehydrate_one-Ready_example =
    rehydrate_one-Ready served_env cfg tp name (pos 1) 7 1 world served_env-IsHealthy
      served_env-IsServing (omega arith) (omega arith)
