-- ===== src/Replay/Ready.antt =====
-- _lifecycle.py, the replay loop, where SQLite and Kafka serve it and the clock stays in front of the
-- deadline: it reaches the LEO.
use ksqlite.Prelude.{
  ℕ, zero, suc, ◌+◌, length, ◌≡◌, refl, sym, ap, ◌∙◌, false, some, List, [], ◌∷◌, Each, Bool-cases,
  inl, inr, leb, if◌then◌else◌,
}
use mathlib.Core.Path.{subst}
use ksqlite.Prelude.Int.{ℤ, pos, ◌+ℤ◌, ◌≤ℤ◌, eqb_ℤ, eqb_ℤ_iff, le_or_next, int_laws}
use ksqlite.Errors.{Result, ok, err}
use ksqlite.Text.{Text}
use ksqlite.Types.{TopicPartition}
use ksqlite.State
use ksqlite.Wire.{Classified, ksqlite_record, foreign, unknown_version, classify}
use ksqlite.Schema.{insert_record, insert_row, checkpoint_upsert, execute_statement}
use ksqlite.World.{Env, World, Exec, ConsumerRecord, Cursor, beginning, at, next, on_machine, ◌>>=◌}
use ksqlite.World.Total.{Total, Total-pure, Total-bind}
use ksqlite.Pool.Healthy.{IsHealthy, IsOpen, run_statement-Total, transact_returns}
use ksqlite.Pool.Written.{transact-Written}
use ksqlite.Batches.{
  Settings, row_of, last_offset, replay_classified, replay_record, replay_records, batch_work,
  materialize_batch,
}
use ksqlite.Batches.Effect.{batch_work-IsWork}
use ksqlite.Replay.{
  Replay, Ending, reached, stop_or, polled, getmany, after_batch, after_poll, on_poll, round,
  replay,
}

-- The cursor stands at the position.
abbrev pub IsAt : ℤ → Cursor → Type 0
IsAt p beginning = p ≡ pos 0
IsAt p (at q) = q ≡ p

-- A record can be replayed: it is a foreign one, or one of this library with a payload that SQLite
-- accepts.
abbrev IsAccepted : Env → Classified → Type 0
IsAccepted env (foreign reason) = Unit
IsAccepted env (unknown_version id version) = ⊥
IsAccepted env (ksqlite_record k) = (p : Text) × (env.json k.payload ≡ some p)

abbrev pub IsReplayable : Env → ConsumerRecord → Type 0
IsReplayable env x = IsAccepted env (classify env.parsers x.key x.value x.headers)

-- Kafka serves the changelog up to the LEO, and no further: a fetch from a position below the LEO
-- returns records that can be replayed, the last of them between the position and the LEO. The clock
-- stays in front of the deadline.
pub record IsServing (env : Env) (name : Text) (leo : ℤ) (deadline : ℕ) : Type 0 where
  pub in_time : (n : ℕ) → leb deadline (env.clock n) ≡ false
  pub starts : (n : ℕ) → env.consumer_start n ≡ ok tt
  pub ends : (n : ℕ) → env.end_offset n name ≡ ok leo
  pub rewinds : (n : ℕ) → env.seek_to_beginning n name ≡ ok tt
  pub fetches :
      (n : ℕ) (p : ℤ) (cursor : Cursor)
      → IsAt p cursor
      → p +ℤ pos 1 ≤ℤ leo
      → (c : ConsumerRecord) × (cs : List ConsumerRecord) × (env.getmany n name cursor
          ≡ ok (c ∷ cs))
        × (p ≤ℤ last_offset c cs)
        × (last_offset c cs +ℤ pos 1 ≤ℤ leo)
        × Each (IsReplayable env) (c ∷ cs)

module _ (env : Env) (cfg : Settings) (tp : TopicPartition) (healthy : IsHealthy env) where
  classified-Total :
      (offset : ℤ) (c : Classified)
      → IsAccepted env c
      → Total IsOpen (λ u. IsOpen) (replay_classified env tp offset c)
  unfolding replay_classified execute_statement
  classified-Total offset (foreign reason) accepted = Total-pure tt (λ w p. p)
  classified-Total offset (unknown_version id version) accepted = absurd accepted
  classified-Total offset (ksqlite_record k) (p, accepted) =
      run_statement-Total env healthy (insert_record (row_of tp offset k)) (λ d. (
        insert_row (record (row_of tp offset k) { payload = p }) d,
        rw (execute_statement, accepted) refl,
      ))

  records-Total :
      (rs : List ConsumerRecord)
      → Each (IsReplayable env) rs
      → Total IsOpen (λ u. IsOpen) (replay_records env tp rs)
  unfolding replay_records replay_record
  records-Total [] accepted = Total-pure tt (λ w p. p)
  records-Total (r ∷ rs) (accepted, rest) =
      Total-bind _ _ (classified-Total r.offset _ accepted) (λ u. records-Total rs rest)

  batch_work-Total :
      (rs : List ConsumerRecord) (last : ℤ)
      → Each (IsReplayable env) rs
      → Total IsOpen (λ u. IsOpen) (batch_work env tp rs last)
  unfolding batch_work execute_statement
  batch_work-Total rs last accepted =
      Total-bind _ _ (records-Total rs accepted)
        (λ u. run_statement-Total env healthy (checkpoint_upsert tp last) (λ d. (_, refl)))

  -- A batch that can be replayed is materialized, and the cursor stays.
  materialized :
      (c : ConsumerRecord) (cs : List ConsumerRecord) (w : World)
      → Each (IsReplayable env) (c ∷ cs)
      → ((materialize_batch env cfg tp c cs w).0 ≡ ok tt)
        × ((materialize_batch env cfg tp c cs w).1.cursor ≡ w.cursor)
  unfolding materialize_batch ◌>>=◌
  materialized c cs w accepted =
      let (k, conn, d, same, le, atomic) =
        transact-Written env cfg.busy_timeout w
          (batch_work-IsWork env tp (c ∷ cs) (last_offset c cs)) in
      noted _
        (transact_returns env healthy (batch_work env tp (c ∷ cs) (last_offset c cs))
          (batch_work-Total (c ∷ cs) (last_offset c cs) accepted) cfg.busy_timeout w)
        (ap (λ x. x.cursor) same)
    where
      noted :
          (x : Result (Unit {0}) × World)
          → x.0 ≡ ok tt
          → x.1.cursor ≡ w.cursor
          → ((next x (λ u. on_machine (State.record_applied tp (last_offset c cs)))).0 ≡ ok tt)
            × ((next x (λ u. on_machine (State.record_applied tp (last_offset c cs)))).1.cursor
                ≡ w.cursor)
      noted (ok u, w1) e same = (refl, same)
      noted (err e, w1) h same = cc h

  module _ (name : Text) (leo : ℤ) (deadline : ℕ) (serving : IsServing env name leo deadline) where
    -- The loop has reached the LEO without a reset.
    abbrev IsReached : Result Ending × World → Type 0
    IsReached x = (r : Replay) × (x.0 ≡ ok (reached r)) × (r.reset_occurred ≡ false)

    stop_or_goes_on :
        (m : Exec Ending) (w : World)
        → stop_or env cfg tp deadline m w ≡ m (record w { calls = suc w.calls })
    unfolding stop_or ◌>>=◌
    stop_or_goes_on m w = rw (serving.in_time w.calls) refl

    -- What the rounds behind a batch reach, from a cursor at their position.
    abbrev Goes : (Replay → Exec Ending) → ℤ → Type 0
    Goes again position =
        (r : Replay) (w : World)
        → r.position ≡ position
        → r.reset_occurred ≡ false
        → w.cursor ≡ at position
        → IsReached (again r w)

    after_batch-IsReached :
        (again : Replay → Exec Ending) (r : Replay) (c : ConsumerRecord) (cs : List ConsumerRecord)
        (w : World)
        → Each (IsReplayable env) (c ∷ cs)
        → r.reset_occurred ≡ false
        → w.cursor ≡ at (last_offset c cs +ℤ pos 1)
        → Goes again (last_offset c cs +ℤ pos 1)
        → IsReached (after_batch env cfg tp name leo deadline again r c cs w)
    unfolding after_batch ◌>>=◌
    after_batch-IsReached again r c cs w accepted quiet sought goes =
        let (returned, same) = materialized c cs w accepted in
        behind (materialize_batch env cfg tp c cs w) returned (same ∙ sought)
      where
        r' : Replay
        r' = record r {
          position = last_offset c cs +ℤ pos 1;
          replayed_after_reset = r.replayed_after_reset + length (c ∷ cs);
        }

        behind :
            (x : Result (Unit {0}) × World)
            → x.0 ≡ ok tt
            → x.1.cursor ≡ at (last_offset c cs +ℤ pos 1)
            → IsReached (
                next x (λ u.
                  if eqb_ℤ r'.position leo
                  then again r'
                  else stop_or env cfg tp deadline (again r')))
        behind (err e, w1) h sought = cc h
        behind (ok u, w1) h sought = elim (Bool-cases (eqb_ℤ r'.position leo)) [
          | inl done ↦ rw done (goes r' w1 refl quiet sought)
          | inr more ↦ rw more (
              subst IsReached (sym (stop_or_goes_on (again r') w1))
                (goes r' (record w1 { calls = suc w1.calls }) refl quiet sought))
        ]

    below : (p : ℤ) → p ≤ℤ leo → eqb_ℤ p leo ≡ false → p +ℤ pos 1 ≤ℤ leo
    below p le other = elim (le_or_next leo p) [
      | inl above ↦ cc (other, (eqb_ℤ_iff p leo).1 (omega (int_laws, le, above)))
      | inr within ↦ within
    ]

    -- One round from below the LEO, where the rounds behind it go on from the next position.
    on_poll-IsReached :
        (again : Replay → Exec Ending) (r : Replay) (w : World)
        → IsAt r.position w.cursor
        → r.reset_occurred ≡ false
        → r.position +ℤ pos 1 ≤ℤ leo
        → ((p : ℤ) → r.position +ℤ pos 1 ≤ℤ p → p ≤ℤ leo → Goes again p)
        → IsReached (on_poll env cfg tp name leo deadline again r (getmany env name w))
    unfolding on_poll after_poll getmany
    on_poll-IsReached again r w is_at quiet within goes =
        let (c, cs, fetched, ge, le, accepted) =
          serving.fetches w.calls r.position w.cursor is_at within in
        subst
          (λ x. IsReached (
            on_poll env cfg tp name leo deadline again r
              (polled x (record w { calls = suc w.calls }))))
          (sym fetched)
          (after_batch-IsReached again r c cs
            (record w { calls = suc w.calls; cursor = at (last_offset c cs +ℤ pos 1) }) accepted
            quiet refl (goes (last_offset c cs +ℤ pos 1) (omega (int_laws, ge)) le))

    -- Rounds enough for the distance to the LEO reach it.
    pub replay-IsReached :
        (n : ℕ) (r : Replay) (w : World)
        → IsAt r.position w.cursor
        → r.reset_occurred ≡ false
        → r.position ≤ℤ leo
        → leo ≤ℤ r.position +ℤ pos n
        → IsReached (replay env cfg tp name leo deadline (suc n) r w)
    unfolding replay round
    replay-IsReached zero r w is_at quiet le enough = elim (Bool-cases (eqb_ℤ r.position leo)) [
      | inl there ↦ rw there (r, refl, quiet)
      | inr other ↦ absurd (beyond (below r.position le other) enough)
    ]
      where
        beyond : r.position +ℤ pos 1 ≤ℤ leo → leo ≤ℤ r.position +ℤ pos 0 → ⊥
        beyond h k = omega (int_laws, h, k)
    replay-IsReached (suc n) r w is_at quiet le enough = elim (Bool-cases (eqb_ℤ r.position leo)) [
      | inl there ↦ rw there (r, refl, quiet)
      | inr other ↦ rw other (
          on_poll-IsReached (replay env cfg tp name leo deadline (suc n)) r w is_at quiet
            (below r.position le other)
            (λ p ge p_le r1 w1 e calm sought.
              replay-IsReached n r1 w1 (subst (IsAt r1.position) (sym sought) (sym e)) calm
                (subst (λ z. z ≤ℤ leo) (sym e) p_le)
                (subst (λ z. leo ≤ℤ z +ℤ pos n) (sym e) (omega (int_laws, ge, enough)))))
    ]
