-- ===== src/Store/Drain.antt =====
-- _store.py, `stop`, while it waits for the appends in flight.
use ksqlite.Prelude.{zero, suc, ℕ, ◌+◌, ◌<◌, ◌≡◌, ◌≢◌, refl, ◌∙◌, ◌⊎◌, inl, inr, arith}
use mathlib.Core.Path.{subst}
use ksqlite.Store.Run.{
  Steps, here, then_step, step-IsSound, Store, stopping, closed, start_enter, append_enter,
  append_exit, ensure_running, stop_enter, stop_resume, stop_cancel, Step, starts, started, appends,
  appended, stops, stop_cancelled, resumes, IsSound, IsSoundStore,
}

-- The calls that the drain still waits for: appends in flight, and the stops themselves.
abbrev pub remaining : Store → ℕ
remaining s = s.in_flight + s.waiting

abbrev Nearer : Store → Store → Type 0
Nearer s t = (remaining t < remaining s) × ((t.run_state ≡ stopping) ⊎ (t.run_state ≡ closed))

module _ (s : Store) (stop : s.run_state ≡ stopping) (sound : IsSoundStore s) where
  abbrev IsStopping : Type 0
  IsStopping = IsSound stopping s.in_flight s.drained s.starting s.waiting

  at_stop : IsStopping
  at_stop = subst (λ r. IsSound r s.in_flight s.drained s.starting s.waiting) stop sound

  nearer : (t : Store) → Step s t → Nearer s t
  unfolding start_enter append_enter ensure_running append_exit stop_enter stop_resume stop_cancel
  nearer t (starts h) = cc (rw (stop, start_enter) at h)
  nearer t (started b n) = absurd (n at_stop.2)
  nearer t (appends h) = cc (rw (stop, append_enter, ensure_running) at h)
  nearer t (appended n) = (omega (arith, n), inl stop)
  nearer t (stops h) = cc (rw (stop, stop_enter) at h)
  nearer t (stop_cancelled n) = (omega (arith, n), inl stop)
  nearer t (resumes n d) = (omega (arith, n), inr refl)

-- While a `stop` waits in a store that is sound, as every interleaving in which no two calls of `start`
-- overlap leaves it (`IsSoundStore`), each step that the store can take leaves it stopping or closed
-- and lowers the number of calls that are left: no new append delays the `stop`.
pub step-Nearer :
    (s t : Store)
    → IsSoundStore s
    → s.run_state ≡ stopping
    → Step s t
    → (remaining t < remaining s) × ((t.run_state ≡ stopping) ⊎ (t.run_state ≡ closed))
step-Nearer s t sound stop step = nearer s stop sound t step

in_front : {s t u : Store} → Step s t → Steps t u → Steps s u
in_front first here = then_step here first
in_front first (then_step more last) = then_step (in_front first more) last

drained_after :
    (n : ℕ) (s : Store)
    → s.in_flight ≡ n
    → IsSoundStore s
    → s.run_state ≡ stopping
    → s.waiting ≢ 0
    → (t : Store) × Steps s t × (t.run_state ≡ closed) × (t.in_flight ≡ 0)
unfolding append_exit stop_resume
drained_after zero s n sound stop waits = (
  stop_resume s,
  in_front (resumes waits ((at_stop s stop sound).0 ∙ ground (arith, n))) here,
  refl,
  n,
)
drained_after (suc n) s some_left sound stop waits =
    let first : Step s (append_exit s) = appended (λ z. omega (arith, z, some_left)) in
    let (t, steps, is_closed, none_left) =
      drained_after n (append_exit s) (omega (arith, some_left))
        (step-IsSound s (append_exit s) first tt sound) stop waits in
    (t, in_front first steps, is_closed, none_left)

-- In a store that is sound, as every interleaving in which no two calls of `start` overlap leaves it
-- (`IsSoundStore`), a `stop` that waits can come to its end: there are steps, the ends of the appends
-- in flight and then the `stop` itself, behind which the store is closed and no append is left.
pub stop_drains :
    (s : Store)
    → IsSoundStore s
    → s.run_state ≡ stopping
    → s.waiting ≢ 0
    → (t : Store) × Steps s t × (t.run_state ≡ closed) × (t.in_flight ≡ 0)
stop_drains s sound stop waits = drained_after s.in_flight s refl sound stop waits
