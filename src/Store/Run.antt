-- ===== src/Store/Run.antt =====
-- _store.py: the run state, and what `start`, `append` and `stop` do to it between their awaits.
-- A step is one stretch without an await, so a run of steps is any interleaving of the calls.
use ksqlite.Prelude.{
  ℕ, suc, ◌≡◌, ◌≢◌, ◌≤◌, ◌-◌, sym, ◌∙◌, not, inl, inr, Bool-cases, ==_iff, refl, Bool, true, false,
  ◌&&◌, Option, none, some, arith, ◌==◌, if◌then◌else◌,
}
use mathlib.Core.Path.{subst}
use ksqlite.Errors.{Result, ok, err, lifecycle_error, ok_injective}

-- _RunState
pub data RunState : Type 0 where
  new running stopping closed : RunState

pub record Store : Type 0 where
  pub run_state : RunState
  pub in_flight : ℕ
  -- the event `_drained` is set
  pub drained : Bool
  -- calls of `start` between their guard and their end
  pub starting : ℕ
  -- calls of `stop` that wait for the event
  pub waiting : ℕ

abbrev pub fresh : Store
fresh = record { run_state = new; in_flight = 0; drained = false; starting = 0; waiting = 0 }

-- The guard of `start`.
unfoldable pub start_enter : Store → Result Store
start_enter s = elim s.run_state [
  | new ↦ ok (record s { starting = suc s.starting })
  | _ ↦ err lifecycle_error
]

-- The end of a `start` that returns, and of one that raises.
unfoldable pub start_exit : Bool → Store → Store
start_exit true s = record s { run_state = running; starting = s.starting - 1 }
start_exit false s = record s { starting = s.starting - 1 }

-- `_ensure_running`
unfoldable pub ensure_running : Store → Result (Unit {0})
ensure_running s = elim s.run_state [ running ↦ ok tt | _ ↦ err lifecycle_error ]

-- The start of `append`: the guard and the increment.
unfoldable pub append_enter : Store → Result Store
unfolding ensure_running
append_enter s = elim (ensure_running s) [
  | ok _ ↦ ok (record s { in_flight = suc s.in_flight })
  | err e ↦ err e
]

abbrev is_running : RunState → Bool
is_running running = true
is_running _ = false

-- The `finally` of `append`, with the count of appends that are left.
abbrev pub left_over : ℕ → Store → Store
left_over n s = record s {
  in_flight = n;
  drained = if not (is_running s.run_state) && n == 0 then true else s.drained;
}

unfoldable pub append_exit : Store → Store
append_exit s = left_over (s.in_flight - 1) s

-- `stop` up to its wait; `none` where it returns at once. Without appends it closes in one stretch.
unfoldable pub stop_enter : Store → Result (Option Store)
stop_enter s = elim s.run_state [
  | new ↦ err lifecycle_error
  | running ↦ ok (
      some (
        if s.in_flight == 0
        then record s { run_state = closed }
        else record s { run_state = stopping; waiting = suc s.waiting }))
  | _ ↦ ok none
]

-- `stop` behind its wait.
unfoldable pub stop_resume : Store → Store
stop_resume s = record s { run_state = closed; waiting = s.waiting - 1 }

-- A `stop` that is cancelled while it waits.
unfoldable pub stop_cancel : Store → Store
stop_cancel s = record s { waiting = s.waiting - 1 }

pub data Step : Store → Store → Type 0 where
  starts : {s t : Store} → start_enter s ≡ ok t → Step s t
  started : {s : Store} → (b : Bool) → s.starting ≢ 0 → Step s (start_exit b s)
  appends : {s t : Store} → append_enter s ≡ ok t → Step s t
  appended : {s : Store} → s.in_flight ≢ 0 → Step s (append_exit s)
  stops : {s t : Store} → stop_enter s ≡ ok (some t) → Step s t
  stop_cancelled : {s : Store} → s.waiting ≢ 0 → Step s (stop_cancel s)
  resumes : {s : Store} → s.waiting ≢ 0 → s.drained ≡ true → Step s (stop_resume s)

pub data Steps : Store → Store → Type 0 where
  here : {s : Store} → Steps s s
  then_step : {s t u : Store} → Steps s t → Step t u → Steps s u

-- A call of `start` begins where no other is under way.
abbrev pub IsAlone : (s t : Store) → Step s t → Type 0
IsAlone s t (starts h) = s.starting ≡ 0
IsAlone _ _ _ = Unit

-- No two calls of `start` overlap.
abbrev pub AllAlone : (s t : Store) → Steps s t → Type 0
AllAlone _ _ here = Unit
AllAlone _ _ (then_step before step) = AllAlone _ _ before × IsAlone _ _ step

-- What holds between the steps: before and after the life of the store nothing runs, and the wait
-- of `stop` is for the appends that are left.
abbrev pub IsSound : RunState → ℕ → Bool → ℕ → ℕ → Type 0
IsSound new flying drained starting waiting =
    (flying ≡ 0) × (drained ≡ false) × (waiting ≡ 0) × (starting ≤ 1)
IsSound running flying drained starting waiting = (drained ≡ false) × (waiting ≡ 0) × (starting ≡ 0)
IsSound stopping flying drained starting waiting =
    (drained ≡ (flying == 0)) × (waiting ≤ 1) × (starting ≡ 0)
IsSound closed flying drained starting waiting = (flying ≡ 0) × (waiting ≡ 0) × (starting ≡ 0)

abbrev pub IsSoundStore : Store → Type 0
IsSoundStore s = IsSound s.run_state s.in_flight s.drained s.starting s.waiting

abbrev store : RunState → ℕ → Bool → ℕ → ℕ → Store
store r flying drained starting waiting = record {
  run_state = r;
  in_flight = flying;
  drained = drained;
  starting = starting;
  waiting = waiting;
}

module _ (f : ℕ) (d : Bool) (st w : ℕ) where
  moved : {s t : Store} → ok s ≡ ok t → IsSoundStore s → IsSoundStore t
  moved h i = subst IsSoundStore (ok_injective h) i

  start_enter-IsSound :
      (r : RunState) (t : Store)
      → st ≡ 0
      → start_enter (store r f d st w) ≡ ok t
      → IsSound r f d st w
      → IsSoundStore t
  unfolding start_enter
  start_enter-IsSound new t p h (a, b, c, le) = moved h (a, b, c, omega (arith, p))
  start_enter-IsSound _ t p h i = cc h

  start_exit-IsSound :
      (r : RunState) (b : Bool)
      → st ≢ 0
      → IsSound r f d st w
      → IsSoundStore (start_exit b (store r f d st w))
  unfolding start_exit
  start_exit-IsSound new true n (a, b, c, le) = (b, c, omega (arith, le))
  start_exit-IsSound new false n (a, b, c, le) = (a, b, c, omega (arith, le))
  start_exit-IsSound running b n (a, c, z) = absurd (n z)
  start_exit-IsSound stopping b n (a, c, z) = absurd (n z)
  start_exit-IsSound closed b n (a, c, z) = absurd (n z)

  append_enter-IsSound :
      (r : RunState) (t : Store)
      → append_enter (store r f d st w) ≡ ok t
      → IsSound r f d st w
      → IsSoundStore t
  unfolding append_enter ensure_running
  append_enter-IsSound running t h i = moved h i
  append_enter-IsSound _ t h i = cc h

  append_exit-IsSound :
      (r : RunState) → f ≢ 0 → IsSound r f d st w → IsSoundStore (append_exit (store r f d st w))
  unfolding append_exit
  append_exit-IsSound new n (z, _, _, _) = absurd (n z)
  append_exit-IsSound running n i = i
  append_exit-IsSound stopping n (a, b, c) = (ground (arith, a, n), b, c)
  append_exit-IsSound closed n (z, _, _) = absurd (n z)

  stop_enter-IsSound :
      (r : RunState) (t : Store)
      → stop_enter (store r f d st w) ≡ ok (some t)
      → IsSound r f d st w
      → IsSoundStore t
  unfolding stop_enter
  stop_enter-IsSound running t h (a, b, c) = elim (Bool-cases (f == 0)) [
    | inl none_left ↦
        subst IsSoundStore (some_ok (rw none_left at h)) ((==_iff f 0).0 none_left, b, c)
    | inr some_left ↦
        subst IsSoundStore (some_ok (rw some_left at h)) (a ∙ sym some_left, omega (arith, b), c)
  ]
    where
      some_ok : {a b : Store} → ok (some a) ≡ ok (some b) → a ≡ b
      some_ok e = cc e
  stop_enter-IsSound _ t h i = cc h

  stop_resume-IsSound :
      (r : RunState)
      → w ≢ 0
      → d ≡ true
      → IsSound r f d st w
      → IsSoundStore (stop_resume (store r f d st w))
  unfolding stop_resume
  stop_resume-IsSound stopping n e (a, b, c) = ((==_iff f 0).0 (sym a ∙ e), omega (arith, b), c)
  stop_resume-IsSound new n e (a, b, z, c) = absurd (n z)
  stop_resume-IsSound running n e (a, z, c) = absurd (n z)
  stop_resume-IsSound closed n e (a, z, c) = absurd (n z)

  stop_cancel-IsSound :
      (r : RunState) → w ≢ 0 → IsSound r f d st w → IsSoundStore (stop_cancel (store r f d st w))
  unfolding stop_cancel
  stop_cancel-IsSound stopping n (a, b, c) = (a, omega (arith, b), c)
  stop_cancel-IsSound new n (a, b, z, c) = absurd (n z)
  stop_cancel-IsSound running n (a, z, c) = absurd (n z)
  stop_cancel-IsSound closed n (a, z, c) = absurd (n z)

pub step-IsSound :
    (s t : Store) (step : Step s t) → IsAlone s t step → IsSoundStore s → IsSoundStore t
step-IsSound s t (starts h) p i = start_enter-IsSound _ _ _ _ _ t p h i
step-IsSound s t (started b n) p i = start_exit-IsSound _ _ _ _ _ b n i
step-IsSound s t (appends h) p i = append_enter-IsSound _ _ _ _ _ t h i
step-IsSound s t (appended h) p i = append_exit-IsSound _ _ _ _ _ h i
step-IsSound s t (stops h) p i = stop_enter-IsSound _ _ _ _ _ t h i
step-IsSound s t (stop_cancelled n) p i = stop_cancel-IsSound _ _ _ _ _ n i
step-IsSound s t (resumes n d) p i = stop_resume-IsSound _ _ _ _ _ n d i

-- In every interleaving of the calls of a fresh store in which no two calls of `start` overlap: no
-- append runs before the store has started or once it is closed, and while `stop` waits its event
-- is set exactly when no append is left.
pub steps-IsSoundStore :
    {t : Store} (steps : Steps fresh t) → AllAlone fresh t steps → IsSoundStore t
steps-IsSoundStore here alone = (refl, refl, refl, omega arith)
steps-IsSoundStore (then_step before step) (alone, last) =
    step-IsSound _ _ step last (steps-IsSoundStore before alone)
