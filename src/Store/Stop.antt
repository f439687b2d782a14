-- ===== src/Store/Stop.antt =====
-- _store.py: the close steps of `stop`; and `aclose` of _lifecycle.py, which is one of them.
use ksqlite.Prelude.{
  ◌≡◌, refl, ap, ◌∙◌, Bool, true, false, Option, none, some, List, [], ◌∷◌, ◌++◌, ◌⊎◌, inl, inr,
  if◌then◌else◌,
}
use ksqlite.Errors.{Exn, Result, ok, err}

-- The steps, in their order.
pub data CloseStep : Type 0 where
  producer_flush producer_stop consumer_stop admin_close pool_close : CloseStep

abbrev pub close_steps : List CloseStep
close_steps = producer_flush ∷ producer_stop ∷ consumer_stop ∷ admin_close ∷ pool_close ∷ []

-- `aclose`: the consumer that has started is stopped, and forgotten if that returns.
abbrev pub after_stop : Result (Unit {0}) → Result (Unit {0}) × Bool
after_stop (ok u) = (ok tt, false)
after_stop (err e) = (err e, true)

unfoldable pub aclose : Result (Unit {0}) → Bool → Result (Unit {0}) × Bool
aclose stop_consumer consumer = if consumer then after_stop stop_consumer else (ok tt, false)

-- What a step ends with, from what the clients' calls end with.
abbrev pub ends : (CloseStep → Result (Unit {0})) → Bool → CloseStep → Result (Unit {0})
ends calls consumer consumer_stop = (aclose (calls consumer_stop) consumer).0
ends calls consumer step = calls step

-- `if first_exc is None: first_exc = exc`
abbrev pub first_of : Option Exn → Result (Unit {0}) → Option Exn
first_of first (ok u) = first
first_of none (err e) = some e
first_of (some f) (err e) = some f

-- The loop over the steps: which were attempted, and `first_exc` behind them.
unfoldable pub attempt_steps :
    (CloseStep → Result (Unit {0})) → List CloseStep → Option Exn → List CloseStep × Option Exn
attempt_steps step [] first = ([], first)
attempt_steps step (x ∷ xs) first =
    let rest = attempt_steps step xs (first_of first (step x)) in (x ∷ rest.0, rest.1)

abbrev pub raised : Option Exn → Result (Unit {0})
raised none = ok tt
raised (some e) = err e

unfoldable pub close_all :
    (CloseStep → Result (Unit {0})) → Bool → List CloseStep × Result (Unit {0})
unfolding attempt_steps aclose
close_all calls consumer =
    let x = attempt_steps (ends calls consumer) close_steps none in (x.0, raised x.1)

-- Every step of the list returns.
abbrev pub AllReturn : (CloseStep → Result (Unit {0})) → List CloseStep → Type 0
AllReturn step [] = Unit
AllReturn step (x ∷ xs) = (step x ≡ ok tt) × AllReturn step xs

-- The result is the exception of the first step that raises, or a return where none does.
abbrev pub IsFirst : (CloseStep → Result (Unit {0})) → List CloseStep → Result (Unit {0}) → Type 0
IsFirst step xs r =
    (AllReturn step xs × (r ≡ ok tt))
    ⊎ ((before : List CloseStep) × (x : CloseStep) × (after : List CloseStep) × (e : Exn) × (xs
          ≡ before ++ x ∷ after)
        × AllReturn step before
        × (step x ≡ err e)
        × (r ≡ err e))

module _ (step : CloseStep → Result (Unit {0})) where
  attempt_steps-all :
      (xs : List CloseStep) (first : Option Exn) → (attempt_steps step xs first).0 ≡ xs
  unfolding attempt_steps
  attempt_steps-all [] first = refl
  attempt_steps-all (x ∷ xs) first =
      ap (λ ys. x ∷ ys) (attempt_steps-all xs (first_of first (step x)))

  -- An exception that was noted stays.
  noted : (r : Result (Unit {0})) (e : Exn) → first_of (some e) r ≡ some e
  noted (ok u) e = refl
  noted (err f) e = refl

  attempt_steps-noted :
      (xs : List CloseStep) (e : Exn) → (attempt_steps step xs (some e)).1 ≡ some e
  unfolding attempt_steps
  attempt_steps-noted [] e = refl
  attempt_steps-noted (x ∷ xs) e =
      ap (λ f. (attempt_steps step xs f).1) (noted (step x) e) ∙ attempt_steps-noted xs e

  attempt_steps-IsFirst :
      (xs : List CloseStep) → IsFirst step xs (raised (attempt_steps step xs none).1)
  unfolding attempt_steps
  attempt_steps-IsFirst [] = inl (tt, refl)
  attempt_steps-IsFirst (x ∷ xs) = by_step (step x) refl (attempt_steps-IsFirst xs)
    where
      by_step :
          (r : Result (Unit {0}))
          → step x ≡ r
          → IsFirst step xs (raised (attempt_steps step xs none).1)
          → IsFirst step (x ∷ xs) (raised (attempt_steps step xs (first_of none r)).1)
      by_step (ok u) e (inl (all, r)) = inl ((e, all), r)
      by_step (ok u) e (inr (before, y, after, f, split, returned, stops, r)) =
          inr (x ∷ before, y, after, f, ap (λ ys. x ∷ ys) split, (e, returned), stops, r)
      by_step (err f) e h = inr ([], x, xs, f, refl, tt, e, ap raised (attempt_steps-noted xs f))

-- `stop` attempts the five close steps in their order, whatever they raise, and then raises the
-- exception of the first step that has raised one; it returns where every step has.
pub close_all-IsFirst :
    (calls : CloseStep → Result (Unit {0})) (consumer : Bool)
    → ((close_all calls consumer).0 ≡ close_steps)
      × IsFirst (ends calls consumer) close_steps (close_all calls consumer).1
unfolding close_all
close_all-IsFirst calls consumer = (
  attempt_steps-all (ends calls consumer) close_steps none,
  attempt_steps-IsFirst (ends calls consumer) close_steps,
)
