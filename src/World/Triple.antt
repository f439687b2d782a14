-- ===== src/World/Triple.antt =====
-- What a method leaves, from what it finds: a postcondition for a return and one for a raise, and one
-- rule for each way to build a method.
use ksqlite.Prelude.{ℕ, suc, ◌≡◌, refl, Bool, true, false, if◌then◌else◌}
use ksqlite.Errors.{Result, ok, err}
use ksqlite.World.{World, Exec, pure, call, next, ◌>>=◌}

-- The postconditions at an outcome: `P` where the method returned, `F` where it raised.
abbrev pub Leaves :
    {A : Type 0} → (A → World → Type 0) → (World → Type 0) → Result A × World → Type 0
Leaves P F (ok a, w) = P a w
Leaves P F (err e, w) = F w

pub record Triple {A : Type 0} (Pre : World → Type 0) (P : A → World → Type 0) (F : World → Type 0)
    (m : Exec A) : Type 0 where
  pub run : (w : World) → Pre w → Leaves P F (m w)

module _ {A : Type 0} {Pre F : World → Type 0} {P : A → World → Type 0} where
  pub Triple-pure : (a : A) → ((w : World) → Pre w → P a w) → Triple Pre P F (pure a)
  Triple-pure a h = record { run = h }

  pub Triple-weaken :
      {Pre' : World → Type 0} {m : Exec A}
      → ((w : World) → Pre w → Pre' w)
      → Triple Pre' P F m
      → Triple Pre P F m
  Triple-weaken h hm = record { run = λ w p. hm.run w (h w p) }

  pub Triple-after :
      {P' : A → World → Type 0} {m : Exec A}
      → ((a : A) (w : World) → P' a w → P a w)
      → Triple Pre P' F m
      → Triple Pre P F m
  Triple-after {P'} {m} h hm = record { run = λ w p. go (m w) (hm.run w p) }
    where
      go : (x : Result A × World) → Leaves P' F x → Leaves P F x
      go (ok a, w) p = h a w p
      go (err e, w) p = p

  pub Triple-if :
      (b : Bool) (m n : Exec A)
      → Triple Pre P F m
      → Triple Pre P F n
      → Triple Pre P F (if b then m else n)
  Triple-if true m n hm hn = hm
  Triple-if false m n hm hn = hn

  pub Triple-call :
      (f : ℕ → Result A)
      → ((w : World) (a : A) → f w.calls ≡ ok a → Pre w → P a (record w { calls = suc w.calls }))
      → ((w : World) → Pre w → F (record w { calls = suc w.calls }))
      → Triple Pre P F (call f)
  Triple-call f returns raises = record { run = λ w h. go w (f w.calls) refl h }
    where
      go :
          (w : World) (x : Result A)
          → f w.calls ≡ x
          → Pre w
          → Leaves P F (x, record w { calls = suc w.calls })
      go w (ok a) e h = returns w a e h
      go w (err x) e h = raises w h

pub Triple-bind :
    {A B : Type 0} {Pre F : World → Type 0} {Q : A → World → Type 0} {P : B → World → Type 0}
    (m : Exec A) (f : A → Exec B)
    → Triple Pre Q F m
    → ((a : A) → Triple (Q a) P F (f a))
    → Triple Pre P F (m >>= f)
unfolding ◌>>=◌
Triple-bind {A} {B} {Pre} {F} {Q} {P} m f hm hf = record { run = λ w h. go (m w) (hm.run w h) }
  where
    go : (x : Result A × World) → Leaves Q F x → Leaves P F (next x f)
    go (ok a, w) q = (hf a).run w q
    go (err e, w) q = q
