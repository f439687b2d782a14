-- ===== src/World/Total.antt =====
-- What a method returns and leaves, from what it finds: it does return. One rule for each way to build
-- a method.
use ksqlite.Prelude.{ℕ, suc, ◌≡◌, Bool, true, false, if◌then◌else◌}
use ksqlite.Errors.{Exn, Result, ok, err}
use ksqlite.World.{World, Exec, pure, call, catch, caught, next, ◌>>=◌}

-- The method has returned, and the postcondition holds.
abbrev pub Returned : {A : Type 0} → (A → World → Type 0) → Result A × World → Type 0
Returned P (ok a, w) = P a w
Returned P (err e, w) = ⊥

pub record Total {A : Type 0} (Pre : World → Type 0) (P : A → World → Type 0) (m : Exec A)
    : Type 0 where
  pub run : (w : World) → Pre w → Returned P (m w)

module _ {A : Type 0} {Pre : World → Type 0} {P : A → World → Type 0} where
  pub Total-pure : (a : A) → ((w : World) → Pre w → P a w) → Total Pre P (pure a)
  Total-pure a h = record { run = h }

  pub Total-if :
      (b : Bool) (m n : Exec A) → Total Pre P m → Total Pre P n → Total Pre P (if b then m else n)
  Total-if true m n hm hn = hm
  Total-if false m n hm hn = hn

  pub Total-call :
      (f : ℕ → Result A) (a : A)
      → ((n : ℕ) → f n ≡ ok a)
      → ((w : World) → Pre w → P a (record w { calls = suc w.calls }))
      → Total Pre P (call f)
  Total-call f a answers h = record { run = λ w p. go w (f w.calls) (answers w.calls) p }
    where
      go :
          (w : World) (x : Result A)
          → x ≡ ok a
          → Pre w
          → Returned P (x, record w { calls = suc w.calls })
      go w x e p = rw e (h w p)

  pub Total-catch :
      (m : Exec A) (handler : Exn → Exec A) → Total Pre P m → Total Pre P (catch m handler)
  Total-catch m handler hm = record { run = λ w p. go (m w) (hm.run w p) }
    where
      go : (x : Result A × World) → Returned P x → Returned P (caught x handler)
      go (ok a, w) p = p
      go (err e, w) p = absurd p

pub Total-bind :
    {A B : Type 0} {Pre : World → Type 0} {Q : A → World → Type 0} {P : B → World → Type 0}
    (m : Exec A) (f : A → Exec B)
    → Total Pre Q m
    → ((a : A) → Total (Q a) P (f a))
    → Total Pre P (m >>= f)
unfolding ◌>>=◌
Total-bind {A} {B} {Pre} {Q} {P} m f hm hf = record { run = λ w h. go (m w) (hm.run w h) }
  where
    go : (x : Result A × World) → Returned Q x → Returned P (next x f)
    go (ok a, w) q = (hf a).run w q
    go (err e, w) q = absurd q
