-- ===== src/World/Returns.antt =====
-- What holds after a method that returned: one rule for each way to build a method.
use ksqlite.Prelude.{◌≡◌, refl, Bool, true, false, if◌then◌else◌}
use ksqlite.Errors.{Exn, Result, ok, err}
use ksqlite.World.{World, Exec, raise, next, ◌>>=◌}

pub record Returns {A : Type 0} (P : A → World → Type 0) (m : Exec A) : Type 0 where
  pub at : (w : World) (a : A) → (m w).0 ≡ ok a → P a (m w).1

module _ {B : Type 0} {P : B → World → Type 0} where
  pub Returns-raise : (e : Exn) → Returns P (raise e)
  Returns-raise e = record { at = λ w a h. cc h }

  pub Returns-if :
      (b : Bool) (m n : Exec B) → Returns P m → Returns P n → Returns P (if b then m else n)
  Returns-if true m n hm hn = hm
  Returns-if false m n hm hn = hn

module _ {A B : Type 0} {P : B → World → Type 0} where
  -- What the second part makes true by itself.
  pub Returns-bind :
      (m : Exec A) (f : A → Exec B) → ((a : A) → Returns P (f a)) → Returns P (m >>= f)
  unfolding ◌>>=◌
  Returns-bind m f hf = record { at = λ w b h. go (m w) b h }
    where
      go : (x : Result A × World) (b : B) → (next x f).0 ≡ ok b → P b (next x f).1
      go (ok a, w) b h = (hf a).at w b h
      go (err e, w) b h = cc h

  -- What the second part makes true after the first.
  pub Returns-after :
      {Q : A → World → Type 0} (m : Exec A) (f : A → Exec B)
      → Returns Q m
      → ((a : A) (w : World) → Q a w → (b : B) → (f a w).0 ≡ ok b → P b (f a w).1)
      → Returns P (m >>= f)
  unfolding ◌>>=◌
  Returns-after {Q} m f hm hf = record { at = λ w b h. go (m w) (hm.at w) b h }
    where
      go :
          (x : Result A × World)
          → ((a : A) → x.0 ≡ ok a → Q a x.1)
          → (b : B) → (next x f).0 ≡ ok b
          → P b (next x f).1
      go (ok a, w) q b h = hf a w (q a refl) b h
      go (err e, w) q b h = cc h
