-- ===== src/World/Only.antt =====
-- The exceptions that a method may end with: one rule for each way to build a method.
use ksqlite.Prelude.{ℕ, ◌≡◌, Bool, true, false, arith, if◌then◌else◌}
use ksqlite.Errors.{Exn, Result, ok, err}
use ksqlite.World.{World, Exec, pure, raise, gets, call, caught, catch, next, modify, ◌>>=◌}

-- Whatever the world, `m` returns or raises an exception that passes `allowed`.
pub record Only {A : Type 0} (allowed : Exn → Bool) (m : Exec A) : Type 0 where
  pub raises : (w : World) (e : Exn) → (m w).0 ≡ err e → allowed e ≡ true

module _ {allowed : Exn → Bool} {A : Type 0} where
  pub Only-pure : (a : A) → Only allowed (pure a)
  Only-pure a = record { raises = λ w e h. cc }

  pub Only-gets : (f : World → A) → Only allowed (gets f)
  Only-gets f = record { raises = λ w e h. cc }

  pub Only-raise : (e : Exn) → allowed e ≡ true → Only allowed (raise {A = A} e)
  Only-raise e p = record { raises = λ w e' h. ground arith }

  pub Only-call :
      (f : ℕ → Result A)
      → ((n : ℕ) (e : Exn) → f n ≡ err e → allowed e ≡ true)
      → Only allowed (call f)
  Only-call f p = record { raises = λ w e h. p w.calls e h }

  pub Only-if :
      (b : Bool) (m n : Exec A)
      → Only allowed m
      → Only allowed n
      → Only allowed (if b then m else n)
  Only-if true m n hm hn = hm
  Only-if false m n hm hn = hn

  -- `except` may widen or narrow what gets out.
  pub Only-catch :
      {inner : Exn → Bool} (m : Exec A) (handler : Exn → Exec A)
      → Only inner m
      → ((e : Exn) → inner e ≡ true → Only allowed (handler e))
      → Only allowed (catch m handler)
  Only-catch {inner} m handler hm hh = record { raises = λ w e h. go (m w) (hm.raises w) e h }
    where
      go :
          (x : Result A × World)
          → ((e : Exn) → x.0 ≡ err e → inner e ≡ true)
          → (e : Exn) → (caught x handler).0 ≡ err e
          → allowed e ≡ true
      go (ok a, w) p e h = cc
      go (err e', w) p e h = (hh e' (p e' (λ i. err e'))).raises w e h

pub Only-modify : {allowed : Exn → Bool} (f : World → World) → Only allowed (modify f)
Only-modify f = record { raises = λ w e h. cc }

pub Only-bind :
    {allowed : Exn → Bool} {A B : Type 0} (m : Exec A) (f : A → Exec B)
    → Only allowed m
    → ((a : A) → Only allowed (f a))
    → Only allowed (m >>= f)
unfolding ◌>>=◌
Only-bind {allowed} {A} {B} m f hm hf = record { raises = λ w e h. go (m w) (hm.raises w) e h }
  where
    go :
        (x : Result A × World)
        → ((e : Exn) → x.0 ≡ err e → allowed e ≡ true)
        → (e : Exn) → (next x f).0 ≡ err e
        → allowed e ≡ true
    go (ok a, w) p e h = (hf a).raises w e h
    go (err e', w) p e h = p e (ground arith)

pub ruleset only_rules = (Only-pure, Only-gets, Only-raise, Only-if, Only-modify, Only-bind)
