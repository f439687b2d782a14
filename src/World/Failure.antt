-- ===== src/World/Failure.antt =====
-- Relations between the world before a method and after it, for a method that raises anything but a
-- cancellation.
use ksqlite.Prelude.{Bool, true, false, if◌then◌else◌}
use ksqlite.Errors.{Exn, Result, ok, err, cancelled}
use ksqlite.World.{World, Exec, next, ◌>>=◌}
use ksqlite.World.Related.{Related, IsPreorder}

-- An exception other than a cancellation.
abbrev pub IsFailure : Exn → Type 0
IsFailure cancelled = ⊥
IsFailure _ = Unit

-- The result is such an exception.
abbrev pub Failed : {A : Type 0} → Result A → Type 0
Failed (ok _) = ⊥
Failed (err e) = IsFailure e

-- Where the result passes `P`, the worlds before and after are related.
pub record OnResult {A : Type 0} (P : Result A → Type 0) (R : World → World → Type 0) (m : Exec A)
    : Type 0 where
  pub at : (w : World) → P (m w).0 → R w (m w).1

module _ {A : Type 0} (P : Result A → Type 0) {R : World → World → Type 0} where
  -- What relates the worlds however it ends, does so on each result.
  pub OnResult-of_Related : (m : Exec A) → Related R m → OnResult P R m
  OnResult-of_Related m h = record { at = λ w f. h.at w }

  pub OnResult-if :
      (b : Bool) (m n : Exec A)
      → OnResult P R m
      → OnResult P R n
      → OnResult P R (if b then m else n)
  OnResult-if true m n hm hn = hm
  OnResult-if false m n hm hn = hn

  module _ {B : Type 0} (order : IsPreorder R) (m : Exec B) (f : B → Exec A) where
    -- The last call may relate the worlds only on some results.
    pub OnResult-bind : Related R m → ((b : B) → OnResult P R (f b)) → OnResult P R (m >>= f)
    unfolding ◌>>=◌
    OnResult-bind hm hf = record { at = λ w. go w (m w) (hm.at w) }
      where
        go : (w : World) (x : Result B × World) → R w x.1 → P (next x f).0 → R w (next x f).1
        go w (ok b, w1) h p = order.then_also w w1 _ h ((hf b).at w1 p)
        go w (err e, w1) h p = h

    -- The first call relates the worlds when it fails, and what follows has no result of `P`.
    pub OnResult-last :
        OnResult Failed R m
        → ((e : Exn) → P (err e) → IsFailure e)
        → ((b : B) (w : World) → ¬ P (f b w).0)
        → OnResult P R (m >>= f)
    unfolding ◌>>=◌
    OnResult-last hm fails hf = record { at = λ w. go w (m w) (hm.at w) }
      where
        go :
            (w : World) (x : Result B × World)
            → (Failed x.0 → R w x.1)
            → P (next x f).0
            → R w (next x f).1
        go w (ok b, w1) h p = absurd (hf b w1 p)
        go w (err e, w1) h p = h (fails e p)

    -- Two calls in a row, the first of which relates the worlds on the results of `Q`.
    pub OnResult-both :
        (Q : Result B → Type 0)
        → OnResult Q R m
        → ((e : Exn) → P (err e) → Q (err e))
        → ((b : B) (w : World) → P (f b w).0 → Q (ok b) × R w (f b w).1)
        → OnResult P R (m >>= f)
    unfolding ◌>>=◌
    OnResult-both Q hm fails hf = record { at = λ w. go w (m w) (hm.at w) }
      where
        go :
            (w : World) (x : Result B × World)
            → (Q x.0 → R w x.1)
            → P (next x f).0
            → R w (next x f).1
        go w (ok b, w1) h p = let (q, r) = hf b w1 p in order.then_also w w1 _ (h q) r
        go w (err e, w1) h p = h (fails e p)
