-- ===== src/World/Related.antt =====
-- Relations between the world before a method and after it, whether it returned or raised: one rule
-- for each way to build a method.
use ksqlite.Prelude.{◌≡◌, Bool, true, false, if◌then◌else◌}
use ksqlite.Errors.{Exn, Result, ok, err}
use ksqlite.State.{Machine}
use ksqlite.Schema.{Db}
use ksqlite.World.{World, Exec, pure, raise, gets, lift, caught, catch, next, ◌>>=◌}

pub record Related {A : Type 0} (R : World → World → Type 0) (m : Exec A) : Type 0 where
  pub at : (w : World) → R w (m w).1

-- A relation that composes.
pub record IsPreorder {S : Type 0} (R : S → S → Type 0) : Type 0 where
  pub same : (a : S) → R a a
  pub then_also : (a b c : S) → R a b → R b c → R a c

module _ {R : World → World → Type 0} (order : IsPreorder R) where
  pub Related-pure : {A : Type 0} (a : A) → Related R (pure a)
  Related-pure a = record { at = λ w. order.same w }

  pub Related-raise : {A : Type 0} (e : Exn) → Related R (raise {A = A} e)
  Related-raise e = record { at = λ w. order.same w }

  pub Related-lift : {A : Type 0} (r : Result A) → Related R (lift r)
  Related-lift r = record { at = λ w. order.same w }

  pub Related-gets : {A : Type 0} (f : World → A) → Related R (gets f)
  Related-gets f = record { at = λ w. order.same w }

  pub Related-if :
      {A : Type 0} (b : Bool) (m n : Exec A)
      → Related R m
      → Related R n
      → Related R (if b then m else n)
  Related-if true m n hm hn = hm
  Related-if false m n hm hn = hn

  pub Related-bind :
      {A B : Type 0} (m : Exec A) (f : A → Exec B)
      → Related R m
      → ((a : A) → Related R (f a))
      → Related R (m >>= f)
  unfolding ◌>>=◌
  Related-bind {A} {B} m f hm hf = record { at = λ w. go w (m w) (hm.at w) }
    where
      go : (w : World) (x : Result A × World) → R w x.1 → R w (next x f).1
      go w (ok a, w1) h = order.then_also w w1 _ h ((hf a).at w1)
      go w (err e, w1) h = h

  pub Related-catch :
      {A : Type 0} (m : Exec A) (handler : Exn → Exec A)
      → Related R m
      → ((e : Exn) → Related R (handler e))
      → Related R (catch m handler)
  Related-catch {A} m handler hm hh = record { at = λ w. go w (m w) (hm.at w) }
    where
      go : (w : World) (x : Result A × World) → R w x.1 → R w (caught x handler).1
      go w (ok a, w1) h = h
      go w (err e, w1) h = order.then_also w w1 _ h ((hh e).at w1)

-- A relation on the database alone.
abbrev pub OnDb : (Db → Db → Type 0) → World → World → Type 0
OnDb R w w' = R w.db w'.db

module _ {R : Db → Db → Type 0} (order : IsPreorder R) where
  pub OnDb-preorder : IsPreorder (OnDb R)
  OnDb-preorder = record {
    same = λ w. order.same w.db;
    then_also = λ a b c. order.then_also a.db b.db c.db;
  }

  -- What leaves the database alone.
  pub OnDb-still :
      {A : Type 0} (m : Exec A) → ((w : World) → (m w).1.db ≡ w.db) → Related (OnDb R) m
  OnDb-still m h = record { at = λ w. rw (h w) (order.same w.db) }

-- A relation on the memory of the process alone.
abbrev pub OnMachine : (Machine → Machine → Type 0) → World → World → Type 0
OnMachine R w w' = R w.machine w'.machine

module _ {R : Machine → Machine → Type 0} (order : IsPreorder R) where
  pub OnMachine-preorder : IsPreorder (OnMachine R)
  OnMachine-preorder = record {
    same = λ w. order.same w.machine;
    then_also = λ a b c. order.then_also a.machine b.machine c.machine;
  }

  pub OnMachine-still :
      {A : Type 0} (m : Exec A)
      → ((w : World) → (m w).1.machine ≡ w.machine)
      → Related (OnMachine R) m
  OnMachine-still m h = record { at = λ w. rw (h w) (order.same w.machine) }
